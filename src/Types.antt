-- ===== src/Types.antt =====
-- lib/linyaps_types.h: the structures that the parts of the store pass to one another. A NULL
-- string is `none`; an `int64_t` is an integer; a `double` percentage is an abstract number.
use linyaps_store.Base.{ℕ, Option, none, Str, ℤ, pos}

pub record PackageInfo : Type 0 where
  pub id : Option Str
  pub name : Option Str
  pub version : Option Str
  pub arch : Option Str
  pub channel : Option Str
  pub repo : Option Str
  pub description : Option Str
  pub kind : Option Str
  pub module_name : Option Str
  pub base : Option Str
  pub runtime : Option Str
  pub schema_version : Option Str
  pub command : Option Str
  pub size : ℤ
  pub create_time : Option Str
  pub download_count : ℤ

-- `calloc(1, sizeof(LinyapsPackageInfo))`
abbrev pub blank_info : PackageInfo
blank_info = record {
  id = none;
  name = none;
  version = none;
  arch = none;
  channel = none;
  repo = none;
  description = none;
  kind = none;
  module_name = none;
  base = none;
  runtime = none;
  schema_version = none;
  command = none;
  size = pos 0;
  create_time = none;
  download_count = pos 0;
}

-- The state and the error code are the C integers; a percentage is a `double` that is only copied,
-- here by its bits.
pub record TaskProgress : Type 0 where
  pub object_path : Option Str
  pub state : ℤ
  pub percentage : ℕ
  pub message : Option Str
  pub error_code : ℤ

-- `LINYAPS_TASK_STATE_FAILED`
abbrev pub state_failed : ℤ
state_failed = pos 5

-- A progress of zero bytes: `LINYAPS_TASK_STATE_UNKNOWN`, and `0.0`.
abbrev pub blank_progress : TaskProgress
blank_progress = record {
  object_path = none;
  state = pos 0;
  percentage = 0;
  message = none;
  error_code = pos 0;
}
