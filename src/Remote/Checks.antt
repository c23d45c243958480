-- ===== src/Remote/Checks.antt =====
-- lib/linyaps_remote.c: linyaps_remote_check_updates.
pub mod Listed
use linyaps_store.Base.{
  ℕ, zero, suc, Option, none, some, List, [], ◌∷◌, ◌++◌, Bool, true, false, if◌then◌else◌, ◌==◌,
  Run, ok, fault, out_of_bounds, ◌>>=◌, Str, codes,
}
use linyaps_store.Types.{PackageInfo}
use linyaps_store.Json.{Json, number_of, array_of}
use linyaps_store.Remote.Records.{RemoteAppInfo, parse_records_array}
use linyaps_store.Remote.Pages.{Object, text, Backend, arch_buf, is_200, url_of}

-- The list that is returned and `*out_count`.
abbrev pub Updates : Type 0
Updates = Option (List RemoteAppInfo) × ℕ

abbrev pub no_updates : Updates
no_updates = (none, 0)

-- `app->arch ? app->arch : arch_buf`
pub arch_or : Option Str → Str → Str
arch_or none default = default
arch_or (some arch) default = arch

-- The object for one application, or nothing if the code skips it.
pub update_object : Str → Option Str → Option Str → Option Str → Option Object
unfolding arch_or
update_object default (some id) (some version) arch = some (
    text (codes "appId") id
    ∷ text (codes "arch") (arch_or arch default)
    ∷ text (codes "version") version
    ∷ [])
update_object default none version arch = none
update_object default (some id) none arch = none

pub object_of : Str → Option PackageInfo → Option Object
unfolding update_object
object_of default none = none
object_of default (some app) = update_object default app.id app.version app.arch

-- `if (!item) continue; ... cJSON_AddItemToArray(req, item)`
pub add_object : Bool → Option Object → List Object → List Object
add_object true (some item) req = req ++ item ∷ []
add_object true none req = req
add_object false item req = req

-- The loop over the first `count` applications, from the i-th creation on
pub build_request :
    Backend → List (Option PackageInfo) → (count i : ℕ) → List Object → Run (List Object)
unfolding add_object object_of
build_request b apps zero i req = ok req
build_request b [] (suc count) i req = fault out_of_bounds
build_request b (app ∷ apps) (suc count) i req =
    build_request b apps count (suc i)
      (add_object (b.creates i) (object_of (arch_buf b.machine) app) req)

module _ (j : Json) (b : Backend) where
  open j use {Value, parse}

  pub read_updates : Option (List Value) → Run Updates
  read_updates none = ok no_updates
  read_updates (some vs) = parse_records_array j b.gives b.memory vs

  pub read_root : Option Value → Run Updates
  unfolding read_updates
  read_root none = ok no_updates
  read_root (some root) =
      if is_200 (number_of j (j.item root (codes "code")))
      then read_updates (array_of j (j.item root (codes "data")))
      else ok no_updates

  pub read_response : Option Str → Run Updates
  unfolding read_root
  read_response none = ok no_updates
  read_response (some resp) = read_root (parse resp)

  pub send_body : Option Str → Run Updates
  unfolding read_response
  send_body none = ok no_updates
  send_body (some body) = read_response (b.post (url_of (codes "/app/appCheckUpdate")) body)

  pub check_apps : List (Option PackageInfo) → ℕ → Run Updates
  unfolding build_request send_body
  check_apps apps count =
      if b.creates 0
      then (build_request b apps count 1 [] >>= λ req. send_body (b.print_array req))
      else ok no_updates

  pub linyaps_remote_check_updates : Option (List (Option PackageInfo)) → ℕ → Run Updates
  unfolding check_apps
  linyaps_remote_check_updates none count = ok no_updates
  linyaps_remote_check_updates (some apps) count =
      if count == 0 then ok no_updates else check_apps apps count
