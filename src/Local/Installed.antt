-- ===== src/Local/Installed.antt =====
-- lib/linyaps_local.c: linyaps_list_installed and linyaps_info. The state file, the pipe of a
-- command, cJSON and the memory are arguments.
pub mod Asked
use linyaps_store.Base.{
  ℕ, Option, none, some, List, [], ◌∷◌, ◌++◌, Bool, true, false, if◌then◌else◌, Run, ok, ◌>>=◌, Str,
  codes, same, Allocator, length,
}
use linyaps_store.Types.{PackageInfo}
use linyaps_store.Json.{Json, string_of, array_of}
use linyaps_store.Remote.Pages.{take}
use linyaps_store.Launch.{all_safe}
use linyaps_store.Local.Capture.{File, Reading, read_file_contents, run_command_capture}
use linyaps_store.Local.Packages.{
  info_of, repo_or_local, package_info_from_json_object, parse_states_json,
}

-- The state file if it opens, and what a command that `popen` runs writes.
pub record Host : Type 0 where
  pub states : Option File
  pub popen : Str → Option (List Reading)
  pub gives : ℕ → Bool
  pub memory : ℕ → Allocator

-- The commands that are run, in their order, and the result.
abbrev pub Logged {ℓ} : Type ℓ → Type ℓ
Logged A = List Str × A

abbrev pub Listing : Type 0
Listing = Option (List PackageInfo) × ℕ

module _ (j : Json) (h : Host) where
  open j use {Value, parse, item, is_object}

  pub list_root : Option Value → Run Listing
  list_root none = ok (none, 0)
  list_root (some root) = parse_states_json j h.gives h.memory root

  pub list_text : Option Str → Run Listing
  unfolding list_root
  list_text none = ok (none, 0)
  list_text (some buf) = list_root (parse buf)

  -- `if (!buf) buf = run_command_capture("ll-cli list --json");`
  pub list_or_run : Option Str → Run (Logged Listing)
  unfolding list_text
  list_or_run (some buf) = list_text (some buf) >>= λ r. ok ([], r)
  list_or_run none = do
    buf ← run_command_capture h.gives (h.popen (codes "ll-cli list --json"))
    r ← list_text buf
    ok (codes "ll-cli list --json" ∷ [], r)

  pub linyaps_list_installed : Run (Logged Listing)
  unfolding list_or_run
  linyaps_list_installed = do buf ← read_file_contents h.gives h.states; list_or_run buf

  -- `cJSON_IsString(id_item) && strcmp(id_item->valuestring, app_id) == 0`
  pub is_id : Str → Option Str → Bool
  is_id app_id none = false
  is_id app_id (some id) = same id app_id

  -- The first layer whose object has the id
  pub find_layer : Str → List Value → Option Value
  unfolding is_id
  find_layer app_id [] = none
  find_layer app_id (layer ∷ layers) =
      let rest = find_layer app_id layers in
      if is_id app_id (string_of j (item (info_of j layer) (codes "id"))) then some layer else rest

  pub find_in : Str → Option (List Value) → Option Value
  unfolding find_layer
  find_in app_id none = none
  find_in app_id (some layers) = find_layer app_id layers

  pub find_in_root : Str → Option Value → Option Value
  unfolding find_in
  find_in_root app_id none = none
  find_in_root app_id (some root) = find_in app_id (array_of j (item root (codes "layers")))

  pub find_in_text : Str → Option Str → Option Value
  unfolding find_in_root
  find_in_text app_id none = none
  find_in_text app_id (some buf) = find_in_root app_id (parse buf)

  pub info_in_root : Option Value → Option PackageInfo
  info_in_root none = none
  info_in_root (some root) =
      if is_object root
      then package_info_from_json_object j (h.memory 0) root (codes "local")
      else none

  pub info_in_text : Option Str → Option PackageInfo
  unfolding info_in_root
  info_in_text none = none
  info_in_text (some buf) = info_in_root (parse buf)

  -- `snprintf(cmd, sizeof(cmd), "ll-cli --json info %s", app_id)`
  abbrev pub info_command : Str → Str
  info_command app_id = take 1023 (codes "ll-cli --json info " ++ app_id)

  pub run_info : Str → Run (Logged (Option PackageInfo))
  unfolding info_in_text
  run_info app_id = do
    buf ← run_command_capture h.gives (h.popen (info_command app_id))
    ok (info_command app_id ∷ [], info_in_text buf)

  -- The command is run if all bytes of the id are safe.
  pub ask_command : Str → Run (Logged (Option PackageInfo))
  unfolding run_info
  ask_command app_id = if all_safe app_id then run_info app_id else ok ([], none)

  pub info_or_ask : Str → Option Value → Run (Logged (Option PackageInfo))
  unfolding ask_command
  info_or_ask app_id none = ask_command app_id
  info_or_ask app_id (some layer) = ok (
    [],
    package_info_from_json_object j (h.memory 0) (info_of j layer)
        (repo_or_local (string_of j (item layer (codes "repo")))),
  )

  unfoldable pub linyaps_info : Option Str → Run (Logged (Option PackageInfo))
  unfolding info_or_ask find_in_text
  linyaps_info none = ok ([], none)
  linyaps_info (some []) = ok ([], none)
  linyaps_info (some (c ∷ cs)) = do
    buf ← read_file_contents h.gives h.states
    info_or_ask (c ∷ cs) (find_in_text (c ∷ cs) buf)
