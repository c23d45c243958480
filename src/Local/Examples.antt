-- ===== src/Local/Examples.antt =====
-- Runs on concrete inputs.
use linyaps_store.Base.{
  ℕ, ◌≡◌, refl, none, some, List, [], ◌∷◌, Bool, true, false, Returns, Str, codes, arith, same,
  strcmp,
}
use linyaps_store.Base.Memory.{plenty, plenty-IsPlenty}
use linyaps_store.Json.{Json}
use linyaps_store.Json.Sample.{
  Node, text, object, items, end, field, nil, cons, json_of, item, string, array, find, to_list,
  is_object,
}
use linyaps_store.Launch.{all_safe, launch_app}
use linyaps_store.Launch.Safe.{AllSafe, launch_app-AllSafe}
use linyaps_store.Local.Packages.{package_info_from_json_object, parse_states_json, layers_of}
use linyaps_store.Local.Packages.Apps.{IsListing, layers_in, parse_states_json_lem}
use linyaps_store.Local.Capture.{Reading, after_reading, read_file_contents, run_command_capture}
use linyaps_store.Local.Capture.Whole.{Captured, output, run_command_capture_lem}
use linyaps_store.Local.Installed.{Host, info_command, linyaps_list_installed, linyaps_info}
use linyaps_store.Local.Installed.Asked.{
  HasMemory, IsListedText, source, commands, linyaps_list_installed_lem, IsSafeLog,
  linyaps_info-IsSafeLog,
}

-- {"layers": [{"info": {"id": "a", "kind": "app"}, "repo": "stable"}, {"id": "b", "kind": "base"}]}
abbrev state : Node
state = object (
    field (codes "layers")
      (items (
        cons
          (object (
            field (codes "info")
              (object (
                field (codes "id") (text (codes "a"))
                  (field (codes "kind") (text (codes "app")) end)))
              (field (codes "repo") (text (codes "stable")) end)))
          (cons
            (object (
              field (codes "id") (text (codes "b"))
                (field (codes "kind") (text (codes "base")) end)))
            nil)))
      end)

abbrev json : Json
json = json_of state

abbrev always : ℕ → Bool
always size = true

parse_states_json_example :
    Returns
      (parse_states_json json always (λ n. plenty) state)
      (IsListing json (layers_in json state))
unfolding item string array layers_of find same strcmp to_list
parse_states_json_example =
    parse_states_json_lem json always (λ n. plenty) state (λ size. refl) (λ n. plenty-IsPlenty)
      (omega arith)

-- `ab`, then the end of the pipe.
abbrev pipe : List Reading
pipe = (record { bytes = codes "ab"; at_eof = true; error = false }) ∷ []

run_command_capture_example :
    Returns (run_command_capture always (some pipe)) (Captured always [] pipe)
unfolding after_reading
run_command_capture_example = run_command_capture_lem always pipe (omega arith, tt) (omega arith)

-- There is no state file.
abbrev host : Host
host = record { states = none; popen = λ cmd. some pipe; gives = always; memory = λ n. plenty }

host-HasMemory : HasMemory host
host-HasMemory = record { array = λ size. refl; layer_memory = λ n. plenty-IsPlenty }

linyaps_list_installed_example :
    Returns
      (linyaps_list_installed json host)
      λ r. (r.0 ≡ commands json host none) × IsListedText json host (source json host none pipe) r.1
unfolding read_file_contents item string array layers_of find same strcmp to_list after_reading
    output
linyaps_list_installed_example =
    linyaps_list_installed_lem json host none pipe refl host-HasMemory refl (omega arith, tt)
      (omega arith) (omega arith)

linyaps_info_example :
    IsSafeLog json host (some (codes "ab")) (info_command json host (codes "ab") ∷ [])
unfolding linyaps_info read_file_contents all_safe run_command_capture is_object item find same
    strcmp package_info_from_json_object string
linyaps_info_example =
    linyaps_info-IsSafeLog json host (some (codes "ab"))
      (info_command json host (codes "ab") ∷ [], none) refl

launch_app_example :
    (c : ℕ) × (cs : Str) × (some (codes "a-b") ≡ some (c ∷ cs))
    × AllSafe (c ∷ cs)
    × (codes "ll-cli" ∷ codes "run" ∷ codes "a-b" ∷ []
        ≡ codes "ll-cli" ∷ codes "run" ∷ (c ∷ cs) ∷ [])
unfolding launch_app
launch_app_example =
    launch_app-AllSafe (some (codes "a-b")) (codes "ll-cli" ∷ codes "run" ∷ codes "a-b" ∷ []) refl
