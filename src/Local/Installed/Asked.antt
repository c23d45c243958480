-- ===== src/Local/Installed/Asked.antt =====
-- What the queries about installed packages return, and which commands they run.
use linyaps_store.Base.{
  ℕ, ◌^◌, ◌<◌, ◌≡◌, refl, sym, ap, Option, none, some, List, [], ◌∷◌, true, ok, ◌>>=◌, Returns,
  bind-eq-ok, ok_inj, Bool-cases, ◌⊎◌, inl, inr, arith, Str, codes, IsPlenty,
}
use linyaps_store.Types.{PackageInfo}
use linyaps_store.Json.{Json}
use linyaps_store.Launch.{all_safe}
use linyaps_store.Launch.Safe.{AllSafe, all_safe-AllSafe}
use linyaps_store.Local.Capture.{Reading, read_file_contents, run_command_capture}
use linyaps_store.Local.Capture.Whole.{
  AreReadings, total, output, text_after, Captured, run_command_capture_lem,
}
use linyaps_store.Local.Packages.Apps.{IsListing, IsShort, layers_in, parse_states_json_lem}
use linyaps_store.Local.Installed.{
  Host, Logged, Listing, list_root, list_text, list_or_run, linyaps_list_installed, find_in_text,
  info_command, run_info, info_in_text, ask_command, info_or_ask, linyaps_info,
}

-- Memory is always given.
pub record HasMemory (h : Host) : Type 0 where
  pub array : (size : ℕ) → h.gives size ≡ true
  pub layer_memory : (n : ℕ) → IsPlenty (h.memory n)

abbrev pub list_command : Str
list_command = codes "ll-cli list --json"

module _ (j : Json) (h : Host) where
  open j use {Value, parse}

  abbrev pub IsListedRoot : Option Value → Listing → Type 0
  IsListedRoot none r = r ≡ (none, 0)
  IsListedRoot (some root) r = IsListing j (layers_in j root) r

  abbrev pub IsListedText : Option Str → Listing → Type 0
  IsListedText none r = r ≡ (none, 0)
  IsListedText (some text) r = IsListedRoot (parse text) r

  abbrev pub IsShortRoot : Option Value → Type 0
  IsShortRoot none = Unit
  IsShortRoot (some root) = IsShort j (layers_in j root)

  abbrev pub IsShortText : Option Str → Type 0
  IsShortText none = Unit
  IsShortText (some text) = IsShortRoot (parse text)

  -- The text of the state file, or else of the command; and the commands that are run for it.
  abbrev pub source : Option Str → List Reading → Option Str
  source (some text) rs = some text
  source none rs = text_after [] (output rs)

  abbrev pub commands : Option Str → List Str
  commands (some text) = []
  commands none = list_command ∷ []

  list_root_lem :
      (root : Option Value)
      → HasMemory h
      → IsShortRoot root
      → Returns (list_root j h root) (IsListedRoot root)
  unfolding list_root
  list_root_lem none m n = ((none, 0), refl, refl)
  list_root_lem (some root) m n =
      parse_states_json_lem j h.gives h.memory root m.array m.layer_memory n

  list_text_lem :
      (text : Option Str)
      → HasMemory h
      → IsShortText text
      → Returns (list_text j h text) (IsListedText text)
  unfolding list_text
  list_text_lem none m n = ((none, 0), refl, refl)
  list_text_lem (some text) m n = list_root_lem (parse text) m n

  Captured-all :
      (rs : List Reading) (o : Option Str)
      → HasMemory h
      → Captured h.gives [] rs o
      → o ≡ text_after [] (output rs)
  Captured-all rs o m (inl e) = e
  Captured-all rs o m (inr (e, (size, refused))) = absurd (ground (arith, m.array size))

  list_or_run_lem :
      (text : Option Str) (rs : List Reading)
      → HasMemory h
      → h.popen list_command ≡ some rs
      → AreReadings rs
      → total rs < 2 ^ 62
      → IsShortText (source text rs)
      → Returns
          (list_or_run j h text)
          λ r. (r.0 ≡ commands text) × IsListedText (source text rs) r.1
  unfolding list_or_run
  list_or_run_lem (some text) rs m p a n s =
      let (r, e, v) = list_text_lem (some text) m s in (([], r), rw (e, ◌>>=◌) refl, (refl, v))
  list_or_run_lem none rs m p a n s =
      let (o, run, captured) = run_command_capture_lem h.gives rs a n in
      let (r, e, v) = list_text_lem (text_after [] (output rs)) m s in
      (
        (list_command ∷ [], r),
        rw (p, run, ◌>>=◌, Captured-all rs o m captured, e, ◌>>=◌) refl,
        (refl, v),
      )

  -- Where memory is always given, `linyaps_list_installed` ends normally, and returns the packages
  -- of the text of the state file, for which it runs no command; or, if that file cannot be opened or
  -- is empty, of the whole output of `ll-cli list --json`, the one command that it then runs. A text that is no
  -- JSON gives NULL and 0; of one that is, the packages are those that `parse_states_json` lists.
  -- The pipe of the command is read to its end, by readings of at most 4096 bytes and less than
  -- 2 ^ 62 in all, and the array of layers has less than 2 ^ 58.
  pub linyaps_list_installed_lem :
      (text : Option Str) (rs : List Reading)
      → read_file_contents h.gives h.states ≡ ok text
      → HasMemory h
      → h.popen list_command ≡ some rs
      → AreReadings rs
      → total rs < 2 ^ 62
      → IsShortText (source text rs)
      → Returns
          (linyaps_list_installed j h)
          λ r. (r.0 ≡ commands text) × IsListedText (source text rs) r.1
  unfolding linyaps_list_installed
  linyaps_list_installed_lem text rs f m p a n s = rw (f, ◌>>=◌) (list_or_run_lem text rs m p a n s)

  -- No command is run, or the one about an id of safe bytes.
  abbrev pub IsSafeLog : Option Str → List Str → Type 0
  IsSafeLog app_id log =
      (log ≡ []) ⊎ ((id : Str) × (app_id ≡ some id) × AllSafe id × (log ≡ info_command j h id ∷ []))

  run_info-log :
      (id : Str) (r : Logged (Option PackageInfo))
      → run_info j h id ≡ ok r
      → r.0 ≡ info_command j h id ∷ []
  unfolding run_info
  run_info-log id r e =
      let (buf, run, same) =
        bind-eq-ok (run_command_capture h.gives (h.popen (info_command j h id)))
          (λ buf. ok (info_command j h id ∷ [], info_in_text j h buf)) e in
      sym (ap (λ q. q.0) (ok_inj same))

  ask_command-IsSafeLog :
      (id : Str) (r : Logged (Option PackageInfo))
      → ask_command j h id ≡ ok r
      → IsSafeLog (some id) r.0
  unfolding ask_command
  ask_command-IsSafeLog id r e = elim (Bool-cases (all_safe id)) [
    | inr unsafe ↦ inl (sym (ap (λ q. q.0) (ok_inj (rw unsafe at e))))
    | inl safe ↦ inr (id, refl, (all_safe-AllSafe id).0 safe, run_info-log id r (rw safe at e))
  ]

  info_or_ask-IsSafeLog :
      (id : Str) (found : Option Value) (r : Logged (Option PackageInfo))
      → info_or_ask j h id found ≡ ok r
      → IsSafeLog (some id) r.0
  unfolding info_or_ask
  info_or_ask-IsSafeLog id none r e = ask_command-IsSafeLog id r e
  info_or_ask-IsSafeLog id (some layer) r e = inl (sym (ap (λ q. q.0) (ok_inj e)))

  -- Whatever the id, the state file and the JSON in it, `linyaps_info` runs at most one command, and
  -- only for an id of which every byte is a letter, a digit, `.`, `-`, `_` or `/`: `ll-cli --json
  -- info` with that id, cut at 1023 bytes.
  pub linyaps_info-IsSafeLog :
      (app_id : Option Str) (r : Logged (Option PackageInfo))
      → linyaps_info j h app_id ≡ ok r
      → IsSafeLog app_id r.0
  unfolding linyaps_info
  linyaps_info-IsSafeLog none r e = inl (sym (ap (λ q. q.0) (ok_inj e)))
  linyaps_info-IsSafeLog (some []) r e = inl (sym (ap (λ q. q.0) (ok_inj e)))
  linyaps_info-IsSafeLog (some (c ∷ cs)) r e =
      let (buf, f, g) = bind-eq-ok (read_file_contents h.gives h.states) _ e in
      info_or_ask-IsSafeLog (c ∷ cs) (find_in_text j h (c ∷ cs) buf) r g
