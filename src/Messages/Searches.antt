-- ===== src/Messages/Searches.antt =====
-- The message of a search and of an update, as they are sent.
use mathlib.Core.List.{map}
use mathlib.Core.Path.{subst}
use linyaps_store.Base.{
  suc, ◌≡◌, refl, sym, Option, none, some, List, [], ◌∷◌, ◌++◌, Str, codes, pos, if◌then◌else◌,
}
use linyaps_store.Repos.Pieces.{names_in, repo_names-names_in}
use linyaps_store.Messages.{
  Call, opens, text, closes, Message, Bus, or_empty, is_given, append_repos, repo_arg, write_search,
  write_update,
}
use linyaps_store.Messages.Sent.{
  Plays, seq, single, cons, when-Plays, NonEmpty-append, append_sv_string-Plays,
  append_sv_bool-Plays, string, bool, strings, entry, plain_calls, value_calls,
}
use linyaps_store.Messages.Balance.{depth, IsBalanced, depth-append, entry-IsBalanced}
use linyaps_store.Messages.Requests.{Outcome, play-Outcome, append_repos-Plays}

-- The calls of a search: its keyword, and the names of the repositories.
pub search_calls : (keyword repos : Option Str) → List Call
unfolding plain_calls value_calls
search_calls keyword repos =
    opens b'a' (codes "{sv}")
    ∷ (entry (codes "id") (plain_calls (string (or_empty keyword)))
        ++ (entry (codes "repos") (value_calls (strings (names_in repos))) ++ closes ∷ []))

write_search-Plays :
    (b : Bus) (keyword repos configured : Option Str)
    → Plays b
        (write_search b keyword repos configured)
        (search_calls keyword (repo_arg repos configured))
unfolding write_search search_calls
write_search-Plays b keyword repos configured =
    cons b _ _ _
      (seq b _ _ _ _ (append_sv_string-Plays b (codes "id") keyword)
        (seq b _ _ _ (closes ∷ [])
          (subst
            (λ names.
              Plays b (append_repos b (repo_arg repos configured))
                (entry (codes "repos") (value_calls (strings names))))
            (repo_names-names_in (repo_arg repos configured))
            (append_repos-Plays b (repo_arg repos configured)))
          (single b closes) tt)
        tt)
      tt

texts-IsBalanced : (names : List Str) → IsBalanced (map text names)
unfolding depth
texts-IsBalanced [] = λ n. refl
texts-IsBalanced (name ∷ names) = λ n. texts-IsBalanced names n

strings-IsBalanced : (names : List Str) → IsBalanced (value_calls (strings names))
unfolding value_calls depth
strings-IsBalanced names n =
    depth-append (map text names) (closes ∷ closes ∷ []) (suc (suc n)) (suc (suc n))
      (texts-IsBalanced names (suc (suc n)))

search_calls-IsBalanced : (keyword repos : Option Str) → IsBalanced (search_calls keyword repos)
unfolding search_calls depth plain_calls
search_calls-IsBalanced keyword repos n =
    let names : List Call = value_calls (strings (names_in repos)) in
    depth-append (entry (codes "repos") names) (closes ∷ []) (suc n) (suc n)
      (entry-IsBalanced (codes "repos") names (strings-IsBalanced (names_in repos)) (suc n))

-- The first string that is there and not empty.
abbrev pub first_filled : List (Option Str) → Option Str
first_filled [] = none
first_filled (none ∷ rest) = first_filled rest
first_filled (some [] ∷ rest) = first_filled rest
first_filled (some (c ∷ s) ∷ rest) = some (c ∷ s)

-- The string of repositories of a search: the given one, else the configured one, else "stable".
abbrev pub searched_in : (repos configured : Option Str) → Option Str
searched_in repos configured = first_filled (repos ∷ configured ∷ some (codes "stable") ∷ [])

configured_lem :
    (configured : Option Str)
    → (if is_given configured then configured else some (codes "stable"))
      ≡ first_filled (configured ∷ some (codes "stable") ∷ [])
configured_lem none = refl
configured_lem (some []) = refl
configured_lem (some (c ∷ s)) = refl

repo_arg_lem :
    (repos configured : Option Str) → repo_arg repos configured ≡ searched_in repos configured
unfolding repo_arg
repo_arg_lem none configured = configured_lem configured
repo_arg_lem (some []) configured = configured_lem configured
repo_arg_lem (some (c ∷ s)) configured = refl

-- `write_search` writes a dictionary with the keyword as its `id` and, as its `repos`, the names that
-- the string of repositories holds, which are its pieces between commas without the blanks and tabs
-- in front, an empty one left out: the given string, else the configured one, else "stable", where
-- a string that is empty counts as none. A string that is not empty but holds no name, as ",", gives
-- no names. It makes these calls of sd-bus in that order, of which each container that is opened is closed again, and
-- returns no error; or one of them is refused, which is the last that it makes, and it returns the
-- error.
pub write_search-Outcome :
    (b : Bus) (keyword repos configured : Option Str) (m : Message)
    → let calls : List Call = search_calls keyword (searched_in repos configured) in
      IsBalanced calls × Outcome b m calls (write_search b keyword repos configured m)
write_search-Outcome b keyword repos configured m =
    let calls : List Call = search_calls keyword (searched_in repos configured) in
    let plays =
      subst (λ o. Plays b (write_search b keyword repos configured) (search_calls keyword o))
        (repo_arg_lem repos configured) (write_search-Plays b keyword repos configured) in
    (
      search_calls-IsBalanced keyword (searched_in repos configured),
      subst (Outcome b m calls) (sym (plays m)) (play-Outcome b (pos 0) calls m refl),
    )

-- The calls of an update: the package in an array of variants, and the two flags.
pub update_calls : (id channel : Option Str) → List Call
unfolding plain_calls
update_calls id channel =
    opens b'a' (codes "{sv}")
    ∷ opens b'e' (codes "sv")
    ∷ text (codes "packages")
    ∷ opens b'v' (codes "av")
    ∷ opens b'a' (codes "v")
    ∷ opens b'v' (codes "a{sv}")
    ∷ opens b'a' (codes "{sv}")
    ∷ (entry (codes "id") (plain_calls (string (or_empty id)))
        ++ ((if is_given channel
              then entry (codes "channel") (plain_calls (string (or_empty channel)))
              else [])
            ++ closes
              ∷ closes
              ∷ closes
              ∷ closes
              ∷ closes
              ∷ (entry (codes "appOnly") (plain_calls (bool (pos 0)))
                  ++ (entry (codes "depsOnly") (plain_calls (bool (pos 0))) ++ closes ∷ []))))

write_update-Plays :
    (b : Bus) (id channel : Option Str)
    → Plays b (write_update b id channel) (update_calls id channel)
unfolding write_update update_calls
write_update-Plays b id channel =
    let flags =
      cons b _ _ _
        (cons b _ _ _
          (cons b _ _ _
            (cons b _ _ _
              (cons b closes _ _
                (seq b _ _ _ _ (append_sv_bool-Plays b (codes "appOnly") (pos 0))
                  (seq b _ _ _ (closes ∷ []) (append_sv_bool-Plays b (codes "depsOnly") (pos 0))
                    (single b closes) tt)
                  tt)
                tt)
              tt)
            tt)
          tt)
        tt in
    let fields =
      seq b _ _ _ _ (append_sv_string-Plays b (codes "id") id)
        (seq b _ _ _ _
          (when-Plays b (is_given channel) _ _ (append_sv_string-Plays b (codes "channel") channel))
          flags tt)
        (NonEmpty-append
          (if is_given channel
            then entry (codes "channel") (plain_calls (string (or_empty channel)))
            else [])
          _ tt) in
    cons b _ _ _
      (cons b _ _ _
        (cons b _ _ _ (cons b _ _ _ (cons b _ _ _ (cons b _ _ _ (cons b _ _ _ fields tt) tt) tt) tt)
          tt)
        tt)
      tt

update_calls-IsBalanced : (id channel : Option Str) → IsBalanced (update_calls id channel)
unfolding update_calls depth plain_calls
update_calls-IsBalanced id none n = refl
update_calls-IsBalanced id (some []) n = refl
update_calls-IsBalanced id (some (c ∷ cs)) n = refl

-- The same for `write_update`: an array of one package, with its id and its channel if it has one, and
-- the flags `appOnly` and `depsOnly`, which are false.
pub write_update-Outcome :
    (b : Bus) (id channel : Option Str) (m : Message)
    → IsBalanced (update_calls id channel)
      × Outcome b m (update_calls id channel) (write_update b id channel m)
write_update-Outcome b id channel m = (
  update_calls-IsBalanced id channel,
  subst (Outcome b m (update_calls id channel)) (sym (write_update-Plays b id channel m))
      (play-Outcome b (pos 0) (update_calls id channel) m refl),
)
