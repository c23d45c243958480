-- ===== src/Repos/Names.antt =====
-- What is put together is taken apart again.
use mathlib.Core.List.{append_assoc, append-nil}
use linyaps_store.Base.{
  ◌≡◌, refl, sym, ap, ◌∙◌, Option, none, some, List, [], ◌∷◌, ◌++◌, true, false, ◌||◌, ◌==◌, Str,
  pos, Bool-cases, inl, inr,
}
use linyaps_store.Repos.{joined, csv_append, trim, emit, tokens, repo_names}

abbrev pub NoComma : Str → Type 0
NoComma [] = Unit
NoComma (c ∷ s) = ((c == b',') ≡ false) × NoComma s

-- The name of a repository: it is not empty, has no comma and does not start with a blank or a tab.
abbrev pub IsName : Str → Type 0
IsName [] = ⊥
IsName (c ∷ s) = (((c == b' ') || (c == 9)) ≡ false) × NoComma (c ∷ s)

abbrev pub AllNames : List Str → Type 0
AllNames [] = Unit
AllNames (n ∷ names) = IsName n × AllNames names

tokens-append : (a b token : Str) → tokens token (a ++ b',' ∷ b) ≡ tokens token a ++ tokens [] b
unfolding tokens
tokens-append [] b token = refl
tokens-append (c ∷ a) b token = elim (Bool-cases (c == b',')) [
  | inl comma ↦ rw comma (
      ap (λ t. emit token ++ t) (tokens-append a b [])
      ∙ sym (append_assoc (emit token) (tokens [] a) (tokens [] b)))
  | inr other ↦ rw other (tokens-append a b (token ++ c ∷ []))
]

tokens_lem : (s token : Str) → NoComma s → tokens token s ≡ emit (token ++ s)
unfolding tokens
tokens_lem [] token h = ap emit (sym (append-nil token))
tokens_lem (c ∷ s) token h =
    rw h.0 (tokens_lem s (token ++ c ∷ []) h.1 ∙ ap emit (append_assoc token (c ∷ []) s))

name_alone : (n : Str) → IsName n → repo_names (some n) ≡ n ∷ []
unfolding repo_names emit trim
name_alone [] h = absurd h
name_alone (c ∷ s) h = tokens_lem (c ∷ s) [] h.1 ∙ rw (emit, trim, h.0)

repo_names-joined :
    (csv : Option Str) (n : Str)
    → IsName n
    → repo_names (some (joined csv n)) ≡ repo_names csv ++ n ∷ []
unfolding joined repo_names
repo_names-joined none n h = name_alone n h
repo_names-joined (some []) n h = name_alone n h
repo_names-joined (some (c ∷ csv)) n h =
    tokens-append (c ∷ csv) n [] ∙ ap (λ t. tokens [] (c ∷ csv) ++ t) (name_alone n h)

-- The repositories of the configuration, appended one after the other.
unfoldable pub csv_of : Option Str → List Str → Option Str
csv_of csv [] = csv
csv_of csv (n ∷ names) = csv_of (csv_append true csv (some n)).1 names

csv_append_name :
    (csv : Option Str) (n : Str)
    → IsName n
    → csv_append true csv (some n) ≡ (pos 0, some (joined csv n))
unfolding csv_append
csv_append_name csv [] h = absurd h
csv_append_name csv (c ∷ s) h = refl

pub repo_names-csv_of :
    (csv : Option Str) (names : List Str)
    → AllNames names
    → repo_names (csv_of csv names) ≡ repo_names csv ++ names
unfolding csv_of
repo_names-csv_of csv [] h = sym (append-nil (repo_names csv))
repo_names-csv_of csv (n ∷ names) h =
    ap (λ r. repo_names (csv_of r.1 names)) (csv_append_name csv n h.0)
    ∙ repo_names-csv_of (some (joined csv n)) names h.1
    ∙ ap (λ t. t ++ names) (repo_names-joined csv n h.0)
    ∙ append_assoc (repo_names csv) (n ∷ []) names

-- With memory, the names that are appended to the string are those that a search sends, in order, if
-- each is not empty, has no comma and does not start with a blank or a tab.
pub csv_append-repo_names :
    (names : List Str) → AllNames names → repo_names (csv_of none names) ≡ names
unfolding repo_names
csv_append-repo_names names h = repo_names-csv_of none names h
