-- ===== src/Repos/Pieces.antt =====
-- The names of a string of repositories, described piece by piece.
use mathlib.Core.List.{append_assoc, append-nil}
use linyaps_store.Base.{
  ◌≡◌, refl, sym, ap, ◌∙◌, Option, none, some, List, [], ◌∷◌, ◌++◌, ◌||◌, ◌==◌, if◌then◌else◌, Str,
  Bool-cases, inl, inr,
}
use linyaps_store.Repos.{trim, emit, tokens, repo_names}

-- The pieces of a string between its commas: the first one, and the others.
abbrev pub pieces : Str → Str × List Str
pieces [] = ([], [])
pieces (c ∷ s) =
    let (first, rest) = pieces s in if c == b',' then ([], first ∷ rest) else (c ∷ first, rest)

-- A piece from its first byte on that is no blank and no tab.
abbrev pub without_blanks : Str → Str
without_blanks [] = []
without_blanks (c ∷ s) = if (c == b' ') || (c == 9) then without_blanks s else c ∷ s

abbrev pub with_piece : Str → List Str → List Str
with_piece [] names = names
with_piece (c ∷ s) names = (c ∷ s) ∷ names

-- The pieces that are not empty without their blanks in front.
abbrev pub filled : List Str → List Str
filled [] = []
filled (p ∷ ps) = with_piece (without_blanks p) (filled ps)

abbrev pub names_in : Option Str → List Str
names_in none = []
names_in (some s) = let (first, rest) = pieces s in filled (first ∷ rest)

trim_lem : (s : Str) → trim s ≡ without_blanks s
unfolding trim
trim_lem [] = refl
trim_lem (c ∷ s) = elim (Bool-cases ((c == b' ') || (c == 9))) [
  | inl e ↦ rw e (trim_lem s)
  | inr e ↦ rw e refl
]

emit-append :
    (token : Str) (names : List Str) → emit token ++ names ≡ with_piece (without_blanks token) names
unfolding emit
emit-append token names = by_trim (trim token) ∙ ap (λ t. with_piece t names) (trim_lem token)
  where
    by_trim : (t : Str) → elim t [ [] ↦ [] | c ∷ s ↦ (c ∷ s) ∷ [] ] ++ names ≡ with_piece t names
    by_trim [] = refl
    by_trim (c ∷ s) = refl

tokens_lem :
    (token s : Str)
    → tokens token s ≡ (let (first, rest) = pieces s in filled ((token ++ first) ∷ rest))
unfolding tokens
tokens_lem token [] =
    sym (append-nil (emit token))
    ∙ emit-append token []
    ∙ ap (λ t. filled (t ∷ [])) (sym (append-nil token))
tokens_lem token (c ∷ s) = elim (Bool-cases (c == b',')) [
  | inl comma ↦ rw comma (
      ap (λ names. emit token ++ names) (tokens_lem [] s)
      ∙ emit-append token (filled ((pieces s).0 ∷ (pieces s).1))
      ∙ ap (λ t. filled (t ∷ (pieces s).0 ∷ (pieces s).1)) (sym (append-nil token)))
  | inr other ↦ rw other (
      tokens_lem (token ++ c ∷ []) s
      ∙ ap (λ t. filled (t ∷ (pieces s).1)) (append_assoc token (c ∷ []) (pieces s).0))
]

-- The names that are appended to the message are the pieces of the string between commas, in order,
-- each without the blanks and tabs in front, of which an empty one is left out.
pub repo_names-names_in : (repos : Option Str) → repo_names repos ≡ names_in repos
unfolding repo_names
repo_names-names_in none = refl
repo_names-names_in (some s) = tokens_lem [] s
