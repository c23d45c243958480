-- ===== src/Replies/Configured/Entries.antt =====
-- The names that are chosen from the configuration, and how those of one repository are read.
use linyaps_store.Base.{
  ℕ, ◌≡◌, refl, sym, ap, ◌∙◌, Option, none, some, List, [], ◌∷◌, ◌++◌, Bool, true, false, ◌&&◌,
  if◌then◌else◌, ◌>>=◌, deref, Returns, Str, codes, same, strcmp, same_iff, ℤ, is_negative,
  Allocator, IsPlenty,
}
use mathlib.Core.Path.{subst}
use linyaps_store.Repos.Names.{IsName}
use linyaps_store.Context.Signals.{dupstr}
use linyaps_store.Replies.{Basic, Item, is_sig, Read, read_basic, read_variant_string, leave_entry}
use linyaps_store.Replies.Read.{fold, All, Reads}
use linyaps_store.Replies.Results.{is_item, text_after, read_basic_lem, leave_entry_lem, dup-plenty}
use linyaps_store.Replies.Configured.{Names, no_names, name_value, name_entry, RepoVariant, Setting}

-- The key that is read is no NULL pointer.
abbrev pub Keyed : Item → Type 0
Keyed it = (key : Str) × (it.key ≡ some key)

-- The last string of each of the two keys counts.
abbrev pub name_after : ℕ → Item → Names → Names
name_after n it s = record {
  name = text_after (codes "name") it s.name;
  alias = text_after (codes "alias") it s.alias;
}

abbrev pub first_given : List (Option Str) → Option Str
first_given [] = none
first_given (none ∷ rest) = first_given rest
first_given (some name ∷ rest) = some name

-- The alias of a repository if it has one, else its name.
abbrev pub chosen : RepoVariant → Option Str
chosen v = let s = fold name_after v.map.elements no_names in first_given (s.alias ∷ s.name ∷ [])

abbrev pub with_name : Option Str → List Str → List Str
with_name none names = names
with_name (some name) names = names ++ name ∷ []

abbrev pub variant_after : ℕ → RepoVariant → List Str → List Str
variant_after n v names = with_name (chosen v) names

abbrev pub setting_after : ℕ → Setting → List Str → List Str
setting_after n e names =
    if is_item (codes "repos") (codes "av") e.item.key e.item.sig
    then fold variant_after e.repos.elements names
    else names

abbrev pub IsChosen : Option Str → Type 0
IsChosen none = Unit
IsChosen (some name) = IsName name

-- A repository with keys, whose name or alias can be the name of a repository.
abbrev pub IsNamed : RepoVariant → Type 0
IsNamed v = All Keyed v.map.elements × IsChosen (chosen v)

abbrev pub IsSetting : Setting → Type 0
IsSetting e = Keyed e.item × All IsNamed e.repos.elements

pub no_weight : {A : Type 0} → A → ℕ
no_weight x = 0

unfoldable pub Anything : {S : Type 0} → ℕ → S → Type 0
Anything n s = Unit

abbrev pub itself : Names → Names
itself s = s

-- The two keys differ.
not_name : (key : Str) → same key (codes "alias") ≡ true → same key (codes "name") ≡ false
unfolding same strcmp
not_name key e =
    subst (λ k. same k (codes "name") ≡ false) (sym ((same_iff key (codes "alias")).0 e)) refl

by_tests :
    (b d x : Bool) (v : Basic) (skip : ℤ) (s : Names) (copied text : Option Str)
    → copied ≡ text
    → (b ≡ true → d ≡ false)
    → let r : Read Names =
        if b
        then if x then read_basic v s (record s { alias = copied }) else (skip, s)
        else if d
        then if x then read_basic v s (record s { name = copied }) else (skip, s)
        else (skip, s) in
      is_negative r.0 ≡ false
      → r.1 ≡ record {
        name = if d && x then text else s.name;
        alias = if b && x then text else s.alias;
      }
by_tests true true x v skip s copied text e f h = cc (f refl)
by_tests true false true v skip s copied text e f h =
    read_basic_lem v s _ h ∙ ap (λ t. record s { alias = t }) e
by_tests true false false v skip s copied text e f h = refl
by_tests false true true v skip s copied text e f h =
    read_basic_lem v s _ h ∙ ap (λ t. record s { name = t }) e
by_tests false true false v skip s copied text e f h = refl
by_tests false false x v skip s copied text e f h = refl

name_value_lem :
    (a : Allocator) (n : ℕ) (key : Str) (it : Item) (s : Names)
    → IsPlenty a
    → it.key ≡ some key
    → is_negative (name_value a n key it s).0 ≡ false
    → (name_value a n key it s).1 ≡ name_after n it s
unfolding name_value read_variant_string
name_value_lem a n key it s p e h =
    by_tests (same key (codes "alias")) (same key (codes "name")) (is_sig (codes "s") it.sig)
      it.basic it.skip s (dupstr a n it.basic.text) it.basic.text (dup-plenty a p n it.basic.text)
      (not_name key) h
    ∙ ap
        (λ k. record {
          name = if is_item (codes "name") (codes "s") k it.sig then it.basic.text else s.name;
          alias = if is_item (codes "alias") (codes "s") k it.sig then it.basic.text else s.alias;
        })
        (sym e)

pub name_entry_lem :
    (a : Allocator) (n k : ℕ) (it : Item) (s : Names)
    → IsPlenty a
    → Keyed it
    → Returns
        (name_entry a n it s)
        (Reads (name_entry a) Keyed no_weight Anything itself name_after k (name_after n it s))
unfolding name_entry Anything
name_entry_lem a n k it s p (key, g) =
    let read = name_value a n key it s in
    (
      leave_entry it.entry read,
      rw (g, deref, ◌>>=◌) refl,
      λ q.
          let (taken, same_state) = leave_entry_lem it.entry read q in
          (tt, same_state ∙ name_value_lem a n key it s p g taken),
    )
