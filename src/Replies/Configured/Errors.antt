-- ===== src/Replies/Configured/Errors.antt =====
-- When reading the configuration fails: exactly if some answer of sd-bus that is read is an error.
use linyaps_store.Base.{
  ℕ, ◌≡◌, refl, sym, ap, ◌∙◌, List, [], ◌∷◌, Bool, true, false, ◌&&◌, ◌||◌, if◌then◌else◌, Run,
  ◌>>=◌, deref, Returns, codes, same, ℤ, pos, is_negative, is_zero, length, Allocator, Bool-cases,
  inl, inr,
}
use linyaps_store.Replies.{
  Container, Entry, Basic, Item, is_sig, Read, if_taken, read_basic, read_variant_string,
  read_elements, leave_container, read_container, leave_entry,
}
use linyaps_store.Replies.Read.{All}
use linyaps_store.Replies.Results.{is_item}
use linyaps_store.Replies.Configured.{Names, name_value, name_entry, RepoVariant, Setting}
use linyaps_store.Replies.Configured.Entries.{Keyed}

abbrev pub any {ℓ} : {A : Type ℓ} → (A → Bool) → List A → Bool
any test [] = false
any test (x ∷ xs) = test x || any test xs

-- Whether an answer to reading a variant, a container, an entry, a repository, a setting is an error.
abbrev pub basic_fails : Basic → Bool
basic_fails v = is_negative v.enter || (is_negative v.read || is_negative v.leave)

abbrev pub container_fails {ℓ} : {A : Type ℓ} → (A → Bool) → Container A → Bool
container_fails test c =
    is_negative c.enter || (any test c.elements || (is_negative c.last || is_negative c.leave))

abbrev pub name_fails : Item → Bool
name_fails it =
    (if is_item (codes "alias") (codes "s") it.key it.sig
      then basic_fails it.basic
      else if is_item (codes "name") (codes "s") it.key it.sig
      then basic_fails it.basic
      else is_negative it.skip)
    || is_negative it.leave

abbrev pub variant_fails : RepoVariant → Bool
variant_fails v = is_negative v.enter || (container_fails name_fails v.map || is_negative v.leave)

-- The array is left only if it was read to its end.
abbrev pub array_fails : Setting → Bool
array_fails e =
    is_negative e.enter
    || (is_negative e.repos.enter
        || (any variant_fails e.repos.elements
            || (is_negative e.repos.last
                || ((is_zero e.repos.last && is_negative e.repos.leave)
                    || is_negative e.leave_variant))))

abbrev pub setting_fails : Setting → Bool
setting_fails e =
    (if is_item (codes "repos") (codes "av") e.item.key e.item.sig
      then array_fails e
      else is_negative e.item.skip)
    || is_negative e.item.leave

-- The call for the configuration fails, or an answer while it is read.
abbrev pub configuration_fails : ℤ → Container Setting → Bool
configuration_fails answer settings =
    is_negative answer
    || (is_negative settings.enter
        || (any setting_fails settings.elements || is_negative settings.last))

pub if_taken-fails {ℓ} :
    {S : Type ℓ} (r : ℤ) (s : S) (next : Read S)
    → is_negative (if_taken r s next).0 ≡ (is_negative r || is_negative next.0)
if_taken-fails r s next = elim (Bool-cases (is_negative r)) [ inl e ↦ rw e e | inr e ↦ rw e refl ]

read_basic-fails {ℓ} :
    {S : Type ℓ} (v : Basic) (before after : S)
    → is_negative (read_basic v before after).0 ≡ basic_fails v
unfolding read_basic
read_basic-fails v before after =
    if_taken-fails v.enter before _
    ∙ ap (λ b. is_negative v.enter || b) (if_taken-fails v.read before (v.leave, after))

pub leave_entry-fails {ℓ} :
    {S : Type ℓ} (e : Entry) (x : Read S)
    → is_negative (leave_entry e x).0 ≡ (is_negative x.0 || is_negative e.leave)
unfolding leave_entry
leave_entry-fails e (r, s) = if_taken-fails r s (e.leave, s)

module _ {A S : Type 0} (step : ℕ → A → S → Run (Read S)) (G : A → Type 0) (fails : A → Bool) where
  -- A step returns an error exactly if the element has one.
  abbrev pub IsChecked : Type 0
  IsChecked = (n : ℕ) (x : A) (s : S) → G x → Returns (step n x s) (λ r. is_negative r.0 ≡ fails x)

  pub read_elements-fails :
      IsChecked
      → (xs : List A) (s : S) → All G xs
      → Returns (read_elements step xs s) (λ r. is_negative r.0 ≡ any fails xs)
  unfolding read_elements
  read_elements-fails h [] s g = ((pos 0, s), refl, refl)
  read_elements-fails h (x ∷ xs) s g =
      let (read, e, v) = h (length xs) x s g.0 in
      elim (Bool-cases (is_negative read.0)) [
        | inl refused ↦ (
          read,
          rw (e, ◌>>=◌, refused) refl,
          refused ∙ ap (λ b. b || any fails xs) (sym refused ∙ v),
        )
        | inr taken ↦
            let (z, f, w) = read_elements-fails h xs read.1 g.1 in
            (z, rw (e, ◌>>=◌, taken) f, w ∙ ap (λ b. b || any fails xs) (sym taken ∙ v))
      ]

  leave_container-fails :
      (c : Container A) (read : Read S)
      → is_negative (leave_container c read).0
        ≡ (is_negative read.0 || (is_negative c.last || is_negative c.leave))
  unfolding leave_container
  leave_container-fails c (r, s) =
      if_taken-fails r s _ ∙ ap (λ b. is_negative r || b) (if_taken-fails c.last s (c.leave, s))

  pub read_container-fails :
      IsChecked
      → (c : Container A) (s : S) → All G c.elements
      → Returns (read_container step c s) (λ r. is_negative r.0 ≡ container_fails fails c)
  unfolding read_container
  read_container-fails h c s g = elim (Bool-cases (is_negative c.enter)) [
    | inl refused ↦ ((c.enter, s), rw refused refl, rw refused refl)
    | inr taken ↦
        let (read, e, v) = read_elements-fails h c.elements s g in
        (
          leave_container c read,
          rw (taken, e, ◌>>=◌) refl,
          leave_container-fails c read
              ∙ ap (λ b. b || (is_negative c.last || is_negative c.leave)) v
              ∙ rw taken refl,
        )
  ]

by_tests :
    (b d x : Bool) (skip : ℤ) (n : Bool) (s : Names) (first second : Read Names)
    → is_negative first.0 ≡ n
    → is_negative second.0 ≡ n
    → is_negative
        (if b
          then if x then first else (skip, s)
          else if d
          then if x then second else (skip, s)
          else (skip, s)).0
      ≡ (if b && x then n else if d && x then n else is_negative skip)
by_tests true d true skip n s first second e f = e
by_tests true true false skip n s first second e f = refl
by_tests true false false skip n s first second e f = refl
by_tests false true true skip n s first second e f = f
by_tests false true false skip n s first second e f = refl
by_tests false false x skip n s first second e f = refl

pub name_entry-fails :
    (a : Allocator) (n : ℕ) (it : Item) (s : Names)
    → Keyed it
    → Returns (name_entry a n it s) (λ r. is_negative r.0 ≡ name_fails it)
unfolding name_entry name_value read_variant_string
name_entry-fails a n it s (key, g) =
    let read = name_value a n key it s in
    (
      leave_entry it.entry read,
      rw (g, deref, ◌>>=◌) refl,
      leave_entry-fails it.entry read
          ∙ ap (λ b. b || is_negative it.leave)
              (by_tests (same key (codes "alias")) (same key (codes "name"))
                  (is_sig (codes "s") it.sig) it.skip (basic_fails it.basic) s _ _
                  (read_basic-fails it.basic s _) (read_basic-fails it.basic s _)
                ∙ ap
                    (λ k.
                      if is_item (codes "alias") (codes "s") k it.sig
                      then basic_fails it.basic
                      else if is_item (codes "name") (codes "s") k it.sig
                      then basic_fails it.basic
                      else is_negative it.skip)
                    (sym g)),
    )
