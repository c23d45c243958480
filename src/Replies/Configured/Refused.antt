-- ===== src/Replies/Configured/Refused.antt =====
-- A repository, its array and a setting fail to be read exactly if an answer is an error.
use linyaps_store.Base.{
  ℕ, ◌≡◌, refl, ap, ◌∙◌, Option, none, some, [], ◌∷◌, Bool, true, false, ◌&&◌, ◌||◌, if◌then◌else◌,
  ◌>>=◌, Returns, Str, ℤ, is_negative, is_zero, Allocator, Bool-cases, inl, inr,
}
use linyaps_store.Repos.{csv_append}
use linyaps_store.Replies.{Read}
use linyaps_store.Replies.Read.{All}
use linyaps_store.Replies.Configured.{
  Names, no_names, name_entry, RepoVariant, alias_or, append_name, parse_repo_variant, Setting,
  leave_array, read_array,
}
use linyaps_store.Replies.Configured.Entries.{Keyed, IsNamed}
use linyaps_store.Replies.Configured.Errors.{
  name_fails, variant_fails, array_fails, if_taken-fails, read_elements-fails, read_container-fails,
  name_entry-fails,
}

-- With memory, appending a name is no error.
csv_append-fails : (csv o : Option Str) → is_negative (csv_append true csv o).0 ≡ false
unfolding csv_append
csv_append-fails csv none = refl
csv_append-fails csv (some []) = refl
csv_append-fails csv (some (c ∷ s)) = refl

or_false : (b : Bool) → (b || false) ≡ b
or_false true = refl
or_false false = refl

append_name-fails :
    (v : RepoVariant) (csv : Option Str) (read : Read Names)
    → is_negative (append_name true v csv read).0 ≡ (is_negative read.0 || is_negative v.leave)
unfolding append_name
append_name-fails v csv (r, s) =
    if_taken-fails r csv _
    ∙ ap (λ b. is_negative r || b)
        (if_taken-fails v.leave csv (csv_append true csv (alias_or s.alias s.name))
          ∙ ap (λ b. is_negative v.leave || b) (csv_append-fails csv (alias_or s.alias s.name))
          ∙ or_false (is_negative v.leave))

module _ (gives : ℕ → Bool) (memory : ℕ → Allocator) where
  variant-fails :
      (n : ℕ) (v : RepoVariant) (csv : Option Str)
      → gives n ≡ true
      → IsNamed v
      → Returns (parse_repo_variant gives memory n v csv) (λ r. is_negative r.0 ≡ variant_fails v)
  unfolding parse_repo_variant
  variant-fails n v csv given (keyed, i) = elim (Bool-cases (is_negative v.enter)) [
    | inl e ↦ ((v.enter, csv), rw e refl, rw e refl)
    | inr e ↦
        let (read, t, r) =
          read_container-fails (name_entry (memory n)) Keyed name_fails
            (λ m it s g. name_entry-fails (memory n) m it s g) v.map no_names keyed in
        (
          append_name true v csv read,
          rw (e, t, given, ◌>>=◌) refl,
          append_name-fails v csv read ∙ ap (λ b. b || is_negative v.leave) r ∙ rw e refl,
        )
  ]

  -- Not leaving the array adds no error.
  not_left : (l z v w : Bool) → (l || ((if z then v else l) || w)) ≡ (l || ((z && v) || w))
  not_left true z v w = refl
  not_left false true v w = refl
  not_left false false v w = refl

  sign_if :
      (z : Bool) (m n : ℤ)
      → is_negative (if z then m else n) ≡ (if z then is_negative m else is_negative n)
  sign_if true m n = refl
  sign_if false m n = refl

  leave_array-fails :
      (e : Setting) (read : Read (Option Str))
      → is_negative (leave_array e read).0 ≡ (
          is_negative read.0
          || (is_negative e.repos.last
              || ((is_zero e.repos.last && is_negative e.repos.leave)
                  || is_negative e.leave_variant)))
  unfolding leave_array
  leave_array-fails e (r, csv) =
      let left : ℤ = if is_zero e.repos.last then e.repos.leave else e.repos.last in
      if_taken-fails r csv _
      ∙ ap (λ b. is_negative r || b)
          (if_taken-fails e.repos.last csv _
            ∙ ap (λ b. is_negative e.repos.last || b)
                (if_taken-fails left csv (e.leave_variant, csv)
                  ∙ ap (λ b. b || is_negative e.leave_variant)
                      (sign_if (is_zero e.repos.last) e.repos.leave e.repos.last))
            ∙ not_left (is_negative e.repos.last) (is_zero e.repos.last) (is_negative e.repos.leave)
                (is_negative e.leave_variant))

  pub array-fails :
      (e : Setting) (csv : Option Str)
      → ((n : ℕ) → gives n ≡ true)
      → All IsNamed e.repos.elements
      → Returns (read_array gives memory e csv) (λ r. is_negative r.0 ≡ array_fails e)
  unfolding read_array
  array-fails e csv p g = elim (Bool-cases (is_negative e.enter)) [
    | inl f ↦ ((e.enter, csv), rw f refl, rw f refl)
    | inr f ↦ elim (Bool-cases (is_negative e.repos.enter)) [
      | inl h ↦ ((e.repos.enter, csv), rw (f, h) refl, rw (f, h) refl)
      | inr h ↦
          let (read, t, r) =
            read_elements-fails (parse_repo_variant gives memory) IsNamed variant_fails
              (λ n v csv g. variant-fails n v csv (p n) g) e.repos.elements csv g in
          (
            leave_array e read,
            rw (f, h, t, ◌>>=◌) refl,
            leave_array-fails e read
                ∙ ap
                    (λ b.
                      b
                      || (is_negative e.repos.last
                          || ((is_zero e.repos.last && is_negative e.repos.leave)
                              || is_negative e.leave_variant)))
                    r
                ∙ rw (f, h) refl,
          )
    ]
  ]
