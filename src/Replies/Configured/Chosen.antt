-- ===== src/Replies/Configured/Chosen.antt =====
-- The configured repositories, as a search sends them.
use linyaps_store.Base.{
  ℕ, ◌≡◌, refl, ap, ◌∙◌, Option, none, some, [], ◌∷◌, Bool, true, false, if◌then◌else◌, ok, ◌>>=◌,
  deref, Returns, Str, ℤ, is_negative, is_zero, Allocator, IsPlenty, Bool-cases, ◌⊎◌, inl, inr,
}
use linyaps_store.Repos.{csv_append, repo_names}
use linyaps_store.Repos.Names.{csv_of, repo_names-csv_of}
use linyaps_store.Replies.{Container, Read, leave_entry}
use linyaps_store.Replies.Read.{
  if_taken-same, fold, All, Reads, read_elements_lem, read_container_lem,
}
use linyaps_store.Replies.Results.{leave_entry_lem}
use linyaps_store.Replies.Configured.{
  Names, no_names, name_entry, RepoVariant, alias_or, append_name, parse_repo_variant, Setting,
  leave_array, read_array, has_repos, csv_read, read_setting, configured_repos_csv,
}
use linyaps_store.Replies.Results.{is_item}
use mathlib.Core.Path.{subst}
use linyaps_store.Base.{sym, ok_inj, ◌||◌, codes}
use linyaps_store.Replies.Configured.Errors.{
  any, setting_fails, configuration_fails, leave_entry-fails, read_elements-fails,
}
use linyaps_store.Replies.Configured.Refused.{array-fails}
use linyaps_store.Replies.Configured.Entries.{
  Keyed, name_after, first_given, chosen, with_name, variant_after, setting_after, IsChosen,
  IsNamed, IsSetting, no_weight, Anything, itself, name_entry_lem,
}

-- A string with one more chosen name.
appended_lem :
    (o : Option Str) (csv : Option Str)
    → IsChosen o
    → repo_names (csv_append true csv o).1 ≡ with_name o (repo_names csv)
unfolding csv_append csv_of
appended_lem none csv h = refl
appended_lem (some name) csv h = repo_names-csv_of csv (name ∷ []) (h, tt)

alias_or_lem : (alias name : Option Str) → alias_or alias name ≡ first_given (alias ∷ name ∷ [])
alias_or_lem none none = refl
alias_or_lem none (some name) = refl
alias_or_lem (some alias) name = refl

append_name_lem :
    (v : RepoVariant) (csv : Option Str) (read : Read Names) (n : ℕ)
    → IsChosen (chosen v)
    → (is_negative read.0 ≡ false → Unit {0} × (read.1 ≡ fold name_after v.map.elements no_names))
    → is_negative (append_name true v csv read).0 ≡ false
    → repo_names (append_name true v csv read).1 ≡ variant_after n v (repo_names csv)
unfolding append_name
append_name_lem v csv (r, s) n i g h =
    let last_names : Names = fold name_after v.map.elements no_names in
    elim (Bool-cases (is_negative r)) [
      | inl e ↦ cc (rw e at h)
      | inr e ↦ elim (Bool-cases (is_negative v.leave)) [
        | inl f ↦ cc (rw (e, f) at h)
        | inr f ↦
            rw (e, f)
              (ap (λ (t : Names). repo_names (csv_append true csv (alias_or t.alias t.name)).1)
                  (g e).1
                ∙ ap (λ o. repo_names (csv_append true csv o).1)
                    (alias_or_lem last_names.alias last_names.name)
                ∙ appended_lem (chosen v) csv i)
      ]
    ]

leave_array_lem :
    (e : Setting) (read : Read (Option Str))
    → is_negative (leave_array e read).0 ≡ false
    → (is_negative read.0 ≡ false) × ((leave_array e read).1 ≡ read.1)
unfolding leave_array
leave_array_lem e (r, csv) h = elim (Bool-cases (is_negative r)) [
  | inl f ↦ cc (rw f at h)
  | inr f ↦ (
    f,
    if_taken-same r csv _ (
        if_taken-same e.repos.last csv _ (
          if_taken-same (if is_zero e.repos.last then e.repos.leave else e.repos.last) csv _ refl)),
  )
]

module _ (gives : ℕ → Bool) (memory : ℕ → Allocator) where
  variant_lem :
      (k n : ℕ) (v : RepoVariant) (csv : Option Str)
      → (gives n ≡ true) × IsPlenty (memory n)
      → IsNamed v
      → Returns (parse_repo_variant gives memory n v csv) (
          Reads
            (parse_repo_variant gives memory)
            IsNamed
            no_weight
            Anything
            repo_names
            variant_after
            k
            (variant_after n v (repo_names csv)))
  unfolding parse_repo_variant Anything
  variant_lem k n v csv (given, p) (keyed, i) = elim (Bool-cases (is_negative v.enter)) [
    | inl e ↦ ((v.enter, csv), rw e refl, λ q. cc (rw e at q))
    | inr e ↦
        let (read, f, r) =
          read_container_lem (name_entry (memory n)) Keyed no_weight Anything itself name_after 0
            v.map no_names (λ m k it s h i. name_entry_lem (memory n) m k it s p h) keyed tt in
        (
          append_name true v csv read,
          rw (e, f, given, ◌>>=◌) refl,
          λ q. (tt, append_name_lem v csv read n i r q),
        )
  ]

  array_lem :
      (e : Setting) (csv : Option Str)
      → ((n : ℕ) → (gives n ≡ true) × IsPlenty (memory n))
      → All IsNamed e.repos.elements
      → Returns (read_array gives memory e csv) (λ read.
        is_negative read.0 ≡ false
        → repo_names read.1 ≡ fold variant_after e.repos.elements (repo_names csv))
  unfolding read_array Anything
  array_lem e csv p g = elim (Bool-cases (is_negative e.enter)) [
    | inl f ↦ ((e.enter, csv), rw f refl, λ q. cc (rw f at q))
    | inr f ↦ elim (Bool-cases (is_negative e.repos.enter)) [
      | inl h ↦ ((e.repos.enter, csv), rw (f, h) refl, λ q. cc (rw h at q))
      | inr h ↦
          let (read, t, r) =
            read_elements_lem (parse_repo_variant gives memory) IsNamed no_weight Anything
              repo_names variant_after 0 e.repos.elements csv
              (λ n k v s j i. variant_lem k n v s (p n) j) g tt in
          (
            leave_array e read,
            rw (f, h, t, ◌>>=◌) refl,
            λ q.
                let (taken, same_csv) = leave_array_lem e read q in
                ap repo_names same_csv ∙ (r taken).1,
          )
    ]
  ]

-- Memory for every repository of every setting
abbrev pub HasPlenty : (ℕ → ℕ → Bool) → (ℕ → ℕ → Allocator) → Type 0
HasPlenty gives memory = (i n : ℕ) → (gives i n ≡ true) × IsPlenty (memory i n)

-- A setting whose key is read
keyed_lem :
    (gives : ℕ → ℕ → Bool) (memory : ℕ → ℕ → Allocator) (n : ℕ) (e : Setting) (csv : Option Str)
    (key : Str)
    → e.item.key ≡ some key
    → read_setting gives memory n e csv ≡ (
        (if has_repos key e.item.sig
          then read_array (gives n) (memory n) e csv
          else ok (e.item.skip, csv))
        >>= λ read. ok (leave_entry e.item.entry read))
unfolding read_setting
keyed_lem gives memory n e csv key f =
    ap
      (λ o. deref o >>= λ k.
        (if has_repos k e.item.sig
          then read_array (gives n) (memory n) e csv
          else ok (e.item.skip, csv))
        >>= λ read. ok (leave_entry e.item.entry read))
      f

setting_lem :
    (gives : ℕ → ℕ → Bool) (memory : ℕ → ℕ → Allocator) (k n : ℕ) (e : Setting) (csv : Option Str)
    → HasPlenty gives memory
    → IsSetting e
    → Returns (read_setting gives memory n e csv) (
        Reads
          (read_setting gives memory)
          IsSetting
          no_weight
          Anything
          repo_names
          setting_after
          k
          (setting_after n e (repo_names csv)))
unfolding read_setting Anything
setting_lem gives memory k n e csv p ((key, f), named) =
    elim (Bool-cases (has_repos key e.item.sig)) [
      | inr other ↦ (
        leave_entry e.item.entry (e.item.skip, csv),
        keyed_lem gives memory n e csv key f ∙ rw (other, ◌>>=◌) refl,
        λ q. (
          tt,
          ap repo_names (leave_entry_lem e.item.entry (e.item.skip, csv) q).1 ∙ rw (f, other) refl,
        ),
      )
      | inl array ↦
          let (read, t, r) = array_lem (gives n) (memory n) e csv (p n) named in
          (
            leave_entry e.item.entry read,
            keyed_lem gives memory n e csv key f ∙ rw (array, t, ◌>>=◌) refl,
            λ q.
                let (taken, same_csv) = leave_entry_lem e.item.entry read q in
                (tt, ap repo_names same_csv ∙ r taken ∙ rw (f, array) refl),
          )
    ]

setting-fails :
    (gives : ℕ → ℕ → Bool) (memory : ℕ → ℕ → Allocator) (n : ℕ) (e : Setting) (csv : Option Str)
    → HasPlenty gives memory
    → IsSetting e
    → Returns (read_setting gives memory n e csv) (λ r. is_negative r.0 ≡ setting_fails e)
setting-fails gives memory n e csv p ((key, f), named) =
    let checked : Option Str → Bool = λ o. is_item (codes "repos") (codes "av") o e.item.sig in
    elim (Bool-cases (has_repos key e.item.sig)) [
      | inr other ↦ (
        leave_entry e.item.entry (e.item.skip, csv),
        keyed_lem gives memory n e csv key f ∙ rw (other, ◌>>=◌) refl,
        leave_entry-fails e.item.entry (e.item.skip, csv) ∙ rw (ap checked f ∙ other) refl,
      )
      | inl array ↦
          let (read, t, r) = array-fails (gives n) (memory n) e csv (λ m. (p n m).0) named in
          (
            leave_entry e.item.entry read,
            keyed_lem gives memory n e csv key f ∙ rw (array, t, ◌>>=◌) refl,
            leave_entry-fails e.item.entry read
                ∙ ap (λ b. b || is_negative e.item.leave) r
                ∙ rw (ap checked f ∙ array) refl,
          )
    ]

-- What `configured_repos_csv` gives: NULL exactly if an answer of sd-bus is an error, apart from the
-- one to leaving the configuration; and else a string that holds exactly the chosen names.
abbrev pub IsConfigured : ℤ → Container Setting → Option Str → Type 0
IsConfigured answer settings csv =
    ((configuration_fails answer settings ≡ true) × (csv ≡ none))
    ⊎ ((configuration_fails answer settings ≡ false)
        × (repo_names csv ≡ fold setting_after settings.elements []))

-- With memory, `configured_repos_csv` ends and faults nowhere on a configuration of which no key is
-- NULL and each repository has a name, or else none: the alias that its map has last, or the name
-- that it has last if it has no alias; where a name is not empty, has no comma and does not start
-- with a blank or a tab. If the call for the configuration or an answer of sd-bus while it is read is
-- an error, apart from the answer to leaving the configuration, it gives NULL. Else it gives a string
-- of which `append_repos` sends exactly these names, in the order of the configuration, or NULL if
-- there are none.
pub configured_repos_csv-repo_names :
    (gives : ℕ → ℕ → Bool) (memory : ℕ → ℕ → Allocator) (answer : ℤ) (settings : Container Setting)
    → HasPlenty gives memory
    → All IsSetting settings.elements
    → Returns (configured_repos_csv gives memory answer settings) (IsConfigured answer settings)
unfolding configured_repos_csv Anything csv_read repo_names
configured_repos_csv-repo_names gives memory answer settings p g =
    elim (Bool-cases (is_negative answer)) [
      | inl e ↦ (none, rw e refl, inl (rw e refl, refl))
      | inr e ↦ elim (Bool-cases (is_negative settings.enter)) [
        | inl f ↦ (none, rw (e, f) refl, inl (rw (e, f) refl, refl))
        | inr f ↦
            let (read, t, r) =
              read_elements_lem (read_setting gives memory) IsSetting no_weight Anything repo_names
                setting_after 0 settings.elements none
                (λ n k s csv j i. setting_lem gives memory k n s csv p j) g tt in
            let (other, t', r') =
              read_elements-fails (read_setting gives memory) IsSetting setting_fails
                (λ n s csv j. setting-fails gives memory n s csv p j) settings.elements none g in
            (
              csv_read settings.last read,
              rw (e, f, t, ◌>>=◌) refl,
              ended read r
                  (subst (λ z. is_negative z.0 ≡ any setting_fails settings.elements)
                    (ok_inj (sym t' ∙ t)) r')
                  (rw (e, f) refl),
            )
      ]
    ]
  where
    ended :
        (read : Read (Option Str))
        → (is_negative read.0 ≡ false
            → Unit {0} × (repo_names read.1 ≡ fold setting_after settings.elements []))
        → is_negative read.0 ≡ any setting_fails settings.elements
        → configuration_fails answer settings
          ≡ (any setting_fails settings.elements || is_negative settings.last)
        → IsConfigured answer settings (csv_read settings.last read)
    ended (r, csv) h same_sign whole = elim (Bool-cases (is_negative r)) [
      | inl e ↦
          let failed = ap (λ b. b || is_negative settings.last) (sym same_sign ∙ e) in
          inl (whole ∙ failed, rw e refl)
      | inr e ↦
          let last = ap (λ b. b || is_negative settings.last) (sym same_sign ∙ e) in
          elim (Bool-cases (is_negative settings.last)) [
            | inl f ↦ inl (whole ∙ last ∙ f, rw (e, f) refl)
            | inr f ↦ inr (whole ∙ last ∙ f, rw (e, f) (h e).1)
          ]
    ]
