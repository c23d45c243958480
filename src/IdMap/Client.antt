-- ===== src/IdMap/Client.antt =====
-- `id_map_build_from_packages`: the last version listed for an id wins.
use linyaps_store.Base.{
  ℕ, ◌+◌, ◌≤◌, ◌<◌, ◌^◌, ◌≡◌, refl, none, some, Option, List, [], ◌∷◌, Bool, true, false, ok,
  Returns, Str, arith, length, if◌then◌else◌, ◌⊎◌, IsPlenty, Allocator, same, strcmp, ap,
  Option-cases, inl, inr, ◌∙◌,
}
use mathlib.Core.Option.{or_else}
use linyaps_store.Types.{PackageInfo}
use linyaps_store.IdMap.{
  IdMap, get, copy_value, insert, insert_packages, build_from_packages, needs_growth, new_capacity,
  entry_size,
}
use linyaps_store.IdMap.Valid.{IsValid, entry, value_of, capacity-le, clear-IsValidMap, get-entry}
use linyaps_store.IdMap.Insert.{insert-InsertedMap}

abbrev own_version : Option Str → Option Str → Str → Option Str
own_version none v q = none
own_version (some id) v q = if same id q then v else none

-- The version of the last package of the list that has this id and a version.
unfoldable pub last_version : Str → List (Option PackageInfo) → Option Str
last_version q [] = none
last_version q (none ∷ list) = last_version q list
last_version q (some p ∷ list) = or_else (last_version q list) (own_version p.id p.version q)

growth_fits :
    (a : Allocator) (s : IdMap)
    → IsPlenty a
    → s.count < 2 ^ 58
    → IsValid s
    → needs_growth s ≡ true
    → a.calloc (new_capacity s) entry_size ≡ true
unfolding needs_growth new_capacity
growth_fits a s plenty small h grow =
    plenty.array (new_capacity s) entry_size (ground (arith, capacity-le s h))

-- What the loop has made of the map `m` from the packages that are left.
record Gathered (m : IdMap) (list : List (Option PackageInfo)) (r : IdMap) : Type 0 where
  valid : IsValid r
  few : r.count ≤ m.count + length list
  reads :
      (c : ℕ) (q : Str)
      → value_of (entry r (c ∷ q))
        ≡ or_else (last_version (c ∷ q) list) (value_of (entry m (c ∷ q)))

insert_one :
    (a : Allocator) (m : IdMap) (id v : Str)
    → IsPlenty a
    → IsValid m
    → m.count < 2 ^ 58
    → Returns (insert a m (some id) (some v)) λ r.
      IsValid r.1
      × (r.1.count ≤ m.count + 1)
      × ((c : ℕ) (q : Str)
          → value_of (entry r.1 (c ∷ q))
            ≡ (if same id (c ∷ q) then some v else value_of (entry m (c ∷ q))))
unfolding insert same strcmp copy_value
insert_one a m [] v plenty h small = ((false, m), refl, (h, omega arith, λ c q. ground arith))
insert_one a m (d ∷ id) v plenty h small =
    let (r, run, i) =
      insert-InsertedMap a m d id (some v) h (growth_fits a m plenty small h)
        (plenty.copy 0 (d ∷ id)) in
    (
      r,
      run,
      (i.valid, ground (arith, i.counted), λ c q. ground (arith, i.reads (c ∷ q), plenty.copy 1 v)),
    )

skip_package :
    (a : ℕ → Allocator) (i : ℕ) (m : IdMap) (p : PackageInfo) (list : List (Option PackageInfo))
    → (p.id ≡ none) ⊎ (p.version ≡ none)
    → insert_packages a i m (some p ∷ list) ≡ insert_packages a (i + 1) m list
unfolding insert_packages
skip_package a i m p list e = ground arith

insert_package :
    (a : ℕ → Allocator) (i : ℕ) (m : IdMap) (p : PackageInfo) (list : List (Option PackageInfo))
    (id v : Str) (r : Bool × IdMap)
    → p.id ≡ some id
    → p.version ≡ some v
    → insert (a i) m (some id) (some v) ≡ ok r
    → insert_packages a i m (some p ∷ list) ≡ insert_packages a (i + 1) r.1 list
unfolding insert_packages
insert_package a i m p list id v r e e' run = ground arith

usable :
    (p : PackageInfo)
    → (p.id ≡ none)
      ⊎ (p.version ≡ none)
      ⊎ ((id : Str) × (v : Str) × (p.id ≡ some id) × (p.version ≡ some v))
usable p = elim (Option-cases p.id) [
  | inl e ↦ inl e
  | inr (id, e) ↦ elim (Option-cases p.version) [
    | inl e' ↦ inr (inl e')
    | inr (v, e') ↦ inr (inr (id, v, e, e'))
  ]
]

unlisted :
    (p : PackageInfo) (q : Str)
    → (p.id ≡ none) ⊎ (p.version ≡ none)
    → own_version p.id p.version q ≡ none
unlisted p q (inl e) = rw e
unlisted p q (inr e) = ground arith

Gathered-skip :
    (m : IdMap) (p : PackageInfo) (list : List (Option PackageInfo)) (r : IdMap)
    → (p.id ≡ none) ⊎ (p.version ≡ none)
    → Gathered m list r
    → Gathered m (some p ∷ list) r
unfolding last_version or_else
Gathered-skip m p list r e g = record {
  valid = g.valid;
  few = omega (arith, g.few);
  reads = λ c q. ground (arith, g.reads c q, unlisted p (c ∷ q) e);
}

insert_packages-Gathered :
    (a : ℕ → Allocator) (i : ℕ) (m : IdMap) (list : List (Option PackageInfo))
    → ((j : ℕ) → IsPlenty (a j))
    → IsValid m
    → m.count + length list ≤ 2 ^ 58
    → Returns (insert_packages a i m list) (Gathered m list)
unfolding insert_packages last_version or_else
insert_packages-Gathered a i m [] plenty h small =
    (m, refl, record { valid = h; few = omega arith; reads = λ c q. refl })
insert_packages-Gathered a i m (none ∷ list) plenty h small =
    let (r, run, g) = insert_packages-Gathered a (i + 1) m list plenty h (omega arith) in
    (r, run, record { valid = g.valid; few = omega (arith, g.few); reads = g.reads })
insert_packages-Gathered a i m (some p ∷ list) plenty h small =
    let (r, run, g) = insert_packages-Gathered a (i + 1) m list plenty h (omega arith) in
    elim (usable p) [
      | inl e ↦ (r, skip_package a i m p list (inl e) ∙ run, Gathered-skip m p list r (inl e) g)
      | inr (inl e) ↦
          (r, skip_package a i m p list (inr e) ∙ run, Gathered-skip m p list r (inr e) g)
      | inr (inr (id, v, e, e')) ↦
          let (s, step, (valid, few, reads)) = insert_one (a i) m id v (plenty i) h (omega arith) in
          let (r', run', g') =
            insert_packages-Gathered a (i + 1) s.1 list plenty valid (omega arith) in
          (
            r',
            insert_package a i m p list id v s e e' step ∙ run',
            record {
              valid = g'.valid;
              few = omega (arith, g'.few);
              reads = λ c q. ground (arith, g'.reads c q, reads c q);
            },
          )
    ]

-- With memory, `id_map_build_from_packages` on a valid map and at most 2 ^ 58 packages ends with a
-- valid map, whatever the map held before: looking a non-empty id up gives the version of the last
-- package that has this id and a version, or NULL if there is none, and at most one key is counted
-- for each package.
pub build-last_version :
    (a : ℕ → Allocator) (m : IdMap) (list : List (Option PackageInfo))
    → ((j : ℕ) → IsPlenty (a j))
    → IsValid m
    → length list ≤ 2 ^ 58
    → Returns (build_from_packages a m list) λ r.
      IsValid r
      × (r.count ≤ length list)
      × ((c : ℕ) (q : Str) → get r (some (c ∷ q)) ≡ ok (last_version (c ∷ q) list))
unfolding build_from_packages or_else
build-last_version a m list plenty h small =
    let (m', run, (valid, none_left, _, empty)) = clear-IsValidMap m h in
    let (r, run', g) =
      insert_packages-Gathered a 0 m' list plenty valid (omega (arith, none_left)) in
    (
      r,
      rw run run',
      (
        g.valid,
        omega (arith, g.few, none_left),
        λ c q. get-entry r (c ∷ q) g.valid ∙ ap ok (ground (arith, g.reads c q, empty (c ∷ q))),
      ),
    )
