-- ===== src/IdSet/Client.antt =====
-- `id_set_build_from_packages`: a loop of insertions after a clear.
use linyaps_store.Base.{
  ℕ, ◌+◌, ◌≤◌, ◌<◌, ◌^◌, ◌≡◌, refl, none, some, Option, List, [], ◌∷◌, Bool, true, false, ◌||◌, ok,
  Returns, Str, arith, length, Allocator, IsPlenty, same, strcmp, ap, Option-cases, inl, inr, ◌∙◌,
}
use linyaps_store.Types.{PackageInfo}
use linyaps_store.IdSet.{
  IdSet, contains, insert, insert_packages, build_from_packages, needs_growth, new_capacity,
  pointer_size,
}
use linyaps_store.IdSet.Valid.{IsValid, has, has-nil, capacity-le, clear-IsValid, contains-has}
use linyaps_store.IdSet.Insert.{insert-Inserted}

abbrev is_id : Option Str → Str → Bool
is_id none q = false
is_id (some id) q = same id q

-- Whether some package of the list has this id.
unfoldable pub listed : Str → List (Option PackageInfo) → Bool
listed q [] = false
listed q (none ∷ list) = listed q list
listed q (some p ∷ list) = is_id p.id q || listed q list

growth_fits :
    (a : Allocator) (s : IdSet)
    → IsPlenty a
    → s.count < 2 ^ 58
    → IsValid s
    → needs_growth s ≡ true
    → a.calloc (new_capacity s) pointer_size ≡ true
unfolding needs_growth new_capacity
growth_fits a s plenty small h grow =
    plenty.array (new_capacity s) pointer_size (ground (arith, capacity-le s h))

-- What the loop has made of the set `s` from the packages that are left.
record Gathered (s : IdSet) (list : List (Option PackageInfo)) (r : IdSet) : Type 0 where
  valid : IsValid r
  few : r.count ≤ s.count + length list
  reads : (c : ℕ) (q : Str) → has r (c ∷ q) ≡ (has s (c ∷ q) || listed (c ∷ q) list)

insert_one :
    (a : Allocator) (s : IdSet) (id : Str)
    → IsPlenty a
    → IsValid s
    → s.count < 2 ^ 58
    → Returns (insert a s (some id)) λ r.
      IsValid r.1
      × (r.1.count ≤ s.count + 1)
      × ((c : ℕ) (q : Str) → has r.1 (c ∷ q) ≡ (has s (c ∷ q) || same id (c ∷ q)))
unfolding insert same strcmp
insert_one a s [] plenty h small = ((false, s), refl, (h, omega arith, λ c q. ground arith))
insert_one a s (d ∷ id) plenty h small =
    let (r, run, i) =
      insert-Inserted a s d id h (growth_fits a s plenty small h) (plenty.copy 0 (d ∷ id)) in
    (r, run, (i.valid, ground (arith, i.counted), λ c q. ground (arith, i.reads (c ∷ q))))

skip_unnamed :
    (a : ℕ → Allocator) (i : ℕ) (s : IdSet) (p : PackageInfo) (list : List (Option PackageInfo))
    → p.id ≡ none
    → insert_packages a i s (some p ∷ list) ≡ insert_packages a (i + 1) s list
unfolding insert_packages
skip_unnamed a i s p list e = rw (e, insert_packages)

insert_named :
    (a : ℕ → Allocator) (i : ℕ) (s : IdSet) (p : PackageInfo) (list : List (Option PackageInfo))
    (id : Str) (r : Bool × IdSet)
    → p.id ≡ some id
    → insert (a i) s (some id) ≡ ok r
    → insert_packages a i s (some p ∷ list) ≡ insert_packages a (i + 1) r.1 list
unfolding insert_packages
insert_named a i s p list id r e run = ground arith

insert_packages-Gathered :
    (a : ℕ → Allocator) (i : ℕ) (s : IdSet) (list : List (Option PackageInfo))
    → ((j : ℕ) → IsPlenty (a j))
    → IsValid s
    → s.count + length list ≤ 2 ^ 58
    → Returns (insert_packages a i s list) (Gathered s list)
unfolding insert_packages listed
insert_packages-Gathered a i s [] plenty h small =
    (s, refl, record { valid = h; few = omega arith; reads = λ c q. ground arith })
insert_packages-Gathered a i s (none ∷ list) plenty h small =
    let (r, run, g) = insert_packages-Gathered a (i + 1) s list plenty h (omega arith) in
    (r, run, record { valid = g.valid; few = omega (arith, g.few); reads = g.reads })
insert_packages-Gathered a i s (some p ∷ list) plenty h small = elim (Option-cases p.id) [
  | inl e ↦
      let (r, run, g) = insert_packages-Gathered a (i + 1) s list plenty h (omega arith) in
      (
        r,
        skip_unnamed a i s p list e ∙ run,
        record {
          valid = g.valid;
          few = omega (arith, g.few);
          reads = λ c q. ground (arith, g.reads c q);
        },
      )
  | inr (id, e) ↦
      let (r, run, (valid, few, reads)) = insert_one (a i) s id (plenty i) h (omega arith) in
      let (r', run', g) = insert_packages-Gathered a (i + 1) r.1 list plenty valid (omega arith) in
      (
        r',
        insert_named a i s p list id r e run ∙ run',
        record {
          valid = g.valid;
          few = omega (arith, g.few);
          reads = λ c q. ground (arith, g.reads c q, reads c q);
        },
      )
]

-- With memory, `id_set_build_from_packages` on a valid set and at most 2 ^ 58 packages ends with a
-- valid set that holds exactly the non-empty ids of the packages, whatever the set held before, and
-- counts at most one for each package.
pub build-listed :
    (a : ℕ → Allocator) (s : IdSet) (list : List (Option PackageInfo))
    → ((j : ℕ) → IsPlenty (a j))
    → IsValid s
    → length list ≤ 2 ^ 58
    → Returns (build_from_packages a s list) λ r.
      IsValid r
      × (r.count ≤ length list)
      × (contains r (some []) ≡ ok false)
      × ((c : ℕ) (q : Str) → contains r (some (c ∷ q)) ≡ ok (listed (c ∷ q) list))
unfolding build_from_packages
build-listed a s list plenty h small =
    let (s', run, (valid, none_left, _, empty)) = clear-IsValid s h in
    let (r, run', g) =
      insert_packages-Gathered a 0 s' list plenty valid (omega (arith, none_left)) in
    (
      r,
      rw run run',
      (
        g.valid,
        omega (arith, g.few, none_left),
        contains-has r [] g.valid ∙ ap ok (has-nil r g.valid),
        λ c q.
            contains-has r (c ∷ q) g.valid
            ∙ ap ok (g.reads c q ∙ ap (λ b. b || listed (c ∷ q) list) (empty (c ∷ q))),
      ),
    )
