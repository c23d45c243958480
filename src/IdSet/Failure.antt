-- ===== src/IdSet/Failure.antt =====
-- `id_set_insert` when there is no memory for a larger array.
use linyaps_store.Base.{
  ℕ, ◌≤◌, ◌≡◌, refl, none, some, ◌∷◌, true, false, fault, null_pointer, Returns, Str, arith,
  Allocator, ◌^◌,
}
use linyaps_store.Slots.{fnv1a}
use linyaps_store.Slots.Lookup.{mod_size_pos}
use linyaps_store.IdSet.{
  IdSet, key_slot, rehash, needs_growth, new_capacity, place, insert, pointer_size,
}
use linyaps_store.IdSet.Valid.{IsValid, make}
use linyaps_store.IdSet.Insert.{new_capacity-ge}

lost :
    (a : Allocator) (cap n c : ℕ) (k : Str)
    → 16 ≤ cap
    → cap ≤ 2 ^ 62
    → n ≡ 0
    → insert a (make none cap n) (some (c ∷ k)) ≡ fault null_pointer
unfolding insert needs_growth place
lost a cap n c k lo hi z = ground (arith, mod_size_pos (fnv1a (c ∷ k)) cap)

-- When a valid set wants a larger array and `calloc` refuses it, `id_set_insert` of a non-empty key
-- returns false, but the set that it leaves makes the next insertion of a non-empty key read
-- through a NULL array.
pub insert-fault_after_failed_growth :
    (a : Allocator) (s : IdSet) (c : ℕ) (k : Str)
    → IsValid s
    → needs_growth s ≡ true
    → a.calloc (new_capacity s) pointer_size ≡ false
    → Returns (insert a s (some (c ∷ k))) λ r.
      (r.0 ≡ false)
      × ((b : Allocator) (d : ℕ) (m : Str) → insert b r.1 (some (d ∷ m)) ≡ fault null_pointer)
unfolding insert rehash
insert-fault_after_failed_growth a s c k h grow refused = (
  (false, make none (new_capacity s) 0),
  rw (grow, refused),
  (
    refl,
    λ b d m.
        let (lo, _, hi) = new_capacity-ge s.keys s.capacity s.count h in
        lost b (new_capacity s) 0 d m lo hi refl,
  ),
)
