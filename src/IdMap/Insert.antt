-- ===== src/IdMap/Insert.antt =====
-- `id_map_insert`: growth, and what an insertion does to the contents when memory is there.
use linyaps_store.Base.{
  ℕ, ◌+◌, ◌*◌, ◌≤◌, ◌<◌, ◌≡◌, ◌≢◌, refl, none, some, Option, List, [], ◌∷◌, Bool, true, false, not,
  ◌||◌, ok, ◌>>=◌, Returns, Str, arith, length, add_size, Allocator, same, same_iff, Bool-cases,
  inl, inr, if◌then◌else◌, ◌^◌, set, replicate, ◌∙◌, ap,
}
use linyaps_store.Slots.{Probe, fnv1a, find_key, hit, vacant, move, old_slots}
use linyaps_store.Slots.Scan.{scan, scan-none, one_if}
use linyaps_store.Slots.Table.{
  IsTable, replicate-IsTable, room_left, move-Rehashed, old_slots-length, put-IsTable,
  replace-IsTable,
}
use linyaps_store.Slots.Move.{occurrences-replicate}
use linyaps_store.Slots.Lookup.{find_key-Finds, mod_size_pos, Finds, is_hit, is_miss}
use linyaps_store.Slots.Write.{scan-set_free, scan-set_hit}
use linyaps_store.Slots.Chain.{home}
use linyaps_store.IdMap.{
  IdMap, Entry, entry_slot, free_entry, copy_value, rehash, needs_growth, new_capacity, place,
  insert, entry_size,
}
use linyaps_store.IdMap.Valid.{Allocated, IsValid, is_some, value_of, entry, make}

-- `rehash` of a table to a larger array that `calloc` has given keeps the contents.
rehash-IsTable :
    (a : Allocator) (t : List Entry) (cap n new_cap : ℕ)
    → IsTable cap n t
    → a.calloc new_cap entry_size ≡ true
    → cap ≤ new_cap
    → Returns (rehash a (make (some t) cap n) new_cap) λ r.
      (t' : List Entry) × (r ≡ make (some t') new_cap n)
      × IsTable new_cap n t'
      × ((q : Str) → scan t' q ≡ scan t q)
unfolding rehash
rehash-IsTable a t cap n new_cap h got grows =
    let (r, run, m) =
      move-Rehashed free_entry cap new_cap n t refl h grows
        (omega (arith, a.calloc_fits new_cap entry_size got)) in
    (
      make (some r.0) new_cap r.1,
      rw (got, old_slots-length t cap h.sound.width, ◌>>=◌, run),
      (r.0, ap (make (some r.0) new_cap) m.kept, m.table, m.reads),
    )

-- What an insertion of `v` under `k` into `m` returns and leaves.
pub record Inserted (a : Allocator) (m : IdMap) (k : Str) (v : Option Str) (r : Bool × IdMap)
    : Type 0 where
  pub valid : IsValid r.1
  pub done : r.0 ≡ true
  pub counted : r.1.count ≡ m.count + one_if (not (is_some (entry m k)))
  pub present : (q : Str) → is_some (entry r.1 q) ≡ (same k q || is_some (entry m q))
  pub reads :
      (q : Str)
      → value_of (entry r.1 q) ≡ (if same k q then copy_value a v else value_of (entry m q))

module _ (a : Allocator) (t : List Entry) (cap n : ℕ) (k : Str) (v : Option Str)
    (h : IsTable cap n t) (room : (n + 1) * 4 ≤ cap * 3) (named : k ≢ []) where
  place_found :
      (p : Probe)
      → find_key cap cap t k (home k cap) ≡ ok p
      → Finds cap t k p
      → a.strdup 0 k ≡ true
      → Returns (place a (make (some t) cap n) k v) (Inserted a (make (some t) cap n) k v)
  unfolding place entry
  place_found (hit r) run (is_hit _ f) copied =
      let e : Entry = record { key = f.found.key; value = copy_value a v } in
      let reads = λ (q : Str). scan-set_hit e k f.same_key q t r f.key_there (h.sound.once k) in
      (
        (true, make (some (set t r e)) cap n),
        rw (mod_size_pos (fnv1a k) cap (omega (arith, h.roomy)), ◌>>=◌, run, f.at_index),
        record {
          valid = replace-IsTable cap n t e k f.same_key h r f.key_there named;
          done = refl;
          counted = rw f.scanned (omega arith);
          present =
              λ q. ground (arith, reads q, same_iff k q, f.scanned, ap (scan t) {x = k} {y = q});
          reads = λ q. ground (arith, reads q);
        },
      )
  place_found (vacant r) run (is_miss _ f) copied =
      let lt : r < length t = omega (arith, h.sound.width, f.landing.within) in
      let small = h.sound.small in
      let e : Entry = record { key = some k; value = copy_value a v } in
      let reads = λ (q : Str). scan-set_free e k refl q t r lt f.landing.free f.absent in
      let next_count : add_size n 1 ≡ n + 1 = omega arith in
      (
        (true, make (some (set t r e)) cap (n + 1)),
        rw (mod_size_pos (fnv1a k) cap (omega (arith, h.roomy)), ◌>>=◌, run, copied, next_count),
        record {
          valid = put-IsTable cap n t e k refl h r f room named;
          done = refl;
          counted = rw (scan-none k t f.absent);
          present = λ q. ground (arith, reads q);
          reads = λ q. ground (arith, reads q);
        },
      )

  place_lem :
      a.strdup 0 k ≡ true
      → Returns (place a (make (some t) cap n) k v) (Inserted a (make (some t) cap n) k v)
  place_lem copied =
      let (p, run, found) = find_key-Finds cap t k h.sound (room_left h) in
      place_found p run found copied

-- Growth as `id_map_insert` asks for it: room for one more key, and the same contents.
record Grown (s : IdMap) (t : List Entry) (cap : ℕ) : Type 0 where
  table : IsTable cap s.count t
  room : (s.count + 1) * 4 ≤ cap * 3
  reads : (q : Str) → scan t q ≡ entry s q

module _ (a : Allocator) (new_cap : ℕ) (got : a.calloc new_cap entry_size ≡ true)
    (lo : 16 ≤ new_cap) where
  grow_make :
      (p : Option (List Entry)) (cap n : ℕ)
      → Allocated p cap n
      → cap * 2 ≤ new_cap
      → (t : List Entry) × (rehash a (make p cap n) new_cap ≡ ok (make (some t) new_cap n))
        × Grown (make p cap n) t new_cap
  unfolding rehash old_slots move entry
  grow_make none cap n h grows =
      let fresh = replicate new_cap free_entry in
      (
        fresh,
        rw (got, h.0, h.1),
        record {
          table = rw h.1 (
              replicate-IsTable free_entry new_cap refl lo
                (omega (arith, a.calloc_fits new_cap entry_size got)));
          room = omega arith;
          reads = λ q. rw (scan-none q fresh (occurrences-replicate free_entry refl q new_cap));
        },
      )
  grow_make (some t) cap n h grows =
      let (r, run, (t', e, h', reads)) = rehash-IsTable a t cap n new_cap h got (omega arith) in
      (
        t',
        run ∙ ap ok e,
        record { table = h'; room = omega (arith, h.loaded, h.roomy); reads = reads },
      )

new_capacity-ge :
    (p : Option (List Entry)) (cap n : ℕ)
    → Allocated p cap n
    → (16 ≤ new_capacity (make p cap n))
      × (cap * 2 ≤ new_capacity (make p cap n))
      × (new_capacity (make p cap n) ≤ 2 ^ 62)
unfolding new_capacity
new_capacity-ge none cap n h = ground arith
new_capacity-ge (some t) cap n h = let small = h.sound.small in ground (arith, h.roomy)

has_room :
    (t : List Entry) (cap n : ℕ)
    → IsTable cap n t
    → needs_growth (make (some t) cap n) ≡ false
    → (n + 1) * 4 ≤ cap * 3
unfolding needs_growth
has_room t cap n h e = let small = h.sound.small in ground (arith, h.loaded)

grows_empty : (cap n : ℕ) → cap ≡ 0 → needs_growth (make none cap n) ≡ true
unfolding needs_growth
grows_empty cap n e = rw e

-- An insertion into the grown table is one into the map.
Inserted-Grown :
    (a : Allocator) (s : IdMap) (t : List Entry) (cap : ℕ) (k : Str) (v : Option Str)
    (r : Bool × IdMap)
    → Grown s t cap
    → Inserted a (make (some t) cap s.count) k v r
    → Inserted a s k v r
unfolding entry
Inserted-Grown a s t cap k v r g i = record {
  valid = i.valid;
  done = i.done;
  counted = i.counted ∙ ap (λ e. s.count + one_if (not (is_some e))) (g.reads k);
  present = λ q. i.present q ∙ ap (λ e. same k q || is_some e) (g.reads q);
  reads = λ q. i.reads q ∙ ap (λ e. if same k q then copy_value a v else value_of e) (g.reads q);
}

insert_stay :
    (a : Allocator) (p : Option (List Entry)) (cap n c : ℕ) (k : Str) (v : Option Str)
    → Allocated p cap n
    → needs_growth (make p cap n) ≡ false
    → (t : List Entry) × (insert a (make p cap n) (some (c ∷ k)) v
        ≡ place a (make (some t) cap n) (c ∷ k) v)
      × Grown (make p cap n) t cap
unfolding insert entry
insert_stay a none cap n c k v h stay = cc (grows_empty cap n h.0, stay)
insert_stay a (some t) cap n c k v h stay =
    (t, rw stay, record { table = h; room = has_room t cap n h stay; reads = λ q. refl })

-- An insertion comes down to the probing loop on a table with room for one more key.
reduce :
    (a : Allocator) (p : Option (List Entry)) (cap n c : ℕ) (k : Str) (v : Option Str)
    → Allocated p cap n
    → (needs_growth (make p cap n) ≡ true
        → a.calloc (new_capacity (make p cap n)) entry_size ≡ true)
    → (t : List Entry) × (cap' : ℕ) × (insert a (make p cap n) (some (c ∷ k)) v
        ≡ place a (make (some t) cap' n) (c ∷ k) v)
      × Grown (make p cap n) t cap'
unfolding insert
reduce a p cap n c k v h got = elim (Bool-cases (needs_growth (make p cap n))) [
  | inl grow ↦
      let (lo, grows, _) = new_capacity-ge p cap n h in
      let (t, run, g) = grow_make a (new_capacity (make p cap n)) (got grow) lo p cap n h grows in
      (t, new_capacity (make p cap n), rw (grow, run), g)
  | inr stay ↦ let (t, e, g) = insert_stay a p cap n c k v h stay in (t, cap, e, g)
]

-- With memory for a larger array, if one is wanted, and for the key's copy, `id_map_insert` under a
-- non-empty key into a valid map ends and faults nowhere, leaves a valid map, returns true, counts
-- the key if it is new, stores the copy of the value under it, and changes no other key.
pub insert-InsertedMap :
    (a : Allocator) (m : IdMap) (c : ℕ) (k : Str) (v : Option Str)
    → IsValid m
    → (needs_growth m ≡ true → a.calloc (new_capacity m) entry_size ≡ true)
    → a.strdup 0 (c ∷ k) ≡ true
    → Returns (insert a m (some (c ∷ k)) v) (Inserted a m (c ∷ k) v)
insert-InsertedMap a m c k v h got copied =
    let (t, cap, e, g) = reduce a m.entries m.capacity m.count c k v h got in
    let (r, run, i) = place_lem a t cap m.count (c ∷ k) v g.table g.room (λ e. cc) copied in
    (r, e ∙ run, Inserted-Grown a m t cap (c ∷ k) v r g i)
