-- ===== src/IdSet/Insert.antt =====
-- `id_set_insert`: growth, and what an insertion does to the contents when memory is there.
use linyaps_store.Base.{
  ℕ, ◌+◌, ◌*◌, ◌≤◌, ◌<◌, ◌≡◌, ◌≢◌, refl, none, some, Option, List, [], ◌∷◌, Bool, true, false, not,
  ◌||◌, ok, ◌>>=◌, Run, Returns, Str, arith, length, add_size, Allocator, same, same_iff,
  Bool-cases, inl, inr, if◌then◌else◌, ◌^◌, set, replicate, ◌∙◌, ap,
}
use linyaps_store.Slots.{Probe, fnv1a, find_key, hit, vacant, move, old_slots}
use linyaps_store.Slots.Scan.{scan, scan-none, one_if}
use linyaps_store.Slots.Table.{
  IsTable, replicate-IsTable, room_left, move-Rehashed, old_slots-length, put-IsTable,
}
use linyaps_store.Slots.Move.{occurrences-replicate}
use linyaps_store.Slots.Lookup.{find_key-Finds, mod_size_pos, Finds, is_hit, is_miss}
use linyaps_store.Slots.Write.{scan-set_free}
use linyaps_store.Slots.Chain.{home}
use linyaps_store.IdSet.{
  IdSet, key_slot, rehash, needs_growth, new_capacity, place, insert, pointer_size,
}
use linyaps_store.IdSet.Valid.{Allocated, IsValid, is_some, has, make}

-- `rehash` of a table to a larger array that `calloc` has given keeps the contents.
rehash-IsTable :
    (a : Allocator) (t : List (Option Str)) (cap n new_cap : ℕ)
    → IsTable cap n t
    → a.calloc new_cap pointer_size ≡ true
    → cap ≤ new_cap
    → Returns (rehash a (make (some t) cap n) new_cap) λ r.
      (t' : List (Option Str)) × (r ≡ make (some t') new_cap n)
      × IsTable new_cap n t'
      × ((q : Str) → scan t' q ≡ scan t q)
unfolding rehash
rehash-IsTable a t cap n new_cap h got grows =
    let (r, run, m) =
      move-Rehashed none cap new_cap n t refl h grows
        (omega (arith, a.calloc_fits new_cap pointer_size got)) in
    (
      make (some r.0) new_cap r.1,
      rw (got, old_slots-length t cap h.sound.width, ◌>>=◌, run),
      (r.0, ap (make (some r.0) new_cap) m.kept, m.table, m.reads),
    )

-- What an insertion of `k` into `s` returns and leaves.
pub record Inserted (s : IdSet) (k : Str) (r : Bool × IdSet) : Type 0 where
  pub valid : IsValid r.1
  pub fresh : r.0 ≡ not (has s k)
  pub counted : r.1.count ≡ s.count + one_if r.0
  pub reads : (q : Str) → has r.1 q ≡ (same k q || has s q)

module _ (a : Allocator) (t : List (Option Str)) (cap n : ℕ) (k : Str) (h : IsTable cap n t)
    (room : (n + 1) * 4 ≤ cap * 3) (named : k ≢ []) where
  place_found :
      (p : Probe)
      → find_key cap cap t k (home k cap) ≡ ok p
      → Finds cap t k p
      → a.strdup 0 k ≡ true
      → Returns (place a (make (some t) cap n) k) (Inserted (make (some t) cap n) k)
  unfolding place has
  place_found (hit r) run (is_hit _ f) copied = (
    (false, make (some t) cap n),
    rw (mod_size_pos (fnv1a k) cap (omega (arith, h.roomy)), run),
    record {
      valid = h;
      fresh = rw f.scanned;
      counted = omega arith;
      reads = λ q. ground (arith, same_iff k q, f.scanned, ap (scan t) {x = k} {y = q});
    },
  )
  place_found (vacant r) run (is_miss _ f) copied =
      let lt : r < length t = omega (arith, h.sound.width, f.landing.within) in
      let small = h.sound.small in
      let next_count : add_size n 1 ≡ n + 1 = omega arith in
      (
        (true, make (some (set t r (some k))) cap (n + 1)),
        rw (mod_size_pos (fnv1a k) cap (omega (arith, h.roomy)), ◌>>=◌, run, copied, next_count),
        record {
          valid = put-IsTable cap n t (some k) k refl h r f room named;
          fresh = rw (scan-none k t f.absent);
          counted = refl;
          reads =
              λ q. ground (arith, scan-set_free (some k) k refl q t r lt f.landing.free f.absent);
        },
      )

  place_lem :
      a.strdup 0 k ≡ true
      → Returns (place a (make (some t) cap n) k) (Inserted (make (some t) cap n) k)
  place_lem copied =
      let (p, run, found) = find_key-Finds cap t k h.sound (room_left h) in
      place_found p run found copied

  -- With no memory for the copy the slot stays free.
  place_no_copy :
      a.strdup 0 k ≡ false → place a (make (some t) cap n) k ≡ ok (false, make (some t) cap n)
  unfolding place
  place_no_copy refused =
      let (p, run, found) = find_key-Finds cap t k h.sound (room_left h) in
      rw (mod_size_pos (fnv1a k) cap (omega (arith, h.roomy)), ◌>>=◌, run) (same_end p)
    where
      same_end :
          (p : Probe)
          → ◌≡◌ {A = Run (Bool × IdSet)}
              (elim p [
                | hit r ↦ ok (false, make (some t) cap n)
                | vacant r ↦
                    if a.strdup 0 k
                    then ok (
                      true,
                      record {
                        keys = some (set t r (some k));
                        capacity = cap;
                        count = add_size n 1;
                      },
                    )
                    else ok (false, make (some t) cap n)
              ])
              (ok (false, make (some t) cap n))
      same_end (hit r) = refl
      same_end (vacant r) = rw refused

-- Growth as `id_set_insert` asks for it: room for one more key, and the same contents.
record Grown (s : IdSet) (t : List (Option Str)) (cap : ℕ) : Type 0 where
  table : IsTable cap s.count t
  room : (s.count + 1) * 4 ≤ cap * 3
  reads : (q : Str) → is_some (scan t q) ≡ has s q

module _ (a : Allocator) (new_cap : ℕ) (got : a.calloc new_cap pointer_size ≡ true)
    (lo : 16 ≤ new_cap) where
  grow_make :
      (p : Option (List (Option Str))) (cap n : ℕ)
      → Allocated p cap n
      → cap * 2 ≤ new_cap
      → (t : List (Option Str)) × (rehash a (make p cap n) new_cap ≡ ok (make (some t) new_cap n))
        × Grown (make p cap n) t new_cap
  unfolding rehash old_slots move has
  grow_make none cap n h grows =
      let fresh = replicate new_cap none in
      (
        fresh,
        rw (got, h.0, h.1),
        record {
          table = rw h.1 (
              replicate-IsTable none new_cap refl lo
                (omega (arith, a.calloc_fits new_cap pointer_size got)));
          room = omega arith;
          reads = λ q. rw (scan-none q fresh (occurrences-replicate none refl q new_cap));
        },
      )
  grow_make (some t) cap n h grows =
      let (r, run, (t', e, h', reads)) = rehash-IsTable a t cap n new_cap h got (omega arith) in
      (
        t',
        run ∙ ap ok e,
        record {
          table = h';
          room = omega (arith, h.loaded, h.roomy);
          reads = λ q. ap is_some (reads q);
        },
      )

pub new_capacity-ge :
    (p : Option (List (Option Str))) (cap n : ℕ)
    → Allocated p cap n
    → (16 ≤ new_capacity (make p cap n))
      × (cap * 2 ≤ new_capacity (make p cap n))
      × (new_capacity (make p cap n) ≤ 2 ^ 62)
unfolding new_capacity
new_capacity-ge none cap n h = ground arith
new_capacity-ge (some t) cap n h = let small = h.sound.small in ground (arith, h.roomy)

has_room :
    (t : List (Option Str)) (cap n : ℕ)
    → IsTable cap n t
    → needs_growth (make (some t) cap n) ≡ false
    → (n + 1) * 4 ≤ cap * 3
unfolding needs_growth
has_room t cap n h e = let small = h.sound.small in ground (arith, h.loaded)

grows_empty : (cap n : ℕ) → cap ≡ 0 → needs_growth (make none cap n) ≡ true
unfolding needs_growth
grows_empty cap n e = rw e

-- An insertion into the grown table is one into the set.
Inserted-Grown :
    (s : IdSet) (t : List (Option Str)) (cap : ℕ) (k : Str) (r : Bool × IdSet)
    → Grown s t cap
    → Inserted (make (some t) cap s.count) k r
    → Inserted s k r
unfolding has
Inserted-Grown s t cap k r g i = record {
  valid = i.valid;
  fresh = i.fresh ∙ ap not (g.reads k);
  counted = i.counted;
  reads = λ q. i.reads q ∙ ap (λ b. same k q || b) (g.reads q);
}

insert_stay :
    (a : Allocator) (p : Option (List (Option Str))) (cap n c : ℕ) (k : Str)
    → Allocated p cap n
    → needs_growth (make p cap n) ≡ false
    → (t : List (Option Str)) × (insert a (make p cap n) (some (c ∷ k))
        ≡ place a (make (some t) cap n) (c ∷ k))
      × Grown (make p cap n) t cap
unfolding insert has
insert_stay a none cap n c k h stay = cc (grows_empty cap n h.0, stay)
insert_stay a (some t) cap n c k h stay =
    (t, rw stay, record { table = h; room = has_room t cap n h stay; reads = λ q. refl })

-- An insertion comes down to the probing loop on a table with room for one more key.
reduce :
    (a : Allocator) (p : Option (List (Option Str))) (cap n c : ℕ) (k : Str)
    → Allocated p cap n
    → (needs_growth (make p cap n) ≡ true
        → a.calloc (new_capacity (make p cap n)) pointer_size ≡ true)
    → (t : List (Option Str)) × (cap' : ℕ) × (insert a (make p cap n) (some (c ∷ k))
        ≡ place a (make (some t) cap' n) (c ∷ k))
      × Grown (make p cap n) t cap'
unfolding insert
reduce a p cap n c k h got = elim (Bool-cases (needs_growth (make p cap n))) [
  | inl grow ↦
      let (lo, grows, _) = new_capacity-ge p cap n h in
      let (t, run, g) = grow_make a (new_capacity (make p cap n)) (got grow) lo p cap n h grows in
      (t, new_capacity (make p cap n), rw (grow, run), g)
  | inr stay ↦ let (t, e, g) = insert_stay a p cap n c k h stay in (t, cap, e, g)
]

module _ (a : Allocator) (s : IdSet) (c : ℕ) (k : Str) (h : IsValid s)
    (got : needs_growth s ≡ true → a.calloc (new_capacity s) pointer_size ≡ true) where
  -- With memory for a larger array, if one is wanted, and for the copy, `id_set_insert` of a
  -- non-empty key into a valid set ends and faults nowhere, leaves a valid set, returns true
  -- exactly if the key is new, counts it then, and adds this key and no other to what the set
  -- holds.
  pub insert-Inserted :
      a.strdup 0 (c ∷ k) ≡ true → Returns (insert a s (some (c ∷ k))) (Inserted s (c ∷ k))
  insert-Inserted copied =
      let (t, cap, e, g) = reduce a s.keys s.capacity s.count c k h got in
      let (r, run, i) = place_lem a t cap s.count (c ∷ k) g.table g.room (λ e. cc) copied in
      (r, e ∙ run, Inserted-Grown s t cap (c ∷ k) r g i)

  -- With memory for a larger array, if one is wanted, but none for the copy, `id_set_insert` of a
  -- non-empty key into a valid set ends and faults nowhere, returns false, and leaves a valid set
  -- that holds and counts what it did.
  pub insert-no_copy :
      a.strdup 0 (c ∷ k) ≡ false
      → Returns (insert a s (some (c ∷ k))) λ r.
        (r.0 ≡ false) × IsValid r.1 × (r.1.count ≡ s.count) × ((q : Str) → has r.1 q ≡ has s q)
  unfolding has
  insert-no_copy refused =
      let (t, cap, e, g) = reduce a s.keys s.capacity s.count c k h got in
      let run = place_no_copy a t cap s.count (c ∷ k) g.table g.room (λ e. cc) refused in
      ((false, make (some t) cap s.count), e ∙ run, (refl, g.table, refl, g.reads))
