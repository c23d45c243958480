-- ===== src/IdSet/Valid.antt =====
-- The invariant of ui/id_set.c, and what a set holds.
use linyaps_store.Base.{
  ℕ, ◌≤◌, ◌≡◌, refl, none, some, Option, List, [], ◌∷◌, Bool, true, false, ok, Returns, Str, arith,
  replicate,
}
use mathlib.Core.Path.{subst}
use linyaps_store.Slots.{Probe, first, wipe, fnv1a, hit, vacant}
use linyaps_store.Slots.Scan.{scan, scan-none}
use linyaps_store.Slots.Move.{occurrences-replicate}
use linyaps_store.Slots.Table.{IsTable, first-length, wipe-length, replicate-IsTable, room_left}
use linyaps_store.Slots.Lookup.{find_key-Finds, mod_size_pos, Finds, is_hit, is_miss}
use linyaps_store.Slots.Chain.{max_slots}
use linyaps_store.IdSet.{IdSet, key_slot, init, free, clear, contains, search_key}

-- No array and nothing counted, or a table.
abbrev pub Allocated : Option (List (Option Str)) → ℕ → ℕ → Type 0
Allocated none cap n = (cap ≡ 0) × (n ≡ 0)
Allocated (some t) cap n = IsTable cap n t

abbrev pub IsValid : IdSet → Type 0
IsValid s = Allocated s.keys s.capacity s.count

abbrev pub is_some {ℓ} : {A : Type ℓ} → Option A → Bool
is_some none = false
is_some (some a) = true

-- Whether a key stands in some slot, read with no hashing.
unfoldable pub has : IdSet → Str → Bool
has s q = elim s.keys [ none ↦ false | some t ↦ is_some (scan t q) ]

abbrev pub make : Option (List (Option Str)) → ℕ → ℕ → IdSet
make p cap n = record { keys = p; capacity = cap; count = n }

pub search_key_lem :
    (t : List (Option Str)) (cap n : ℕ) (k : Str)
    → IsTable cap n t
    → search_key (make (some t) cap n) t k ≡ ok (is_some (scan t k))
unfolding search_key
search_key_lem t cap n k h =
    let (p, run, found) = find_key-Finds cap t k h.sound (room_left h) in
    rw (mod_size_pos (fnv1a k) cap (omega (arith, h.roomy)), run) (answer p found)
  where
    answer :
        (p : Probe)
        → Finds cap t k p
        → ok (elim p [ hit r ↦ true | vacant r ↦ false ]) ≡ ok (is_some (scan t k))
    answer (hit r) (is_hit _ f) = rw f.scanned
    answer (vacant r) (is_miss _ f) = rw (scan-none k t f.absent)

contains-make :
    (p : Option (List (Option Str))) (cap n : ℕ) (k : Str)
    → Allocated p cap n
    → contains (make p cap n) (some k) ≡ ok (has (make p cap n) k)
unfolding contains has
contains-make none cap n k h = refl
contains-make (some t) cap n [] h = rw h.nameless
contains-make (some t) cap n (c ∷ k) h = search_key_lem t cap n (c ∷ k) h

-- `id_set_contains` on a valid set ends, faults nowhere, and answers whether the key stands in
-- some slot.
pub contains-has : (s : IdSet) (k : Str) → IsValid s → contains s (some k) ≡ ok (has s k)
contains-has s k h = contains-make s.keys s.capacity s.count k h

pub init-IsValid : IsValid init × ((q : Str) → has init q ≡ false)
unfolding init has
init-IsValid = ((refl, refl), λ q. refl)

clear-make :
    (p : Option (List (Option Str))) (cap n : ℕ)
    → Allocated p cap n
    → Returns
        (clear (make p cap n))
        λ r. IsValid r × (r.count ≡ 0) × (r.capacity ≡ cap) × ((q : Str) → has r q ≡ false)
unfolding clear has
clear-make none cap n h = (make none cap 0, refl, ((h.0, refl), refl, refl, λ q. refl))
clear-make (some t) cap n h =
    let fresh = replicate cap none in
    let wiped : wipe none cap t ≡ ok fresh =
      subst (λ m. wipe none m t ≡ ok (replicate m none)) h.sound.width (wipe-length none t) in
    (
      make (some fresh) cap 0,
      rw wiped,
      (
        replicate-IsTable none cap refl h.roomy h.sound.small,
        refl,
        refl,
        λ q. rw (scan-none q fresh (occurrences-replicate none refl q cap)),
      ),
    )

-- `id_set_clear` of a valid set ends and faults nowhere, keeps the size of the array, and leaves a
-- valid set that holds and counts nothing.
pub clear-IsValid :
    (s : IdSet)
    → IsValid s
    → Returns
        (clear s)
        λ r. IsValid r × (r.count ≡ 0) × (r.capacity ≡ s.capacity) × ((q : Str) → has r q ≡ false)
clear-IsValid s h = clear-make s.keys s.capacity s.count h

free_make :
    (p : Option (List (Option Str))) (cap n : ℕ) → Allocated p cap n → free (make p cap n) ≡ ok init
unfolding free
free_make none cap n h = refl
free_make (some t) cap n h = rw (subst (λ m. first m t ≡ ok t) h.sound.width (first-length t))

-- `id_set_free` reads the array in bounds, and leaves an initial set.
pub free-IsValid : (s : IdSet) → IsValid s → free s ≡ ok init
free-IsValid s h = free_make s.keys s.capacity s.count h

capacity_make : (p : Option (List (Option Str))) (cap n : ℕ) → Allocated p cap n → cap ≤ max_slots
capacity_make none cap n h = omega arith
capacity_make (some t) cap n h = h.sound.small

pub capacity-le : (s : IdSet) → IsValid s → s.capacity ≤ max_slots
capacity-le s h = capacity_make s.keys s.capacity s.count h

nameless_make :
    (p : Option (List (Option Str))) (cap n : ℕ) → Allocated p cap n → has (make p cap n) [] ≡ false
unfolding has
nameless_make none cap n h = refl
nameless_make (some t) cap n h = rw h.nameless

pub has-nil : (s : IdSet) → IsValid s → has s [] ≡ false
has-nil s h = nameless_make s.keys s.capacity s.count h
