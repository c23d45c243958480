-- ===== src/IdMap/Valid.antt =====
-- The invariant of ui/id_map.c, and what a map holds.
use linyaps_store.Base.{
  ℕ, ◌≤◌, ◌≡◌, refl, none, some, Option, List, [], ◌∷◌, Bool, true, false, ok, ◌>>=◌, Run, Returns,
  read, Str, arith, replicate,
}
use mathlib.Core.Path.{subst}
use linyaps_store.Slots.{Probe, first, wipe, fnv1a, hit, vacant}
use linyaps_store.Slots.Scan.{scan, scan-none}
use linyaps_store.Slots.Move.{occurrences-replicate}
use linyaps_store.Slots.Table.{IsTable, first-length, wipe-length, replicate-IsTable, room_left}
use linyaps_store.Slots.Lookup.{find_key-Finds, mod_size_pos, Finds, is_hit, is_miss}
use linyaps_store.Slots.Chain.{max_slots}
use linyaps_store.IdMap.{IdMap, Entry, entry_slot, free_entry, init, free, clear, get, search_value}

-- No array and nothing counted, or a table.
abbrev pub Allocated : Option (List Entry) → ℕ → ℕ → Type 0
Allocated none cap n = (cap ≡ 0) × (n ≡ 0)
Allocated (some t) cap n = IsTable cap n t

abbrev pub IsValid : IdMap → Type 0
IsValid m = Allocated m.entries m.capacity m.count

abbrev pub value_of : Option Entry → Option Str
value_of none = none
value_of (some e) = e.value

abbrev pub is_some {ℓ} : {A : Type ℓ} → Option A → Bool
is_some none = false
is_some (some a) = true

-- The first entry of a key, read with no hashing.
unfoldable pub entry : IdMap → Str → Option Entry
entry m q = elim m.entries [ none ↦ none | some t ↦ scan t q ]

abbrev pub make : Option (List Entry) → ℕ → ℕ → IdMap
make p cap n = record { entries = p; capacity = cap; count = n }

search_value_lem :
    (t : List Entry) (cap n : ℕ) (k : Str)
    → IsTable cap n t
    → search_value (make (some t) cap n) t k ≡ ok (value_of (scan t k))
unfolding search_value
search_value_lem t cap n k h =
    let (p, run, found) = find_key-Finds cap t k h.sound (room_left h) in
    rw (mod_size_pos (fnv1a k) cap (omega (arith, h.roomy)), run) (answer p found)
  where
    answer :
        (p : Probe)
        → Finds cap t k p
        → ◌≡◌ {A = Run (Option Str)}
            (elim p [ hit r ↦ read t r >>= λ e. ok e.value | vacant r ↦ ok none ])
            (ok (value_of (scan t k)))
    answer (hit r) (is_hit _ f) = rw (f.at_index, f.scanned)
    answer (vacant r) (is_miss _ f) = rw (scan-none k t f.absent)

get-make :
    (p : Option (List Entry)) (cap n : ℕ) (k : Str)
    → Allocated p cap n
    → get (make p cap n) (some k) ≡ ok (value_of (entry (make p cap n) k))
unfolding get entry
get-make none cap n k h = refl
get-make (some t) cap n [] h = rw h.nameless
get-make (some t) cap n (c ∷ k) h = search_value_lem t cap n (c ∷ k) h

-- `id_map_get` on a valid map ends, faults nowhere, and answers with the value of the first entry
-- of the key, or NULL.
pub get-entry : (m : IdMap) (k : Str) → IsValid m → get m (some k) ≡ ok (value_of (entry m k))
get-entry m k h = get-make m.entries m.capacity m.count k h

pub init-IsValidMap : IsValid init × ((q : Str) → entry init q ≡ none)
unfolding init entry
init-IsValidMap = ((refl, refl), λ q. refl)

clear-make :
    (p : Option (List Entry)) (cap n : ℕ)
    → Allocated p cap n
    → Returns
        (clear (make p cap n))
        λ r. IsValid r × (r.count ≡ 0) × (r.capacity ≡ cap) × ((q : Str) → entry r q ≡ none)
unfolding clear entry
clear-make none cap n h = (make none cap 0, refl, ((h.0, refl), refl, refl, λ q. refl))
clear-make (some t) cap n h =
    let fresh = replicate cap free_entry in
    let wiped : wipe free_entry cap t ≡ ok fresh =
      subst (λ m. wipe free_entry m t ≡ ok (replicate m free_entry)) h.sound.width
        (wipe-length free_entry t) in
    (
      make (some fresh) cap 0,
      rw wiped,
      (
        replicate-IsTable free_entry cap refl h.roomy h.sound.small,
        refl,
        refl,
        λ q. rw (scan-none q fresh (occurrences-replicate free_entry refl q cap)),
      ),
    )

-- `id_map_clear` of a valid map ends and faults nowhere, keeps the size of the array, and leaves a
-- valid map that holds and counts nothing.
pub clear-IsValidMap :
    (m : IdMap)
    → IsValid m
    → Returns
        (clear m)
        λ r. IsValid r × (r.count ≡ 0) × (r.capacity ≡ m.capacity) × ((q : Str) → entry r q ≡ none)
clear-IsValidMap m h = clear-make m.entries m.capacity m.count h

free_make :
    (p : Option (List Entry)) (cap n : ℕ) → Allocated p cap n → free (make p cap n) ≡ ok init
unfolding free
free_make none cap n h = refl
free_make (some t) cap n h = rw (subst (λ m. first m t ≡ ok t) h.sound.width (first-length t))

-- `id_map_free` reads the array in bounds, and leaves an initial map.
pub free-IsValidMap : (m : IdMap) → IsValid m → free m ≡ ok init
free-IsValidMap m h = free_make m.entries m.capacity m.count h

capacity_make : (p : Option (List Entry)) (cap n : ℕ) → Allocated p cap n → cap ≤ max_slots
capacity_make none cap n h = omega arith
capacity_make (some t) cap n h = h.sound.small

pub capacity-le : (m : IdMap) → IsValid m → m.capacity ≤ max_slots
capacity-le m h = capacity_make m.entries m.capacity m.count h

nameless_make :
    (p : Option (List Entry)) (cap n : ℕ) → Allocated p cap n → entry (make p cap n) [] ≡ none
unfolding entry
nameless_make none cap n h = refl
nameless_make (some t) cap n h = rw h.nameless

pub entry-nil : (m : IdMap) → IsValid m → entry m [] ≡ none
entry-nil m h = nameless_make m.entries m.capacity m.count h
