-- ===== src/IdMap.antt =====
-- ui/id_map.c: the map from application ids to versions. `IdMapEntry *entries` is an array of
-- entries, free when the key is NULL; an operation on `*map` returns the new map. The functions
-- `fnv1a` and the loops are those of ui/id_set.c once more.
pub mod Valid
pub mod Insert
pub mod Client
mod Examples
use linyaps_store.Base.{
  ℕ, zero, suc, ◌+◌, Option, none, some, List, [], ◌∷◌, Bool, true, false, ◌||◌, Run, ok, ◌>>=◌,
  deref, add_size, mul_size, mod_size, ltb, ◌==◌, if◌then◌else◌, Str, set, replicate, read,
  Allocator,
}
use linyaps_store.Slots.{Slot, fnv1a, find_key, hit, vacant, move, first, old_slots, wipe}
use linyaps_store.Types.{PackageInfo}

pub record Entry : Type 0 where
  pub key : Option Str
  pub value : Option Str

pub record IdMap : Type 0 where
  pub entries : Option (List Entry)
  pub capacity : ℕ
  pub count : ℕ

instance abbrev pub entry_slot : Slot Entry
entry_slot = record { key = λ e. e.key }

-- `sizeof(IdMapEntry)`
abbrev pub entry_size : ℕ
entry_size = 16

-- What `calloc` and `id_map_clear` leave in a slot.
abbrev pub free_entry : Entry
free_entry = record { key = none; value = none }

unfoldable pub init : IdMap
init = record { entries = none; capacity = 0; count = 0 }

-- Freeing reads `entries[0]`, ..., `entries[capacity - 1]`.
unfoldable pub free : IdMap → Run IdMap
unfolding init
free m = elim m.entries [ none ↦ ok init | some t ↦ first m.capacity t >>= λ _. ok init ]

unfoldable pub clear : IdMap → Run IdMap
clear m = elim m.entries [
  | none ↦ ok (record m { count = 0 })
  | some t ↦ wipe free_entry m.capacity t >>= λ t'. ok (record m { entries = some t'; count = 0 })
]

-- When `calloc` fails the old array is lost.
unfoldable pub rehash : Allocator → IdMap → ℕ → Run IdMap
rehash a m new_cap =
    if a.calloc new_cap entry_size
    then (do
      old ← old_slots m.entries m.capacity
      (t, n) ← move new_cap old (replicate new_cap free_entry) 0
      ok (record { entries = some t; capacity = new_cap; count = n }))
    else ok (record { entries = none; capacity = new_cap; count = 0 })

-- The load factor test.
unfoldable pub needs_growth : IdMap → Bool
needs_growth m = (m.capacity == 0) || ltb (mul_size m.capacity 3) (mul_size (add_size m.count 1) 4)

unfoldable pub new_capacity : IdMap → ℕ
new_capacity m = if m.capacity == 0 then 16 else mul_size m.capacity 2

-- `value ? strdup(value) : NULL`; the key's copy is the first `strdup` of an insertion.
unfoldable pub copy_value : Allocator → Option Str → Option Str
copy_value a none = none
copy_value a (some v) = if a.strdup 1 v then some v else none

-- The probing loop of `id_map_insert`, with as many rounds as there are slots. With no memory for
-- the key the value is written all the same.
unfoldable pub place : Allocator → IdMap → Str → Option Str → Run (Bool × IdMap)
place a m k v = do
  i ← mod_size (fnv1a k) m.capacity
  t ← deref m.entries
  p ← find_key m.capacity m.capacity t k i
  elim p [
    | hit r ↦ do
      e ← read t r
      ok (true, record m { entries = some (set t r (record e { value = copy_value a v })) })
    | vacant r ↦
        if a.strdup 0 k
        then ok (
          true,
          record m {
            entries = some (set t r (record { key = some k; value = copy_value a v }));
            count = add_size m.count 1;
          },
        )
        else ok (
          false,
          record m { entries = some (set t r (record { key = none; value = copy_value a v })) },
        )
  ]

unfoldable pub insert : Allocator → IdMap → Option Str → Option Str → Run (Bool × IdMap)
insert a m none v = ok (false, m)
insert a m (some []) v = ok (false, m)
insert a m (some (c ∷ k)) v =
    if needs_growth m
    then (do
      m' ← rehash a m (new_capacity m)
      elim m'.entries [ none ↦ ok (false, m') | some t ↦ place a m' (c ∷ k) v ])
    else place a m (c ∷ k) v

-- The probing loop of `id_map_get`.
unfoldable pub search_value : IdMap → List Entry → Str → Run (Option Str)
search_value m t k = do
  i ← mod_size (fnv1a k) m.capacity
  p ← find_key m.capacity m.capacity t k i
  elim p [ hit r ↦ read t r >>= λ e. ok e.value | vacant r ↦ ok none ]

unfoldable pub get : IdMap → Option Str → Run (Option Str)
get m k = elim m.entries [
  | none ↦ ok none
  | some t ↦ elim k [
    | none ↦ ok none
    | some k' ↦ elim k' [ [] ↦ ok none | c ∷ cs ↦ search_value m t (c ∷ cs) ]
  ]
]

-- The loop of `id_map_build_from_packages`; the allocator answers each insertion anew.
unfoldable pub insert_packages : (ℕ → Allocator) → ℕ → IdMap → List (Option PackageInfo) → Run IdMap
insert_packages a i m [] = ok m
insert_packages a i m (none ∷ list) = insert_packages a (i + 1) m list
insert_packages a i m (some p ∷ list) = elim p.id [
  | none ↦ insert_packages a (i + 1) m list
  | some id ↦ elim p.version [
    | none ↦ insert_packages a (i + 1) m list
    | some v ↦ insert (a i) m (some id) (some v) >>= λ r. insert_packages a (i + 1) r.1 list
  ]
]

unfoldable pub build_from_packages : (ℕ → Allocator) → IdMap → List (Option PackageInfo) → Run IdMap
build_from_packages a m list = clear m >>= λ m'. insert_packages a 0 m' list
