-- ===== src/IdSet.antt =====
-- ui/id_set.c: the set of application ids. `char **keys` is an array of slots, each NULL or an
-- owned string; an operation on `*set` returns the new set. What the allocator does is an argument.
pub mod Valid
pub mod Insert
pub mod Failure
pub mod Client
mod Examples
use linyaps_store.Base.{
  ℕ, zero, suc, ◌+◌, Option, none, some, List, [], ◌∷◌, Bool, true, false, ◌||◌, Run, ok, ◌>>=◌,
  deref, add_size, mul_size, mod_size, ltb, ◌==◌, if◌then◌else◌, Str, set, replicate, Allocator,
}
use linyaps_store.Slots.{Slot, fnv1a, find_key, hit, vacant, move, first, old_slots, wipe}
use linyaps_store.Types.{PackageInfo}

pub record IdSet : Type 0 where
  pub keys : Option (List (Option Str))
  pub capacity : ℕ
  pub count : ℕ

instance abbrev pub key_slot : Slot (Option Str)
key_slot = record { key = λ s. s }

-- `sizeof(char *)`
abbrev pub pointer_size : ℕ
pointer_size = 8

unfoldable pub init : IdSet
init = record { keys = none; capacity = 0; count = 0 }

-- Freeing reads `keys[0]`, ..., `keys[capacity - 1]`.
unfoldable pub free : IdSet → Run IdSet
unfolding init
free s = elim s.keys [ none ↦ ok init | some t ↦ first s.capacity t >>= λ _. ok init ]

unfoldable pub clear : IdSet → Run IdSet
clear s = elim s.keys [
  | none ↦ ok (record s { count = 0 })
  | some t ↦ wipe none s.capacity t >>= λ t'. ok (record s { keys = some t'; count = 0 })
]

-- When `calloc` fails the old array is lost.
unfoldable pub rehash : Allocator → IdSet → ℕ → Run IdSet
rehash a s new_cap =
    if a.calloc new_cap pointer_size
    then (do
      old ← old_slots s.keys s.capacity
      (t, n) ← move new_cap old (replicate new_cap none) 0
      ok (record { keys = some t; capacity = new_cap; count = n }))
    else ok (record { keys = none; capacity = new_cap; count = 0 })

-- The load factor test.
unfoldable pub needs_growth : IdSet → Bool
needs_growth s = (s.capacity == 0) || ltb (mul_size s.capacity 3) (mul_size (add_size s.count 1) 4)

unfoldable pub new_capacity : IdSet → ℕ
new_capacity s = if s.capacity == 0 then 16 else mul_size s.capacity 2

-- The probing loop of `id_set_insert`. No probe looks at a slot twice, so it has as many rounds as
-- there are slots.
unfoldable pub place : Allocator → IdSet → Str → Run (Bool × IdSet)
place a s k = do
  i ← mod_size (fnv1a k) s.capacity
  t ← deref s.keys
  p ← find_key s.capacity s.capacity t k i
  elim p [
    | hit r ↦ ok (false, s)
    | vacant r ↦
        if a.strdup 0 k
        then ok (true, record s { keys = some (set t r (some k)); count = add_size s.count 1 })
        else ok (false, s)
  ]

unfoldable pub insert : Allocator → IdSet → Option Str → Run (Bool × IdSet)
insert a s none = ok (false, s)
insert a s (some []) = ok (false, s)
insert a s (some (c ∷ k)) =
    if needs_growth s
    then (do
      s' ← rehash a s (new_capacity s)
      elim s'.keys [ none ↦ ok (false, s') | some t ↦ place a s' (c ∷ k) ])
    else place a s (c ∷ k)

-- The probing loop of `id_set_contains`.
unfoldable pub search_key : IdSet → List (Option Str) → Str → Run Bool
search_key s t k = do
  i ← mod_size (fnv1a k) s.capacity
  p ← find_key s.capacity s.capacity t k i
  ok (elim p [ hit r ↦ true | vacant r ↦ false ])

unfoldable pub contains : IdSet → Option Str → Run Bool
contains s k = elim s.keys [
  | none ↦ ok false
  | some t ↦ elim k [
    | none ↦ ok false
    | some k' ↦ elim k' [ [] ↦ ok false | c ∷ cs ↦ search_key s t (c ∷ cs) ]
  ]
]

-- The loop of `id_set_build_from_packages`; the allocator answers each insertion anew.
unfoldable pub insert_packages : (ℕ → Allocator) → ℕ → IdSet → List (Option PackageInfo) → Run IdSet
insert_packages a i s [] = ok s
insert_packages a i s (none ∷ list) = insert_packages a (i + 1) s list
insert_packages a i s (some p ∷ list) = elim p.id [
  | none ↦ insert_packages a (i + 1) s list
  | some id ↦ insert (a i) s (some id) >>= λ r. insert_packages a (i + 1) r.1 list
]

unfoldable pub build_from_packages : (ℕ → Allocator) → IdSet → List (Option PackageInfo) → Run IdSet
build_from_packages a s list = clear s >>= λ s'. insert_packages a 0 s' list
