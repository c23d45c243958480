-- ===== src/Slots.antt =====
-- Open addressing with linear probing, which ui/id_set.c and ui/id_map.c each write out: the
-- probing loops over an array of slots, and the words that their proofs speak in.
pub mod Scan
pub mod Chain
pub mod Probing
pub mod Write
pub mod Lookup
pub mod Move
pub mod Table
use linyaps_store.Base.{
  ℕ, zero, suc, ◌+◌, ◌%◌, ◌^◌, Option, none, some, List, [], ◌∷◌, Run, ok, fault, no_fuel,
  out_of_bounds, null_pointer, ◌>>=◌, add_size, mod_size, read, set, leb, if◌then◌else◌, Str, same,
  true, false,
}
use Prim.Native.Nat.{bit_xor, ◌*◌}

-- A slot of the array: its key is NULL when the slot is free.
pub record Slot {ℓ} (S : Type ℓ) : Type ℓ where
  pub key : S → Option Str

-- `h ^= c; h *= prime` for each byte, in `uint64_t`.
abbrev fnv1a_from : ℕ → Str → ℕ
fnv1a_from h [] = h
fnv1a_from h (c ∷ s) = fnv1a_from ((bit_xor h c * 0x100000001b3) % 2 ^ 64) s

unfoldable pub fnv1a : Str → ℕ
fnv1a s = fnv1a_from 0xcbf29ce484222325 s

-- `idx++; if (idx >= cap) idx = 0;`
unfoldable pub next : ℕ → ℕ → ℕ
next cap i = let j = add_size i 1 in if leb cap j then 0 else j

-- Where a search for a key stops.
pub data Probe : Type 0 where
  hit : ℕ → Probe
  vacant : ℕ → Probe

module _ {ℓ} {S : Type ℓ} ⦃slot : Slot S⦄ where
  -- `while (slots[idx].key) { ... }`, at most as many rounds as the first argument says.
  unfoldable pub find_empty : ℕ → ℕ → List S → ℕ → Run ℕ
  find_empty zero cap t i = fault no_fuel
  find_empty (suc f) cap t i =
      read t i >>= λ s. elim (slot.key s) [ none ↦ ok i | some _ ↦ find_empty f cap t (next cap i) ]

  -- `for (;;) { if (!slots[idx].key) ...; if (strcmp(slots[idx].key, key) == 0) ...; ... }`
  unfoldable pub find_key : ℕ → ℕ → List S → Str → ℕ → Run Probe
  find_key zero cap t k i = fault no_fuel
  find_key (suc f) cap t k i = read t i >>= λ s. elim (slot.key s) [
    | none ↦ ok (vacant i)
    | some j ↦ elim (same j k) [ true ↦ ok (hit i) | false ↦ find_key f cap t k (next cap i) ]
  ]

  -- The loop of `rehash` over the old slots: each used one is put on the first free slot from its
  -- home, with no comparison of keys, and counted.
  unfoldable pub move : ℕ → List S → List S → ℕ → Run (List S × ℕ)
  move cap [] t n = ok (t, n)
  move cap (s ∷ xs) t n = elim (slot.key s) [
    | none ↦ move cap xs t n
    | some k ↦ do
      i ← mod_size (fnv1a k) cap
      j ← find_empty cap cap t i
      move cap xs (set t j s) (add_size n 1)
  ]

-- `a[0]`, ..., `a[n - 1]`
unfoldable pub first {ℓ} : {S : Type ℓ} → ℕ → List S → Run (List S)
first zero t = ok []
first (suc n) [] = fault out_of_bounds
first (suc n) (s ∷ t) = first n t >>= λ r. ok (s ∷ r)

-- The slots that a loop from 0 to the capacity goes through; it reads nothing when that is 0.
unfoldable pub old_slots {ℓ} : {S : Type ℓ} → Option (List S) → ℕ → Run (List S)
old_slots p zero = ok []
old_slots none (suc n) = fault null_pointer
old_slots (some t) (suc n) = first (suc n) t

-- The loop that overwrites `a[0]`, ..., `a[n - 1]` by a free slot.
unfoldable pub wipe {ℓ} : {S : Type ℓ} → S → ℕ → List S → Run (List S)
wipe free zero t = ok t
wipe free (suc n) [] = fault out_of_bounds
wipe free (suc n) (s ∷ t) = wipe free n t >>= λ r. ok (free ∷ r)
