-- ===== src/Slots/Chain.antt =====
-- Probe chains: the slots that a probe passes from one index to another are all taken.
use linyaps_store.Base.{
  ℕ, zero, suc, ◌+◌, ◌-◌, ◌≤◌, ◌<◌, ◌^◌, ◌%◌, ◌≡◌, ◌≢◌, some, List, length, Str, arith, leb,
  if◌then◌else◌,
}
use linyaps_store.Slots.{Slot, next, fnv1a}
use linyaps_store.Slots.Scan.{key_at, occurrences}

-- Below 2 ^ 61 slots no `size_t` operation of the code wraps.
abbrev pub max_slots : ℕ
max_slots = 2 ^ 61

abbrev pub IsIndex : ℕ → ℕ → Type 0
IsIndex cap i = (i < cap) × (cap ≤ max_slots)

-- How many steps lead from `i` to `j`, going round at the end.
abbrev pub distance : ℕ → ℕ → ℕ → ℕ
distance cap i j = if leb i j then j - i else cap - i + j

pub next-lt : (cap i : ℕ) → IsIndex cap i → next cap i < cap
unfolding next
next-lt cap i h = ground arith

pub distance-next :
    (cap i j : ℕ)
    → IsIndex cap i
    → j < cap
    → i ≢ j
    → distance cap (next cap i) j + 1 ≡ distance cap i j
unfolding next
distance-next cap i j h lt ne = ground arith

pub distance-lt : (cap i j : ℕ) → i < cap → j < cap → distance cap i j < cap
distance-lt cap i j h k = ground arith

-- The first slot that the code looks at for a key.
abbrev pub home : Str → ℕ → ℕ
home k n = fnv1a k % n

module _ {ℓ} {S : Type ℓ} ⦃slot : Slot S⦄ where
  -- From `i`, `d` steps over taken slots lead to `j`.
  abbrev pub Clear : ℕ → List S → ℕ → ℕ → ℕ → Type 0
  Clear cap t zero i j = i ≡ j
  Clear cap t (suc d) i j = ((k : Str) × (key_at t i ≡ some k)) × Clear cap t d (next cap i) j

  -- Each key stands at the end of the chain from its home, and once.
  pub record IsSound (cap : ℕ) (t : List S) : Type ℓ where
    pub width : length t ≡ cap
    pub small : cap ≤ max_slots
    pub once : (q : Str) → occurrences q t ≤ 1
    pub placed :
        (i : ℕ) (k : Str) → key_at t i ≡ some k → (d : ℕ) × (d < cap) × Clear cap t d (home k cap) i
