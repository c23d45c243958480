-- ===== src/Slots/Move.antt =====
-- `rehash` moves every used slot of an old array into a fresh one: it ends, and keeps the contents.
use linyaps_store.Base.{
  ℕ, zero, suc, ◌+◌, ◌≤◌, ◌<◌, ◌^◌, ◌≡◌, refl, none, some, List, [], ◌∷◌, length, Str, arith, ok,
  Returns, add_size, set, ◌∙◌, inl, inr, Option-cases, same_iff, replicate, length-replicate,
}
use mathlib.Core.Option.{or_else}
use native.Mathlib.Nat.{mod-lt}
use linyaps_store.Slots.{Slot, find_empty, move, fnv1a}
use linyaps_store.Slots.Scan.{key_at, scan, scan-none, occurrences, in_use, free_slot}
use linyaps_store.Slots.Chain.{IsSound, home, distance-lt, max_slots}
use linyaps_store.Slots.Probing.{IsLanding, find_empty_lem}
use linyaps_store.Slots.Lookup.{mod_size_pos}
use linyaps_store.Slots.Write.{
  occurrences-set_free, in_use-set_free, scan-set_free, set_free-IsSound,
}

module _ {ℓ} {S : Type ℓ} ⦃slot : Slot S⦄ where
  -- An array of free slots.
  module _ (s : S) (free : slot.key s ≡ none) where
    pub in_use-replicate : (n : ℕ) → in_use (replicate n s) ≡ 0
    unfolding in_use
    in_use-replicate zero = refl
    in_use-replicate (suc n) = ground (arith, in_use-replicate n)

    pub occurrences-replicate : (q : Str) (n : ℕ) → occurrences q (replicate n s) ≡ 0
    unfolding occurrences
    occurrences-replicate q zero = refl
    occurrences-replicate q (suc n) = ground (arith, occurrences-replicate q n)

    key_at-replicate : (n i : ℕ) → key_at (replicate n s) i ≡ none
    unfolding key_at
    key_at-replicate zero i = refl
    key_at-replicate (suc n) zero = free
    key_at-replicate (suc n) (suc i) = key_at-replicate n i

    pub replicate-IsSound : (n : ℕ) → n ≤ max_slots → IsSound n (replicate n s)
    replicate-IsSound n h = record {
      width = length-replicate n s;
      small = h;
      once = λ q. omega (arith, occurrences-replicate q n);
      placed = λ i k at_i. cc (key_at-replicate n i, at_i);
    }

  -- What the loop has made of the new table `t`, counted to `n`, from the old slots `xs`.
  pub record Moved (cap : ℕ) (xs t : List S) (n : ℕ) (r : List S × ℕ) : Type ℓ where
    pub sound : IsSound cap r.0
    pub filled : in_use r.0 ≡ in_use t + in_use xs
    pub counted : r.1 ≡ n + in_use xs
    pub reads : (q : Str) → scan r.0 q ≡ or_else (scan t q) (scan xs q)

  land :
      (cap : ℕ) (t : List S) (k : Str)
      → IsSound cap t
      → in_use t < cap
      → Returns (find_empty cap cap t (home k cap)) (IsLanding cap t cap (home k cap))
  land cap t k sound room =
      let (j, lt, free) = free_slot t (omega (arith, sound.width)) in
      let inside : home k cap < cap = mod-lt (fnv1a k) (omega arith) in
      find_empty_lem cap t sound.width j (omega (arith, sound.width)) free cap (home k cap)
        (inside, sound.small) (distance-lt cap (home k cap) j inside (omega (arith, sound.width)))

  move_skip :
      (cap : ℕ) (s : S) (xs t : List S) (n : ℕ)
      → slot.key s ≡ none
      → move cap (s ∷ xs) t n ≡ move cap xs t n
  unfolding move
  move_skip cap s xs t n e = rw (e, move)

  move_put :
      (cap : ℕ) (s : S) (xs t : List S) (n : ℕ) (k : Str) (j : ℕ)
      → slot.key s ≡ some k
      → 0 < cap
      → find_empty cap cap t (home k cap) ≡ ok j
      → move cap (s ∷ xs) t n ≡ move cap xs (set t j s) (add_size n 1)
  unfolding move
  move_put cap s xs t n k j e pos run = ground (arith, mod_size_pos (fnv1a k) cap pos)

  -- The part of the claim that a used slot at the front adds to that of the rest.
  Moved-put :
      (cap : ℕ) (s : S) (xs t : List S) (n : ℕ) (k : Str) (j : ℕ) (r : List S × ℕ)
      → slot.key s ≡ some k
      → j < length t
      → key_at t j ≡ none
      → occurrences k t ≡ 0
      → n + in_use (s ∷ xs) < 2 ^ 64
      → Moved cap xs (set t j s) (add_size n 1) r
      → Moved cap (s ∷ xs) t n r
  unfolding in_use scan or_else
  Moved-put cap s xs t n k j r e lt free absent small m = record {
    sound = m.sound;
    filled = ground (arith, m.filled, in_use-set_free s k e t j);
    counted = ground (arith, m.counted);
    reads = λ q. ground (arith, m.reads q, scan-set_free s k e q t j, scan-none q t, same_iff k q);
  }

  -- The loop ends normally if the new table has room, and adds the old contents to the new table.
  pub move-Moved :
      (cap : ℕ) (xs t : List S) (n : ℕ)
      → IsSound cap t
      → in_use t + in_use xs < cap
      → n + in_use xs < 2 ^ 64
      → ((q : Str) → occurrences q t + occurrences q xs ≤ 1)
      → Returns (move cap xs t n) (Moved cap xs t n)
  unfolding move in_use scan occurrences or_else
  move-Moved cap [] t n sound room small once = (
    (t, n),
    refl,
    record {
      sound = sound;
      filled = omega arith;
      counted = omega arith;
      reads = λ q. ground arith;
    },
  )
  move-Moved cap (s ∷ xs) t n sound room small once = elim (Option-cases (slot.key s)) [
    | inl e ↦
        let (r, run, m) =
          move-Moved cap xs t n sound (ground arith) (ground arith) (λ q. ground (arith, once q)) in
        (
          r,
          move_skip cap s xs t n e ∙ run,
          record {
            sound = m.sound;
            filled = ground (arith, m.filled);
            counted = ground (arith, m.counted);
            reads = λ q. ground (arith, m.reads q);
          },
        )
    | inr (k, e) ↦
        let absent : occurrences k t ≡ 0 = ground (arith, once k, same_iff k k) in
        let (j, found, l) = land cap t k sound (ground arith) in
        let lt : j < length t = omega (arith, sound.width, l.within) in
        let (r, run, m) =
          move-Moved cap xs (set t j s) (add_size n 1)
            (set_free-IsSound s k e cap t j sound l absent)
            (ground (arith, in_use-set_free s k e t j lt l.free)) (ground arith)
            (λ q. ground (arith, once q, occurrences-set_free s k e q t j lt l.free)) in
        (
          r,
          move_put cap s xs t n k j e (ground arith) found ∙ run,
          Moved-put cap s xs t n k j r e lt l.free absent small m,
        )
  ]
