-- ===== src/Slots/Lookup.antt =====
-- A search from the home of a key, in a sound table with a free slot, reads what the table holds.
use linyaps_store.Base.{
  ℕ, zero, suc, ◌<◌, ◌≡◌, refl, some, List, Str, arith, ok, Returns, read, mod_size, ◌%◌, ◌∙◌,
}
use native.Mathlib.Nat.{mod-lt}
use native.Mathlib.Decide.{ℕ_discrete}
use linyaps_store.Slots.{Slot, find_key, Probe, hit, vacant, fnv1a}
use linyaps_store.Slots.Scan.{
  key_at, read-key_at, scan, scan-read, occurrences, in_use, free_slot, index_of,
}
use linyaps_store.Slots.Chain.{IsSound, home, distance-lt}
use linyaps_store.Slots.Probing.{IsLanding, Lands, find_key_lem, find_key-ne-vacant}

pub mod_size_pos : (a b : ℕ) → 0 < b → mod_size a b ≡ ok (a % b)
mod_size_pos a zero h = elim h [ ]
mod_size_pos a (suc b) h = refl

module _ {ℓ} {S : Type ℓ} ⦃slot : Slot S⦄ where
  -- A slot of the key, the one that `scan` finds.
  pub record IsHit (t : List S) (k : Str) (r : ℕ) : Type ℓ where
    pub found : S
    pub at_index : read t r ≡ ok found
    pub same_key : slot.key found ≡ some k
    pub scanned : scan t k ≡ some found
    pub key_there : key_at t r ≡ some k

  -- A free slot at the end of the chain of a key that the table does not hold.
  pub record IsMiss (cap : ℕ) (t : List S) (k : Str) (r : ℕ) : Type 0 where
    pub landing : IsLanding cap t cap (home k cap) r
    pub absent : occurrences k t ≡ 0

  pub data Finds (cap : ℕ) (t : List S) (k : Str) : Probe → Type ℓ where
    is_hit : (r : ℕ) → IsHit t k r → Finds cap t k (hit r)
    is_miss : (r : ℕ) → IsMiss cap t k r → Finds cap t k (vacant r)

  Finds-of_Lands :
      (cap : ℕ) (t : List S) (k : Str) (p : Probe)
      → IsSound cap t
      → find_key cap cap t k (home k cap) ≡ ok p
      → Lands cap t k cap (home k cap) p
      → Finds cap t k p
  Finds-of_Lands cap t k (hit r) sound run l =
      let (s, rd, e) = read-key_at t r (omega (arith, sound.width, l.0)) in
      is_hit r (record {
        found = s;
        at_index = rd;
        same_key = e ∙ l.1;
        scanned = scan-read k t r s (sound.once k) rd (e ∙ l.1);
        key_there = l.1;
      })
  Finds-of_Lands cap t k (vacant r) sound run l = is_miss r (record {
    landing = l;
    absent = elim (ℕ_discrete (occurrences k t) 0) [
      | yes z ↦ z
      | no pos ↦
          let (i, at_i) = index_of k t (omega arith) in
          let (d, bound, c) = sound.placed i k at_i in
          absurd (find_key-ne-vacant cap t k cap d (home k cap) i r c at_i run)
    ];
  })

  pub find_key-Finds :
      (cap : ℕ) (t : List S) (k : Str)
      → IsSound cap t
      → in_use t < cap
      → Returns (find_key cap cap t k (home k cap)) (Finds cap t k)
  find_key-Finds cap t k sound room =
      let (j, lt, free) = free_slot t (omega (arith, sound.width)) in
      let inside : home k cap < cap = mod-lt (fnv1a k) (omega arith) in
      let (p, run, l) =
        find_key_lem cap t sound.width j (omega (arith, sound.width)) free k cap (home k cap)
          (inside, sound.small)
          (distance-lt cap (home k cap) j inside (omega (arith, sound.width))) in
      (p, run, Finds-of_Lands cap t k p sound run l)
