-- ===== src/Slots/Table.antt =====
-- A table as its owner sees it: sound, counted, at most three quarters full.
use linyaps_store.Base.{
  ℕ, ◌+◌, ◌*◌, ◌≤◌, ◌<◌, ◌≡◌, ◌≢◌, refl, none, some, List, [], ◌∷◌, length, Str, arith, ok, Returns,
  set, replicate, same_iff,
}
use mathlib.Core.Option.{or_else}
use mathlib.Core.Path.{subst}
use linyaps_store.Slots.{Slot, move, first, old_slots, wipe}
use linyaps_store.Slots.Scan.{scan, scan-none, in_use, key_at}
use linyaps_store.Slots.Chain.{IsSound, max_slots}
use linyaps_store.Slots.Lookup.{IsMiss}
use linyaps_store.Slots.Move.{
  move-Moved, replicate-IsSound, in_use-replicate, occurrences-replicate,
}
use linyaps_store.Slots.Write.{
  in_use-set_free, scan-set_free, set_free-IsSound, in_use-set_hit, scan-set_hit, set_hit-IsSound,
}

pub first-length {ℓ} : {S : Type ℓ} (t : List S) → first (length t) t ≡ ok t
unfolding first
first-length [] = refl
first-length (s ∷ t) = rw (first-length t)

old_slots_all {ℓ} : {S : Type ℓ} (t : List S) → old_slots (some t) (length t) ≡ ok t
unfolding old_slots
old_slots_all [] = refl
old_slots_all (s ∷ t) = first-length (s ∷ t)

pub old_slots-length {ℓ} :
    {S : Type ℓ} (t : List S) (n : ℕ) → length t ≡ n → old_slots (some t) n ≡ ok t
old_slots-length t n e = subst (λ m. old_slots (some t) m ≡ ok t) e (old_slots_all t)

pub wipe-length {ℓ} :
    {S : Type ℓ} (free : S) (t : List S) → wipe free (length t) t ≡ ok (replicate (length t) free)
unfolding wipe
wipe-length free [] = refl
wipe-length free (s ∷ t) = rw (wipe-length free t)

module _ {ℓ} {S : Type ℓ} ⦃slot : Slot S⦄ where
  pub record IsTable (cap count : ℕ) (t : List S) : Type ℓ where
    pub sound : IsSound cap t
    pub counted : count ≡ in_use t
    pub loaded : count * 4 ≤ cap * 3
    pub roomy : 16 ≤ cap
    pub nameless : scan t [] ≡ none

  pub room_left : {cap count : ℕ} {t : List S} → IsTable cap count t → in_use t < cap
  room_left h = omega (arith, h.counted, h.loaded, h.roomy)

  pub replicate-IsTable :
      (free : S) (n : ℕ)
      → slot.key free ≡ none
      → 16 ≤ n
      → n ≤ max_slots
      → IsTable n 0 (replicate n free)
  replicate-IsTable free n e lo hi = record {
    sound = replicate-IsSound free e n hi;
    counted = omega (arith, in_use-replicate free e n);
    loaded = omega arith;
    roomy = lo;
    nameless = scan-none [] (replicate n free) (occurrences-replicate free e [] n);
  }

  -- The table that `rehash` makes, with the contents of the old one.
  pub record Rehashed (cap count : ℕ) (t : List S) (r : List S × ℕ) : Type ℓ where
    pub table : IsTable cap count r.0
    pub kept : r.1 ≡ count
    pub reads : (q : Str) → scan r.0 q ≡ scan t q

  pub move-Rehashed :
      (free : S) (old cap count : ℕ) (t : List S)
      → slot.key free ≡ none
      → IsTable old count t
      → old ≤ cap
      → cap ≤ max_slots
      → Returns (move cap t (replicate cap free) 0) (Rehashed cap count t)
  unfolding or_else
  move-Rehashed free old cap count t e h grows small =
      let (r, run, m) =
        move-Moved cap t (replicate cap free) 0 (replicate-IsSound free e cap small)
          (omega (arith, in_use-replicate free e cap, room_left h)) (omega (arith, room_left h))
          (λ q. omega (arith, occurrences-replicate free e q cap, h.sound.once q)) in
      let reads : (q : Str) → scan r.0 q ≡ scan t q = λ q.
        ground (
          arith,
          m.reads q,
          scan-none q (replicate cap free),
          occurrences-replicate free e q cap,
        ) in
      (
        r,
        run,
        record {
          table = record {
            sound = m.sound;
            counted = omega (arith, m.filled, in_use-replicate free e cap, h.counted);
            loaded = omega (arith, h.loaded);
            roomy = omega (arith, h.roomy);
            nameless = rw (reads []) h.nameless;
          };
          kept = omega (arith, m.counted, h.counted);
          reads = reads;
        },
      )

  module _ (cap count : ℕ) (t : List S) (s : S) (k : Str) (e : slot.key s ≡ some k)
      (h : IsTable cap count t) where
    -- A new key on the slot that the search for it has found.
    pub put-IsTable :
        (r : ℕ)
        → IsMiss cap t k r
        → (count + 1) * 4 ≤ cap * 3
        → k ≢ []
        → IsTable cap (count + 1) (set t r s)
    put-IsTable r miss room named =
        let lt : r < length t = omega (arith, h.sound.width, miss.landing.within) in
        record {
          sound = set_free-IsSound s k e cap t r h.sound miss.landing miss.absent;
          counted = omega (arith, in_use-set_free s k e t r lt miss.landing.free, h.counted);
          loaded = room;
          roomy = h.roomy;
          nameless = ground (
            arith,
            scan-set_free s k e [] t r lt miss.landing.free miss.absent,
            same_iff k [],
            h.nameless,
            named,
          );
        }

    -- Another slot for a key that is there.
    pub replace-IsTable : (r : ℕ) → key_at t r ≡ some k → k ≢ [] → IsTable cap count (set t r s)
    replace-IsTable r there named = record {
      sound = set_hit-IsSound s k e cap t r h.sound there;
      counted = omega (arith, in_use-set_hit s k e t r there, h.counted);
      loaded = h.loaded;
      roomy = h.roomy;
      nameless = ground (
        arith,
        scan-set_hit s k e [] t r there (h.sound.once k),
        same_iff k [],
        h.nameless,
        named,
      );
    }
