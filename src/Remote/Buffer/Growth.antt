-- ===== src/Remote/Buffer/Growth.antt =====
-- The doubling of the capacity ends.
use native.Mathlib.Nat.{pow-suc, mul_assoc, mul_comm}
use linyaps_store.Base.{
  ℕ, zero, suc, ◌*◌, ◌^◌, ◌≤◌, ◌<◌, ◌≡◌, refl, ap, ◌∙◌, Returns, ltb, mul_size, Bool-cases, inl,
  inr, arith,
}
use linyaps_store.Remote.Buffer.{double_until, doublings, first_newcap}

double_pow : (n k : ℕ) → n * 2 ^ suc k ≡ n * 2 * 2 ^ k
double_pow n k = rw (pow-suc, mul_comm (2 ^ k) 2, mul_assoc)

-- From a capacity that k doublings lift to `need`, the loop ends within k + 1 tests.
double_until_ends :
    (k fuel need newcap : ℕ)
    → k < fuel
    → need ≤ 2 ^ 63
    → 0 < newcap
    → need ≤ newcap * 2 ^ k
    → Returns (double_until fuel need newcap) λ m. (need ≤ m) × (newcap ≤ m)
unfolding double_until
double_until_ends k zero need newcap f n p e = elim f [ ]
double_until_ends zero (suc fuel) need newcap f n p e =
    (newcap, ground arith, (omega arith, omega arith))
double_until_ends (suc k) (suc fuel) need newcap f n p e = elim (Bool-cases (ltb newcap need)) [
  | inr done ↦ (newcap, rw done refl, (ground arith, omega arith))
  | inl more ↦
      let fits : mul_size newcap 2 ≡ newcap * 2 = ground arith in
      let (m, r, (a, b)) =
        double_until_ends k fuel need (newcap * 2) (omega arith) n (omega arith)
          (rw (← double_pow newcap k) e) in
      (m, rw more (ap (double_until fuel need) fits ∙ r), (a, omega arith))
]

-- The capacity that `curl_write_cb` asks for holds what it needs, and is no less than the old one.
pub double_until_enough :
    (cap need : ℕ)
    → cap < need
    → need ≤ 2 ^ 63
    → Returns (double_until (suc doublings) need (first_newcap cap)) λ m. (need ≤ m) × (cap ≤ m)
double_until_enough zero need l n =
    let (m, r, (a, b)) =
      double_until_ends 63 (suc doublings) need 4096 (omega arith) n (omega arith) (omega arith) in
    (m, r, (a, omega arith))
double_until_enough (suc cap) need l n =
    let twice : first_newcap (suc cap) ≡ suc cap * 2 = ground arith in
    let (m, r, (a, b)) =
      double_until_ends 63 (suc doublings) need (suc cap * 2) (omega arith) n (omega arith)
        (omega arith) in
    (m, ap (double_until (suc doublings) need) twice ∙ r, (a, omega arith))
