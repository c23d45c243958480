-- ===== src/Local/Packages/Lists.antt =====
-- package_list_append builds its list within its memory.
use mathlib.Core.List.{append_assoc, append-nil}
use linyaps_store.Base.{
  ℕ, zero, suc, ◌+◌, ◌*◌, ◌/◌, ◌^◌, ◌≤◌, ◌<◌, ◌≡◌, refl, sym, ap, Option, none, some, List, [], ◌∷◌,
  ◌++◌, Bool, false, Returns, ◌==◌, mul_size, length, length-append, Bool-cases, ◌⊎◌, inl, inr,
  arith,
}
use linyaps_store.Types.{PackageInfo}
use linyaps_store.Local.Packages.{
  PackageList, empty_list, store, next_cap, package_list_append, append_if,
}

abbrev pub Refused : (ℕ → Bool) → Type 0
Refused gives = (size : ℕ) × (gives size ≡ false)

-- The memory has room for `cap` packages, and `cap` is at most twice what is needed.
pub record HasRoom (l : PackageList) : Type 0 where
  pub same_room : l.room ≡ l.cap
  pub enough : length l.items ≤ l.cap
  pub bounded : l.cap ≤ 16 + 2 * length l.items

store_lem :
    (info : PackageInfo) (l : PackageList)
    → l.room ≡ l.cap
    → length l.items < l.cap
    → l.cap ≤ 18 + 2 * length l.items
    → Returns (store info l) λ z. HasRoom z × (z.items ≡ l.items ++ info ∷ [])
unfolding store
store_lem info l r n b = (
  record l { items = l.items ++ info ∷ [] },
  ground arith,
  (
    record {
      same_room = r;
      enough = omega (arith, length-append {0} l.items (info ∷ []));
      bounded = omega (arith, length-append {0} l.items (info ∷ []));
    },
    refl,
  ),
)

next_cap_lem :
    (cap : ℕ)
    → cap < 2 ^ 60
    → (cap < next_cap cap)
      × (next_cap cap ≤ 16 + 2 * cap)
      × (mul_size (next_cap cap) 8 / 8 ≡ next_cap cap)
next_cap_lem zero n = (omega arith, omega arith, omega arith)
next_cap_lem (suc cap) n =
    let twice : next_cap (suc cap) ≡ 2 * suc cap = ground arith in
    rw twice (omega arith, omega arith, omega arith)

-- The package is added, or memory is refused and the list stays.
abbrev pub Appended : (ℕ → Bool) → List PackageInfo → PackageList → Type 0
Appended gives all z = HasRoom z × ((z.items ≡ all) ⊎ Refused gives)

pub package_list_append_lem :
    (gives : ℕ → Bool) (info : PackageInfo) (l : PackageList)
    → HasRoom l
    → length l.items < 2 ^ 58
    → Returns
        (package_list_append gives info l)
        λ z. Appended gives (l.items ++ info ∷ []) z × (length z.items ≤ length l.items + 1)
unfolding package_list_append
package_list_append_lem gives info l h n = elim (Bool-cases (length l.items == l.cap)) [
  | inr room ↦
      let (z, e, (g, a)) =
        store_lem info l h.same_room (ground (arith, h.enough)) (omega (arith, h.bounded)) in
      (
        z,
        rw room e,
        ((g, inl a), omega (arith, ap (length {0}) a, length-append {0} l.items (info ∷ []))),
      )
  | inl at_end ↦
      let (larger, bound, fits) = next_cap_lem l.cap (omega (arith, h.bounded)) in
      let next : ℕ = next_cap l.cap in
      let size : ℕ = mul_size next 8 in
      let full : l.cap ≡ length l.items = ground arith in
      elim (Bool-cases (gives size)) [
        | inl given ↦
            let (z, e, (g, a)) =
              store_lem info (record l { cap = next; room = size / 8 }) fits (omega arith)
                (omega arith) in
            (
              z,
              rw (at_end, given) e,
              ((g, inl a), omega (arith, ap (length {0}) a, length-append {0} l.items (info ∷ []))),
            )
        | inr refused ↦ (l, rw (at_end, refused) refl, ((h, inr (size, refused)), omega arith))
      ]
]

abbrev pub put : Option PackageInfo → List PackageInfo → List PackageInfo
put none infos = infos
put (some info) infos = info ∷ infos

pub append_if_lem :
    (gives : ℕ → Bool) (found : Option PackageInfo) (l : PackageList)
    → HasRoom l
    → length l.items < 2 ^ 58
    → Returns
        (append_if gives found l)
        λ z. Appended gives (l.items ++ put found []) z × (length z.items ≤ length l.items + 1)
unfolding append_if
append_if_lem gives none l h n = (l, refl, ((h, inl (sym (append-nil l.items))), omega arith))
append_if_lem gives (some info) l h n = package_list_append_lem gives info l h n

pub put-append :
    (o : Option PackageInfo) (front rest : List PackageInfo)
    → (front ++ put o []) ++ rest ≡ front ++ put o rest
put-append none front rest = ap (λ t. t ++ rest) (append-nil front)
put-append (some info) front rest = append_assoc front (info ∷ []) rest

pub no_packages : (list : List PackageInfo) → length list ≡ 0 → list ≡ []
no_packages [] e = refl
no_packages (x ∷ list) e = absurd (omega arith)

pub empty-HasRoom : HasRoom empty_list
empty-HasRoom = record { same_room = refl; enough = omega arith; bounded = omega arith }
