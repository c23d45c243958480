-- ===== src/Remote/Records/Lists.antt =====
-- parse_records_array builds its list within its memory.
use mathlib.Core.List.{append_assoc}
use linyaps_store.Base.{
  ℕ, zero, suc, ◌+◌, ◌*◌, ◌/◌, ◌^◌, ◌≤◌, ◌<◌, ◌≡◌, refl, sym, ap, ◌∙◌, Option, none, some, List, [],
  ◌∷◌, ◌++◌, Bool, true, false, Run, ok, ◌>>=◌, Returns, ltb, ◌==◌, if◌then◌else◌, mul_size, length,
  length-append, Bool-cases, Option-cases, ◌⊎◌, inl, inr, arith, Allocator,
}
use linyaps_store.Json.{Json}
use linyaps_store.Remote.Records.{
  RemoteAppInfo, Listing, empty_listing, next_cap, store_record, add_record, list_pointer,
  parse_record, parse_later, parse_items, parse_records_array,
}

-- `realloc` refuses some size.
abbrev pub Refused : (ℕ → Bool) → Type 0
Refused gives = (size : ℕ) × (gives size ≡ false)

-- The memory has room for `cap` elements, and `cap` is at most twice what is needed.
pub record HasRoom (s : Listing) : Type 0 where
  pub same_room : s.room ≡ s.cap
  pub enough : length s.list ≤ s.cap
  pub bounded : s.cap ≤ 32 + 2 * length s.list

abbrev Added : (ℕ → Bool) → RemoteAppInfo → Listing → Bool × Listing → Type 0
Added gives info s (more, t) =
    ((more ≡ true) × (t.list ≡ s.list ++ info ∷ []) × HasRoom t)
    ⊎ ((more ≡ false) × (t.list ≡ s.list) × (t.room ≡ s.room) × Refused gives)

store_record_lem :
    (gives : ℕ → Bool) (info : RemoteAppInfo) (s u : Listing)
    → u.list ≡ s.list
    → u.room ≡ u.cap
    → length u.list < u.cap
    → u.cap ≤ 34 + 2 * length u.list
    → Returns (store_record info u) (Added gives info s)
unfolding store_record
store_record_lem gives info s u e r l b = (
  (true, record u { list = u.list ++ info ∷ [] }),
  ground arith,
  inl (
    refl,
    ap (λ t. t ++ info ∷ []) e,
    record {
      same_room = r;
      enough = omega (arith, length-append {0} u.list (info ∷ []));
      bounded = omega (arith, length-append {0} u.list (info ∷ []));
    },
  ),
)

next_cap_lem :
    (cap : ℕ)
    → cap < 2 ^ 60
    → (cap < next_cap cap)
      × (next_cap cap ≤ 32 + 2 * cap)
      × (mul_size (next_cap cap) 8 / 8 ≡ next_cap cap)
next_cap_lem zero n = (omega arith, omega arith, omega arith)
next_cap_lem (suc cap) n =
    let twice : next_cap (suc cap) ≡ 2 * suc cap = ground arith in
    rw twice (omega arith, omega arith, omega arith)

add_record_lem :
    (gives : ℕ → Bool) (info : RemoteAppInfo) (s : Listing)
    → HasRoom s
    → length s.list < 2 ^ 58
    → Returns (add_record gives info s) (Added gives info s)
unfolding add_record
add_record_lem gives info s h n = elim (Bool-cases (ltb (length s.list) s.cap)) [
  | inl room ↦
      rw room
        (store_record_lem gives info s s refl h.same_room (ground arith) (omega (arith, h.bounded)))
  | inr at_end ↦
      let (larger, bound, fits) = next_cap_lem s.cap (omega (arith, h.bounded)) in
      let cap : ℕ = next_cap s.cap in
      let size : ℕ = mul_size cap 8 in
      let full : s.cap ≡ length s.list = ground (arith, h.enough) in
      elim (Bool-cases (gives size)) [
        | inl given ↦
            rw (at_end, given)
              (store_record_lem gives info s (record s { cap = cap; room = size / 8 }) refl fits
                (omega arith) (omega arith))
        | inr refused ↦ (
          (false, record s { cap = cap }),
          rw (at_end, refused) refl,
          inr (refl, refl, refl, (size, refused)),
        )
      ]
]

no_elements : (list : List RemoteAppInfo) → length list ≡ 0 → list ≡ []
no_elements [] e = refl
no_elements (x ∷ list) e = absurd (omega arith)

pointer_of :
    (s : Listing)
    → length s.list ≤ s.room
    → (list_pointer s ≡ some s.list) ⊎ ((list_pointer s ≡ none) × (s.list ≡ []))
unfolding list_pointer
pointer_of s room = elim (Bool-cases (s.room == 0)) [
  | inl e ↦ inr (rw e refl, no_elements s.list (ground arith))
  | inr e ↦ inl (rw e refl)
]

empty-HasRoom : HasRoom empty_listing
empty-HasRoom = record { same_room = refl; enough = omega arith; bounded = omega arith }

abbrev pub put : Option RemoteAppInfo → List RemoteAppInfo → List RemoteAppInfo
put none infos = infos
put (some info) infos = info ∷ infos

-- A front of the records, and all of them unless memory is refused.
abbrev pub IsFront : (ℕ → Bool) → List RemoteAppInfo → List RemoteAppInfo → Type 0
IsFront gives all list =
    (rest : List RemoteAppInfo) × (all ≡ list ++ rest) × ((rest ≡ []) ⊎ Refused gives)

module _ (j : Json) where
  -- The records of the array that parse_record accepts, in their order.
  unfoldable pub parsed : (ℕ → Allocator) → List j.Value → List RemoteAppInfo
  parsed memory [] = []
  parsed memory (v ∷ vs) = put (parse_record j (memory (length vs)) v) (parsed memory vs)

  -- The rest of the loop after a record is stored, or after the code leaves the loop.
  after_add :
      (gives : ℕ → Bool) (info : RemoteAppInfo) (later : List RemoteAppInfo) (s t : Listing)
      (more : Bool) (rest : Listing → Run Listing)
      → HasRoom s
      → Added gives info s (more, t)
      → (HasRoom t
          → t.list ≡ s.list ++ info ∷ []
          → Returns (rest t) λ z. IsFront gives (t.list ++ later) z.list × (length z.list ≤ z.room))
      → Returns
          (if more then rest t else ok t)
          λ z. IsFront gives (s.list ++ info ∷ later) z.list × (length z.list ≤ z.room)
  after_add gives info later s t more rest h (inl (m, l, g)) go =
      let (z, r, ((left, e, d), room)) = go g l in
      rw m (
        z,
        r,
        (
          (left, sym (append_assoc s.list (info ∷ []) later) ∙ ap (λ q. q ++ later) (sym l) ∙ e, d),
          room,
        ),
      )
  after_add gives info later s t more rest h (inr (m, l, r, refused)) go = rw m (
    t,
    refl,
    (
      (info ∷ later, ap (λ q. q ++ info ∷ later) (sym l), inr refused),
      omega (arith, ap (length {0}) l, h.enough, h.same_room),
    ),
  )

  parse_items_lem :
      (gives : ℕ → Bool) (memory : ℕ → Allocator) (vs : List j.Value) (s : Listing)
      → HasRoom s
      → length s.list + length vs < 2 ^ 58
      → Returns
          (parse_items j gives memory vs s)
          λ t. IsFront gives (s.list ++ parsed memory vs) t.list × (length t.list ≤ t.room)
  unfolding parse_items parsed
  parse_items_lem gives memory [] s h n =
      (s, refl, (([], refl, inl refl), omega (arith, h.enough, h.same_room)))
  parse_items_lem gives memory (v ∷ vs) s h n =
      elim (Option-cases (parse_record j (memory (length vs)) v)) [
        | inl e ↦ rw (e, parse_later) (parse_items_lem gives memory vs s h (omega arith))
        | inr (info, e) ↦
            let ((more, t), run, added) = add_record_lem gives info s h (omega arith) in
            rw (e, parse_later, run, ◌>>=◌)
              (after_add gives info (parsed memory vs) s t more (parse_items j gives memory vs) h
                added
                (λ g l.
                  parse_items_lem gives memory vs t g
                    (omega (arith, ap (length {0}) l, length-append {0} s.list (info ∷ [])))))
      ]

  -- With whatever memory, `parse_records_array` writes within its array, and gives a front of the
  -- records that parse_record accepts, in their order, with its length; all of them unless
  -- `realloc` has refused memory; and NULL only with the count 0. The array has less than 2 ^ 58
  -- items.
  pub parse_records_array_lem :
      (gives : ℕ → Bool) (memory : ℕ → Allocator) (vs : List j.Value)
      → length vs < 2 ^ 58
      → Returns (parse_records_array j gives memory vs) λ r.
        (list : List RemoteAppInfo) × IsFront gives (parsed memory vs) list
        × (r.1 ≡ length list)
        × ((r.0 ≡ some list) ⊎ ((r.0 ≡ none) × (list ≡ [])))
  unfolding parse_records_array
  parse_records_array_lem gives memory vs n =
      let (s, e, (front, room)) =
        parse_items_lem gives memory vs empty_listing empty-HasRoom (omega arith) in
      (
        (list_pointer s, length s.list),
        rw (e, ◌>>=◌) refl,
        (s.list, front, refl, pointer_of s room),
      )
