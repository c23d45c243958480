-- ===== src/Remote/Pages/Answers.antt =====
-- What a page of the catalogue holds, against the answer of the server.
use linyaps_store.Base.{
  Bool-cases, ℕ, ◌^◌, ◌<◌, ◌≡◌, refl, sym, ap, ◌∙◌, Option, none, some, List, [], ◌++◌, true, ◌>>=◌,
  Returns, if◌then◌else◌, length, ◌⊎◌, inl, inr, arith, IsPlenty, Str, codes, ℤ,
}
use mathlib.Core.List.{append-nil}
use linyaps_store.Json.{Json, item_of, number_of, array_of}
use linyaps_store.Remote.Records.{RemoteAppInfo, parse_records_array}
use linyaps_store.Remote.Records.Lists.{parse_records_array_lem}
use linyaps_store.Remote.Records.Parsed.{catalogue, parsed-catalogue}
use linyaps_store.Remote.Pages.{
  Object, Backend, Page, no_page, is_200, total_or_0, read_records, read_data, read_root,
  read_response, send_body, remote_fetch_page,
}

-- Memory is always given.
pub record HasMemory (b : Backend) : Type 0 where
  pub array : (size : ℕ) → b.gives size ≡ true
  pub record_memory : (n : ℕ) → IsPlenty (b.memory n)

abbrev pub and_then {κ ℓ} : {V : Type κ} {W : Type ℓ} → Option V → (V → Option W) → Option W
and_then none next = none
and_then (some v) next = next v

-- A list as it is returned: NULL may stand for the empty one.
abbrev pub IsList : List RemoteAppInfo → Option (List RemoteAppInfo) → Type 0
IsList list p = (p ≡ some list) ⊎ ((p ≡ none) × (list ≡ []))

module _ (j : Json) (b : Backend) where
  open j use {Value, item, parse}

  -- The value of an answer whose `code` is 200.
  abbrev pub accepted : Str → Option Value
  accepted resp =
      and_then (parse resp)
        λ root. if is_200 (number_of j (item root (codes "code"))) then some root else none

  -- The answer to the body `body` at `url`, if there is one and its `code` is 200.
  abbrev pub answer : Str → Option Str → Option Value
  answer url body = and_then body λ text. and_then (b.post url text) accepted

  -- The array of records in the `data` of such an answer, and the `total` there, or 0.
  abbrev pub page_records : Value → Option (List Value × ℤ)
  page_records root =
      let data_item = item root (codes "data") in
      and_then (array_of j (item_of j data_item (codes "records")))
        λ vs. some (vs, total_or_0 (number_of j (item_of j data_item (codes "total"))))

  -- What the server says to a request.
  abbrev pub reply : Str → Option Object → Option (List Value × ℤ)
  reply url req = and_then req λ r. and_then (answer url (b.print_object r)) page_records

  abbrev pub IsPage : Option (List Value × ℤ) → Page → Type 0
  IsPage none p = p ≡ no_page
  IsPage (some (vs, total)) p =
      IsList (catalogue j vs) p.list × (p.count ≡ length (catalogue j vs)) × (p.total ≡ total)

  -- No array is longer than memory is.
  abbrev pub IsShort : Option (List Value × ℤ) → Type 0
  IsShort none = Unit
  IsShort (some (vs, total)) = length vs < 2 ^ 58

  -- With memory, all records are there.
  pub parse_records_array-catalogue :
      (vs : List Value)
      → HasMemory b
      → length vs < 2 ^ 58
      → Returns
          (parse_records_array j b.gives b.memory vs)
          λ r. IsList (catalogue j vs) r.0 × (r.1 ≡ length (catalogue j vs))
  parse_records_array-catalogue vs m n =
      let (r, e, (list, (rest, front, whole), count, p)) =
        parse_records_array_lem j b.gives b.memory vs n in
      let nothing_left : rest ≡ [] = elim whole [
        | inl w ↦ w
        | inr (size, refused) ↦ absurd (ground (arith, m.array size))
      ] in
      let all : list ≡ catalogue j vs =
        sym (append-nil list)
        ∙ ap (λ t. list ++ t) (sym nothing_left)
        ∙ sym front
        ∙ parsed-catalogue j b.memory vs m.record_memory in
      (r, e, (rw (← all) p, rw (← all) count))

  read_records_lem :
      (found : Option (List Value)) (total : ℤ)
      → HasMemory b
      → IsShort (and_then found λ vs. some (vs, total))
      → Returns (read_records j b found total) (IsPage (and_then found λ vs. some (vs, total)))
  unfolding read_records
  read_records_lem none total m n = (no_page, refl, refl)
  read_records_lem (some vs) total m n =
      let (r, e, (list, count)) = parse_records_array-catalogue vs m n in
      (record { list = r.0; count = r.1; total = total }, rw (e, ◌>>=◌) refl, (list, count, refl))

  read_root_lem :
      (root : Option Value)
      → HasMemory b
      → IsShort (
          and_then
            (and_then root
              λ r. if is_200 (number_of j (item r (codes "code"))) then some r else none)
            page_records)
      → Returns (read_root j b root) (
          IsPage (
            and_then
              (and_then root
                λ r. if is_200 (number_of j (item r (codes "code"))) then some r else none)
              page_records))
  unfolding read_root read_data
  read_root_lem none m n = (no_page, refl, refl)
  read_root_lem (some root) m n =
      elim (Bool-cases (is_200 (number_of j (item root (codes "code"))))) [
        | inl good ↦ rw good (read_records_lem _ _ m (rw good at n))
        | inr bad ↦ rw bad (no_page, refl, refl)
      ]

  -- Where memory is always given, `remote_fetch_page` ends normally. If there is a request and the
  -- server answers it with a JSON value whose `code` is 200 and whose `data` has an array `records`,
  -- it returns the records that have an `appId`, in their order, each with the fields that the table
  -- `described` names, their number, and the `total` of `data`, or 0 if that is no number; on every
  -- other answer, and where there is none, it returns NULL, 0 and 0. The array has less than 2 ^ 58
  -- items.
  pub remote_fetch_page_lem :
      (req : Option Object) (url : Str)
      → HasMemory b
      → IsShort (reply url req)
      → Returns (remote_fetch_page j b req url) (IsPage (reply url req))
  unfolding remote_fetch_page
  remote_fetch_page_lem none url m n = (no_page, refl, refl)
  remote_fetch_page_lem (some req) url m n = send_body_lem (b.print_object req) n
    where
      read_response_lem :
          (resp : Option Str)
          → IsShort (and_then (and_then resp accepted) page_records)
          → Returns
              (read_response j b resp)
              (IsPage (and_then (and_then resp accepted) page_records))
      read_response_lem none n = (no_page, refl, refl)
      read_response_lem (some resp) n = read_root_lem (parse resp) m n

      send_body_lem :
          (body : Option Str)
          → IsShort (and_then (answer url body) page_records)
          → Returns (send_body j b body url) (IsPage (and_then (answer url body) page_records))
      send_body_lem none n = (no_page, refl, refl)
      send_body_lem (some body) n = read_response_lem (b.post url body) n
