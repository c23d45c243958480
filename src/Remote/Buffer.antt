-- ===== src/Remote/Buffer.antt =====
-- lib/linyaps_remote.c: CurlBuf and curl_write_cb, which gathers the bytes of a response. The
-- memory behind `buf` is its cells; `realloc` keeps the old ones and adds cells of unknown content,
-- or returns NULL. A `size_t` wraps at 2 ^ 64.
pub mod Growth
pub mod Appends
use linyaps_store.Base.{
  ℕ, zero, suc, ◌+◌, ◌-◌, List, [], ◌∷◌, ◌++◌, Bool, true, false, Run, fault, out_of_bounds,
  no_fuel, ok, ◌>>=◌, ltb, ◌==◌, if◌then◌else◌, length, replicate, add_size, mul_size,
}

pub record CurlBuf : Type 0 where
  pub buf : List ℕ
  pub len : ℕ
  pub cap : ℕ

-- `CurlBuf resp = {NULL, 0, 0};`
abbrev pub empty_buf : CurlBuf
empty_buf = record { buf = []; len = 0; cap = 0 }

-- `realloc` as the code uses it: for which sizes it returns memory, and what is in a new cell.
pub record Realloc : Type 0 where
  pub gives : ℕ → Bool
  pub unknown : ℕ

-- `while (newcap < cb->len + n + 1) newcap *= 2;`
pub double_until : ℕ → ℕ → ℕ → Run ℕ
double_until zero need newcap = fault no_fuel
double_until (suc fuel) need newcap =
    let more = double_until fuel need (mul_size newcap 2) in
    if ltb newcap need then more else ok newcap

-- A `size_t` is doubled 64 times at most before it is 0.
abbrev pub doublings : ℕ
doublings = 64

abbrev pub first_newcap : ℕ → ℕ
first_newcap cap = if cap == 0 then 4096 else mul_size cap 2

-- `memcpy` to the cells from the i-th on
pub write_at : List ℕ → ℕ → List ℕ → Run (List ℕ)
write_at cells zero [] = ok cells
write_at [] i (b ∷ bs) = fault out_of_bounds
write_at (c ∷ cells) zero (b ∷ bs) = write_at cells zero bs >>= λ r. ok (b ∷ r)
write_at [] (suc i) bs = fault out_of_bounds
write_at (c ∷ cells) (suc i) bs = write_at cells i bs >>= λ r. ok (c ∷ r)

-- `realloc(cb->buf, newcap)` where `newcap` is larger
pub grow : Realloc → CurlBuf → ℕ → CurlBuf
grow m cb newcap = record cb {
  buf = cb.buf ++ replicate (newcap - length cb.buf) m.unknown;
  cap = newcap;
}

pub append : CurlBuf → List ℕ → Run (ℕ × CurlBuf)
append cb bytes = do
  copied ← write_at cb.buf cb.len bytes
  let len = add_size cb.len (length bytes)
  ended ← write_at copied len (0 ∷ [])
  ok (length bytes, record cb { buf = ended; len = len })

append_if : Bool → Realloc → CurlBuf → ℕ → List ℕ → Run (ℕ × CurlBuf)
append_if true m cb newcap bytes = append (grow m cb newcap) bytes
append_if false m cb newcap bytes = ok (0, cb)

enlarge : Realloc → CurlBuf → ℕ → List ℕ → Run (ℕ × CurlBuf)
unfolding append_if
enlarge m cb need bytes = do
  newcap ← double_until (suc doublings) need (first_newcap cb.cap)
  append_if (m.gives newcap) m cb newcap bytes

-- The callback on `size * nmemb` bytes; libcurl takes a result other than that for an error.
pub curl_write_cb : Realloc → List ℕ → CurlBuf → Run (ℕ × CurlBuf)
unfolding enlarge append
curl_write_cb m bytes cb =
    let need = add_size (add_size cb.len (length bytes)) 1 in
    if ltb cb.cap need then enlarge m cb need bytes else append cb bytes
