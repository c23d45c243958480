-- ===== src/Remote/Buffer/Appends.antt =====
-- The buffer has the bytes that it was given, ended by a NUL.
use mathlib.Core.List.{append_assoc}
use linyaps_store.Base.{
  ℕ, zero, suc, ◌+◌, ◌-◌, ◌^◌, ◌≤◌, ◌<◌, ◌≡◌, refl, ap, ◌∙◌, List, [], ◌∷◌, ◌++◌, false, ok, ◌>>=◌,
  Returns, ltb, length, length-append, replicate, length-replicate, add_size, Bool-cases, ◌⊎◌, inl,
  inr, arith,
}
use linyaps_store.Remote.Buffer.{
  CurlBuf, Realloc, write_at, grow, append, append_if, enlarge, curl_write_cb,
}
use linyaps_store.Remote.Buffer.Growth.{double_until_enough}

-- `memcpy` within the cells: what stands before stays, and so does what stands behind.
write_at_lem :
    (before old bytes rest : List ℕ)
    → length old ≡ length bytes
    → write_at (before ++ (old ++ rest)) (length before) bytes ≡ ok (before ++ (bytes ++ rest))
unfolding write_at
write_at_lem [] [] [] rest e = refl
write_at_lem [] [] (b ∷ bytes) rest e = absurd (omega arith)
write_at_lem [] (x ∷ old) [] rest e = absurd (omega arith)
write_at_lem [] (x ∷ old) (b ∷ bytes) rest e =
    rw (write_at_lem [] old bytes rest (omega arith), ◌>>=◌) refl
write_at_lem (x ∷ before) old bytes rest e = rw (write_at_lem before old bytes rest e, ◌>>=◌) refl

-- The cells are all the memory; the bytes written stand at the front, and a NUL behind them unless
-- there is no memory yet.
pub record HasBytes (cb : CurlBuf) (bytes : List ℕ) : Type 0 where
  pub cap_length : cb.cap ≡ length cb.buf
  pub len_length : cb.len ≡ length bytes
  pub cells : (cb.buf ≡ [] × (bytes ≡ [])) ⊎ ((rest : List ℕ) × (cb.buf ≡ bytes ++ 0 ∷ rest))

split_at :
    (n : ℕ) (cells : List ℕ)
    → n < length cells
    → (old : List ℕ) × (z : ℕ) × (rest : List ℕ) × (cells ≡ old ++ z ∷ rest) × (length old ≡ n)
split_at n [] l = absurd (omega arith)
split_at zero (x ∷ cells) l = ([], x, cells, refl, refl)
split_at (suc n) (x ∷ cells) l =
    let (old, z, rest, e, m) = split_at n cells (omega arith) in
    (x ∷ old, z, rest, ap (λ r. x ∷ r) e, omega (arith, m))

length-add_size :
    (bytes new : List ℕ)
    → length bytes + length new + 1 ≤ 2 ^ 63
    → add_size (length bytes) (length new) ≡ length (bytes ++ new)
length-add_size bytes new n = omega (arith, length-append bytes new)

append_cells :
    (bytes new old rest : List ℕ) (z cap : ℕ)
    → length old ≡ length new
    → length bytes + length new + 1 ≤ 2 ^ 63
    → append (record { buf = bytes ++ (old ++ z ∷ rest); len = length bytes; cap = cap }) new
      ≡ ok (
        length new,
        record { buf = (bytes ++ new) ++ 0 ∷ rest; len = length (bytes ++ new); cap = cap },
      )
unfolding append
append_cells bytes new old rest z cap m n =
    rw (write_at_lem bytes old new (z ∷ rest) m, ◌>>=◌, length-add_size bytes new n)
      (rw (← append_assoc bytes new (z ∷ rest))
        (rw (write_at_lem (bytes ++ new) (z ∷ []) (0 ∷ []) rest refl, ◌>>=◌) refl))

append_lem :
    (cb : CurlBuf) (bytes new tail : List ℕ)
    → cb.buf ≡ bytes ++ tail
    → cb.len ≡ length bytes
    → cb.cap ≡ length cb.buf
    → length new < length tail
    → length bytes + length new + 1 ≤ 2 ^ 63
    → (after : CurlBuf) × (append cb new ≡ ok (length new, after)) × HasBytes after (bytes ++ new)
append_lem cb bytes new tail same_cells same_len full l n =
    let (old, z, rest, e, m) = split_at (length new) tail l in
    let whole : cb.buf ≡ bytes ++ (old ++ z ∷ rest) = same_cells ∙ ap (λ t. bytes ++ t) e in
    (
      record { buf = (bytes ++ new) ++ 0 ∷ rest; len = length (bytes ++ new); cap = cb.cap },
      ap (λ b. append b new) (λ i. record { buf = whole i; len = same_len i; cap = cb.cap })
          ∙ append_cells bytes new old rest z cb.cap m n,
      record {
        cap_length = omega (
          arith,
          full,
          ap (length {0}) whole,
          length-append {0} bytes (old ++ z ∷ rest),
          length-append {0} old (z ∷ rest),
          length-append {0} bytes new,
          length-append {0} (bytes ++ new) (0 ∷ rest),
          m,
        );
        len_length = refl;
        cells = inr (rest, refl);
      },
    )

-- The cells behind the bytes.
tail_of :
    {cb : CurlBuf} {bytes : List ℕ}
    → HasBytes cb bytes
    → (tail : List ℕ) × (cb.buf ≡ bytes ++ tail) × (length bytes + length tail ≡ cb.cap)
tail_of {cb} {bytes} h = elim h.cells [
  | inl (e, f) ↦ ([], rw (e, f), omega (arith, h.cap_length, ap (length {0}) e, ap (length {0}) f))
  | inr (rest, e) ↦ (
    0 ∷ rest,
    e,
    omega (arith, h.cap_length, ap (length {0}) e, length-append {0} bytes (0 ∷ rest)),
  )
]

need_lem : (len n : ℕ) → len + n + 1 ≤ 2 ^ 63 → add_size (add_size len n) 1 ≡ len + n + 1
need_lem len n h = omega arith

-- What `curl_write_cb` gives: the bytes are added, or memory is refused and nothing is.
abbrev pub Written : Realloc → CurlBuf → List ℕ → List ℕ → ℕ × CurlBuf → Type 0
Written m cb bytes new (n, after) =
    ((n ≡ length new) × HasBytes after (bytes ++ new))
    ⊎ ((n ≡ 0) × (after ≡ cb) × ((size : ℕ) × (m.gives size ≡ false)))

enlarge_lem :
    (m : Realloc) (cb : CurlBuf) (bytes new : List ℕ) (need : ℕ)
    → HasBytes cb bytes
    → cb.cap < need
    → need ≡ length bytes + length new + 1
    → need ≤ 2 ^ 63
    → Returns (enlarge m cb need new) (Written m cb bytes new)
unfolding enlarge append_if grow
enlarge_lem m cb bytes new need h l e n =
    let (newcap, run, (enough, larger)) = double_until_enough cb.cap need l n in
    let (tail, same_cells, fits) = tail_of h in
    let more : List ℕ = replicate (newcap - length cb.buf) m.unknown in
    let length_more : length more ≡ newcap - length cb.buf = length-replicate _ m.unknown in
    elim (Bool-cases (m.gives newcap)) [
      | inl given ↦
          let (after, r, v) =
            append_lem (grow m cb newcap) bytes new (tail ++ more)
              (ap (λ b. b ++ more) same_cells ∙ append_assoc bytes tail more) h.len_length
              (omega (arith, length-append {0} cb.buf more, length_more, h.cap_length))
              (omega (arith, length-append {0} tail more, length_more, h.cap_length))
              (omega arith) in
          ((length new, after), rw (run, ◌>>=◌, given) r, inl (refl, v))
      | inr refused ↦ ((0, cb), rw (run, ◌>>=◌, refused) refl, inr (refl, refl, (newcap, refused)))
    ]

-- `curl_write_cb` ends normally on every chunk that keeps the response below 2 ^ 63 bytes: the
-- doubling loop ends and no cell outside the memory is written. It adds the chunk and a NUL behind
-- it and returns the length of the chunk; or `realloc` has refused memory, and it returns 0 and
-- leaves the buffer as it was.
pub curl_write_cb_lem :
    (m : Realloc) (cb : CurlBuf) (bytes new : List ℕ)
    → HasBytes cb bytes
    → length bytes + length new + 1 ≤ 2 ^ 63
    → Returns (curl_write_cb m new cb) (Written m cb bytes new)
unfolding curl_write_cb
curl_write_cb_lem m cb bytes new h n =
    let (tail, same_cells, fits) = tail_of h in
    let need : add_size (add_size cb.len (length new)) 1 ≡ length bytes + length new + 1 =
      rw h.len_length (need_lem (length bytes) (length new) n) in
    elim (Bool-cases (ltb cb.cap (add_size (add_size cb.len (length new)) 1))) [
      | inr room ↦
          let (after, e, v) =
            append_lem cb bytes new tail same_cells h.len_length h.cap_length
              (ground (arith, need, fits)) n in
          ((length new, after), rw room e, inl (refl, v))
      | inl short ↦ rw short (
          enlarge_lem m cb bytes new (add_size (add_size cb.len (length new)) 1) h (ground arith)
            need (omega (arith, need)))
    ]
