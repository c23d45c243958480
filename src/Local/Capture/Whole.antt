-- ===== src/Local/Capture/Whole.antt =====
-- run_command_capture gives the whole output of a command, within its buffer.
use mathlib.Core.List.{append_assoc}
use linyaps_store.Base.{
  ℕ, ◌+◌, ◌^◌, ◌≤◌, ◌<◌, ◌≡◌, refl, ap, ◌∙◌, Option, none, some, List, [], ◌∷◌, ◌++◌, Bool, false,
  Run, ok, Returns, ltb, mul_size, length, length-append, Bool-cases, ◌⊎◌, inl, inr, arith, Str,
}
use linyaps_store.Local.Capture.{
  c_string, terminate, Reading, After, done, failed, more, after_reading, no_memory, of_size,
  ensure, finish, fill, capture, run_command_capture,
}

abbrev pub Refused : (ℕ → Bool) → Type 0
Refused gives = (size : ℕ) × (gives size ≡ false)

abbrev pub after : Reading → After
after r = after_reading (length r.bytes) r.at_eof r.error

-- The bytes up to the end of the pipe; none if an error is reported first.
abbrev pub joined : After → List ℕ → Option (List ℕ) → Option (List ℕ)
joined done bytes rest = some bytes
joined failed bytes rest = none
joined more bytes none = none
joined more bytes (some rest) = some (bytes ++ rest)

unfoldable pub output : List Reading → Option (List ℕ)
output [] = none
output (r ∷ rs) = joined (after r) r.bytes (output rs)

-- The readings are as many as it takes to see the end or an error, each of 4096 bytes at most.
abbrev pub Continues : After → Type 0 → Type 0
Continues done Rest = Unit
Continues failed Rest = Unit
Continues more Rest = Rest

abbrev pub AreReadings : List Reading → Type 0
AreReadings [] = ⊥
AreReadings (r ∷ rs) = (length r.bytes ≤ 4096) × Continues (after r) (AreReadings rs)

abbrev pub total : List Reading → ℕ
total [] = 0
total (r ∷ rs) = length r.bytes + total rs

abbrev pub text_after : List ℕ → Option (List ℕ) → Option Str
text_after front none = none
text_after front (some rest) = some (c_string (front ++ rest))

-- The text of the output, or NULL where memory is refused.
abbrev pub Captured : (ℕ → Bool) → List ℕ → List Reading → Option Str → Type 0
Captured gives front rs o = (o ≡ text_after front (output rs)) ⊎ ((o ≡ none) × Refused gives)

ensure_lem :
    (gives : ℕ → Bool) (len cap : ℕ)
    → len < 2 ^ 62
    → len < cap
    → 8192 ≤ cap
    → ((ensure gives len cap ≡ no_memory) × Refused gives)
      ⊎ ((size : ℕ) × (ensure gives len cap ≡ of_size size) × (len + 4096 < size) × (8192 ≤ size))
unfolding ensure
ensure_lem gives len cap n l c = elim (Bool-cases (ltb cap (len + 4096 + 1))) [
  | inr room ↦ inr (cap, rw room refl, ground arith, c)
  | inl short ↦ elim (Bool-cases (gives (mul_size cap 2))) [
    | inl given ↦ inr (mul_size cap 2, rw (short, given) refl, ground arith, ground arith)
    | inr refused ↦ inl (rw (short, refused) refl, (mul_size cap 2, refused))
  ]
]

terminate_lem :
    (size : ℕ) (bytes : List ℕ)
    → length bytes < size
    → terminate size bytes ≡ ok (some (c_string bytes))
unfolding terminate
terminate_lem size bytes l = ground arith

text_after-joined :
    (front new : List ℕ) (rest : Option (List ℕ))
    → text_after (front ++ new) rest ≡ text_after front (joined more new rest)
text_after-joined front new none = refl
text_after-joined front new (some rest) = ap (λ t. some (c_string t)) (append_assoc front new rest)

-- One reading, and then what the rest of the loop gives.
finish_lem :
    (gives : ℕ → Bool) (e : After) (cap : ℕ) (front new : List ℕ) (rs : List Reading)
    (again : Run (Option Str))
    → length (front ++ new) < cap
    → Continues e (Returns again (Captured gives (front ++ new) rs))
    → Returns
        (finish e cap (front ++ new) again)
        λ o. (o ≡ text_after front (joined e new (output rs))) ⊎ ((o ≡ none) × Refused gives)
unfolding finish
finish_lem gives done cap front new rs again l h =
    (some (c_string (front ++ new)), terminate_lem cap (front ++ new) l, inl refl)
finish_lem gives failed cap front new rs again l h = (none, refl, inl refl)
finish_lem gives more cap front new rs again l (o, e, v) = (o, e, told v)
  where
    told :
        Captured gives (front ++ new) rs o
        → (o ≡ text_after front (joined more new (output rs))) ⊎ ((o ≡ none) × Refused gives)
    told (inl w) = inl (w ∙ text_after-joined front new (output rs))
    told (inr w) = inr w

map_Continues : (e : After) {A B : Type 0} → (A → B) → Continues e A → Continues e B
map_Continues done f h = tt
map_Continues failed f h = tt
map_Continues more f h = f h

capture_lem :
    (gives : ℕ → Bool) (rs : List Reading) (cap : ℕ) (bytes : List ℕ)
    → AreReadings rs
    → length bytes + total rs < 2 ^ 62
    → length bytes < cap
    → 8192 ≤ cap
    → Returns (capture gives rs cap bytes) (Captured gives bytes rs)
unfolding capture output fill
capture_lem gives [] cap bytes a n l c = absurd a
capture_lem gives (r ∷ rs) cap bytes a n l c =
    elim (ensure_lem gives (length bytes) cap (omega arith) l c) [
      | inl (e, refused) ↦ (none, rw (e, fill) refl, inr (refl, refused))
      | inr (size, e, room, large) ↦
          rw (e, fill, enough size room)
            (finish_lem gives (after r) size bytes r.bytes rs
              (capture gives rs size (bytes ++ r.bytes)) (fits size room)
              (map_Continues (after r)
                (λ v. capture_lem gives rs size (bytes ++ r.bytes) v shorter (fits size room) large)
                a.1))
    ]
  where
    enough : (size : ℕ) → length bytes + 4096 < size → ltb size (length bytes + 4096) ≡ false
    enough size h = ground arith

    fits : (size : ℕ) → length bytes + 4096 < size → length (bytes ++ r.bytes) < size
    fits size h = omega (arith, length-append {0} bytes r.bytes)

    shorter : length (bytes ++ r.bytes) + total rs < 2 ^ 62
    shorter = omega (arith, length-append {0} bytes r.bytes)

-- `run_command_capture`, on a pipe that is read until its end or an error is seen, each `fread`
-- giving at most 4096 bytes and all of them less than 2 ^ 62, ends normally, and no `fread` can
-- write past the buffer. It returns the text of all bytes up to the end of the pipe, whatever their
-- number, and NULL if an error is seen first; or NULL where memory is refused.
pub run_command_capture_lem :
    (gives : ℕ → Bool) (rs : List Reading)
    → AreReadings rs
    → total rs < 2 ^ 62
    → Returns (run_command_capture gives (some rs)) (Captured gives [] rs)
unfolding run_command_capture
run_command_capture_lem gives rs a n = elim (Bool-cases (gives 8192)) [
  | inl given ↦ rw given (capture_lem gives rs 8192 [] a (omega arith) (omega arith) (omega arith))
  | inr refused ↦ (none, rw refused refl, inr (refl, (8192, refused)))
]
