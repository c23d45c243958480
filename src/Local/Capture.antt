-- ===== src/Local/Capture.antt =====
-- lib/linyaps_local.c: read_file_contents and run_command_capture. A buffer is its size and the
-- bytes read so far, since each function appends only; the strings that they return end at the
-- first NUL. What `fread` gives is an argument.
pub mod Whole
use linyaps_store.Base.{
  ℕ, zero, suc, ◌+◌, ◌++◌, Option, none, some, List, [], ◌∷◌, Bool, true, false, if◌then◌else◌, ltb,
  ◌==◌, mul_size, Run, fault, out_of_bounds, no_fuel, ok, ◌>>=◌, Str, ℤ, pos, negsuc, length,
}

-- The string in a buffer that ends with a NUL.
pub c_string : List ℕ → Str
c_string [] = []
c_string (c ∷ cs) = let rest = c ∷ c_string cs in if c == 0 then [] else rest

-- An open file: what `ftell` says at its end, and the bytes that `fread` then gives.
pub record File : Type 0 where
  pub file_size : ℤ
  pub bytes : List ℕ

-- `buf[len] = '\0'` and the string
pub terminate : ℕ → List ℕ → Run (Option Str)
terminate size bytes =
    if ltb (length bytes) size then ok (some (c_string bytes)) else fault out_of_bounds

-- `fread` writes no more than it is asked for, which is `file_size` bytes.
pub read_file : (gives : ℕ → Bool) → ℤ → List ℕ → Run (Option Str)
unfolding terminate
read_file gives (pos zero) bytes = ok none
read_file gives (negsuc n) bytes = ok none
read_file gives (pos (suc n)) bytes =
    if gives (suc n + 1) then terminate (suc n + 1) bytes else ok none

unfoldable pub read_file_contents : (gives : ℕ → Bool) → Option File → Run (Option Str)
unfolding read_file
read_file_contents gives none = ok none
read_file_contents gives (some f) = read_file gives f.file_size f.bytes

-- One call `fread(buf + len, 1, 4096, fp)`: its bytes, and what feof and ferror say after it.
pub record Reading : Type 0 where
  pub bytes : List ℕ
  pub at_eof : Bool
  pub error : Bool

-- How the loop goes on after a call: it ends, it gives up, or it reads again.
pub data After : Type 0 where
  done failed more : After

unfoldable pub after_reading : ℕ → Bool → Bool → After
after_reading n at_eof error =
    if ltb n 4096 then (if at_eof then done else if error then failed else more) else more

-- `if (len + 4096 + 1 > capbuf) { capbuf *= 2; ... }`
pub data Buffer : Type 0 where
  no_memory : Buffer
  of_size : ℕ → Buffer

pub ensure : (gives : ℕ → Bool) → ℕ → ℕ → Buffer
ensure gives len cap =
    if ltb cap (len + 4096 + 1)
    then (if gives (mul_size cap 2) then of_size (mul_size cap 2) else no_memory)
    else of_size cap

pub finish : After → ℕ → List ℕ → Run (Option Str) → Run (Option Str)
unfolding terminate
finish done cap bytes again = terminate cap bytes
finish failed cap bytes again = ok none
finish more cap bytes again = again

-- `fread` may write 4096 bytes from `buf + len` on.
pub fill : Buffer → List ℕ → Reading → (ℕ → List ℕ → Run (Option Str)) → Run (Option Str)
unfolding finish after_reading
fill no_memory bytes r again = ok none
fill (of_size cap) bytes r again =
    if ltb cap (length bytes + 4096)
    then fault out_of_bounds
    else finish (after_reading (length r.bytes) r.at_eof r.error) cap (bytes ++ r.bytes)
        (again cap (bytes ++ r.bytes))

-- The loop over the readings of the pipe, which are given for as long as it is read.
pub capture : (gives : ℕ → Bool) → List Reading → ℕ → List ℕ → Run (Option Str)
unfolding ensure fill
capture gives [] cap bytes = fault no_fuel
capture gives (r ∷ rs) cap bytes = fill (ensure gives (length bytes) cap) bytes r (capture gives rs)

-- The readings of the pipe, if `popen` opens one.
unfoldable pub run_command_capture : (gives : ℕ → Bool) → Option (List Reading) → Run (Option Str)
unfolding capture
run_command_capture gives none = ok none
run_command_capture gives (some rs) = if gives 8192 then capture gives rs 8192 [] else ok none
