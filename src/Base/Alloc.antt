-- ===== src/Base/Alloc.antt =====
-- The C allocator, which the code checks for failure: which requests of one operation succeed.
use Prim.Native.Nat.{ℕ, ◌*◌, ◌<◌, ◌^◌}
use mathlib.Core.Bool.{Bool, true}
use mathlib.Core.List.{List}
use mathlib.Core.Path.{◌≡◌}

pub record Allocator : Type 0 where
  -- `calloc(n, size)` returns memory
  pub calloc : ℕ → ℕ → Bool
  -- the n-th `strdup` of the operation returns memory
  pub strdup : ℕ → List ℕ → Bool
  -- `calloc` refuses a request whose size wraps
  pub calloc_fits : (n size : ℕ) → calloc n size ≡ true → n * size < 2 ^ 64

-- Every request that is within reach succeeds.
pub record IsPlenty (a : Allocator) : Type 0 where
  pub array : (n size : ℕ) → n * size < 2 ^ 64 → a.calloc n size ≡ true
  pub copy : (i : ℕ) (s : List ℕ) → a.strdup i s ≡ true
