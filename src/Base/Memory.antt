-- ===== src/Base/Memory.antt =====
-- Two allocators for concrete runs: one that always has memory, and one that never has.
use Prim.Native.Nat.{ℕ, ◌*◌, ◌<◌, ◌^◌}
use mathlib.Core.Bool.{true, false}
use mathlib.Core.Path.{◌≡◌, refl}
use native.Mathlib.Omega.{arith}
use linyaps_store.Base.Alloc.{Allocator, IsPlenty}
use linyaps_store.Base.Tests.{ltb}

pub fits : (n size : ℕ) → ltb (n * size) (2 ^ 64) ≡ true → n * size < 2 ^ 64
fits n size h = ground arith

abbrev pub plenty : Allocator
plenty = record {
  calloc = λ n size. ltb (n * size) (2 ^ 64);
  strdup = λ _ _. true;
  calloc_fits = fits;
}

pub never : (n size : ℕ) → false ≡ true → n * size < 2 ^ 64
never n size h = cc

abbrev pub starved : Allocator
starved = record { calloc = λ _ _. false; strdup = λ _ _. false; calloc_fits = never }

pub plenty-IsPlenty : IsPlenty plenty
plenty-IsPlenty = record { array = λ n size h. ground arith; copy = λ i s. refl }
