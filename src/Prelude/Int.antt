-- ===== src/Prelude/Int.antt =====
-- Integers over the native numbers, and the 32-bit ones.
use Prim.Native.Nat.{ℕ, ◌-◌, ◌%◌, ◌^◌, ◌<◌}
use mathlib.Core.Path.{◌≡◌}
use native.Mathlib.Omega.{arith}
use proxypp.Prelude.Tests.{ltb, if◌then◌else◌}

-- `negsuc n` is -(n + 1).
pub data ℤ : Type 0 where
  pos : ℕ → ℤ
  negsuc : ℕ → ℤ

-- The int32_t that a number wraps to.
unfoldable pub wrap_int32 : ℕ → ℤ
wrap_int32 n =
    let low = n % 2 ^ 32 in if ltb low (2 ^ 31) then pos low else negsuc (2 ^ 32 - low - 1)

-- static_cast<std::uint32_t> of an int32_t.
unfoldable pub to_uint32 : ℤ → ℕ
to_uint32 (pos n) = n % 2 ^ 32
to_uint32 (negsuc n) = (2 ^ 32 - (n % 2 ^ 32) - 1) % 2 ^ 32

-- Both conversions together are the identity on 32 bits.
pub to_uint32-wrap_int32 : (n : ℕ) → n < 2 ^ 32 → to_uint32 (wrap_int32 n) ≡ n
unfolding to_uint32 wrap_int32
to_uint32-wrap_int32 n h = ground arith
