-- ===== src/Base/Int.antt =====
-- Signed integers, as two's complement words of `2 * half` values.
use Prim.Native.Nat.{ℕ, ◌-◌, ◌*◌, ◌<◌}
use mathlib.Core.Path.{◌≡◌}
use native.Mathlib.Omega.{arith}
use matter_rs.Base.Tests.{ltb, if◌then◌else◌}

-- `negsuc n` is -(n + 1).
pub data ℤ : Type 0 where
  pos : ℕ → ℤ
  negsuc : ℕ → ℤ

-- The integers from -half up to half - 1.
abbrev pub InRange : ℕ → ℤ → Type 0
InRange half (pos n) = n < half
InRange half (negsuc n) = n < half

-- `data as u8`, for `half` = 128.
unfoldable pub to_word : ℕ → ℤ → ℕ
to_word half (pos n) = n
to_word half (negsuc n) = 2 * half - 1 - n

-- `byte as i8`, for `half` = 128.
unfoldable pub of_word : ℕ → ℕ → ℤ
of_word half w = if ltb w half then pos w else negsuc (2 * half - 1 - w)

pub of_word-to_word : (half : ℕ) (z : ℤ) → InRange half z → of_word half (to_word half z) ≡ z
unfolding of_word to_word
of_word-to_word half (pos n) h = ground arith
of_word-to_word half (negsuc n) h = ground arith

pub to_word-lt : (half : ℕ) (z : ℤ) → InRange half z → to_word half z < 2 * half
unfolding to_word
to_word-lt half (pos n) h = omega arith
to_word-lt half (negsuc n) h = omega arith
