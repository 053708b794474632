-- ===== src/Base/Flags.antt =====
-- Sets of flags in a machine word. The macro of the crate `bitflags` is not part of the
-- repository: what it generates is an interface, with the behaviour that its documentation
-- states. A set of flags is its `bits`.
use Prim.Native.Nat.{ℕ, bit_and, bit_or, bit_xor}
use mathlib.Core.Path.{◌≡◌, refl}
use mathlib.Core.Bool.{Bool}
use mathlib.Core.Option.{Option, none, some}
use matter_rs.Base.Tests.{◌==◌, if◌then◌else◌}

-- `from_bits valid b` is `from_bits` of a type whose flags are the bits of `valid`.
pub record Bitflags : Type 0 where
  pub contains : ℕ → ℕ → Bool
  pub union : ℕ → ℕ → ℕ
  pub intersection : ℕ → ℕ → ℕ
  pub difference : ℕ → ℕ → ℕ
  pub from_bits : ℕ → ℕ → Option ℕ
  pub contains_lem : (a b : ℕ) → contains a b ≡ (bit_and a b == b)
  pub union_lem : (a b : ℕ) → union a b ≡ bit_or a b
  pub intersection_lem : (a b : ℕ) → intersection a b ≡ bit_and a b
  pub difference_lem : (a b : ℕ) → difference a b ≡ bit_xor (bit_or a b) b
  pub from_bits_lem :
      (valid b : ℕ) → from_bits valid b ≡ (if bit_and b valid == b then some b else none)

-- A reference implementation, which the examples run with.
instance abbrev pub reference_flags : Bitflags
reference_flags = record {
  contains = λ a b. bit_and a b == b;
  union = bit_or;
  intersection = bit_and;
  difference = λ a b. bit_xor (bit_or a b) b;
  from_bits = λ valid b. if bit_and b valid == b then some b else none;
  contains_lem = λ a b. refl;
  union_lem = λ a b. refl;
  intersection_lem = λ a b. refl;
  difference_lem = λ a b. refl;
  from_bits_lem = λ valid b. refl;
}
