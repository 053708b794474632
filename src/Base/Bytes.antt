-- ===== src/Base/Bytes.antt =====
-- The byte order of the wire. The crate `byteorder` is not part of the repository: its functions
-- on `LittleEndian` are an interface, with the behaviour that its documentation states.
use Prim.Native.Nat.{ℕ, zero, suc, ◌+◌, ◌*◌, ◌/◌, ◌%◌, ◌^◌, ◌≤◌, ◌<◌}
use mathlib.Core.Path.{◌≡◌, refl, ap}
use mathlib.Core.List.{List, [], ◌∷◌, ◌++◌}
use native.Mathlib.Omega.{arith}
use native.Mathlib.Nat.{pow-suc}
use matter_rs.Base.Lists.{length, All}

abbrev pub IsByte : ℕ → Type 0
IsByte b = b < 256

-- `write n v` are the `n` bytes that `write_uint` stores for `v`, and `read n bs` is what
-- `read_uint` takes from the first `n` bytes of `bs`. `write_u16`, `read_u16` and the like are
-- these at their width.
pub record LittleEndian : Type 0 where
  pub write : ℕ → ℕ → List ℕ
  pub read : ℕ → List ℕ → ℕ
  pub length-write : (n v : ℕ) → length (write n v) ≡ n
  pub read-write : (n v : ℕ) (rest : List ℕ) → v < 256 ^ n → read n (write n v ++ rest) ≡ v
  pub write_byte : (v : ℕ) → v < 256 → write 1 v ≡ v ∷ []
  pub read-lt : (n : ℕ) (bs : List ℕ) → All IsByte bs → n ≤ length bs → read n bs < 256 ^ n

-- A reference implementation, which the examples run with.
write_le : ℕ → ℕ → List ℕ
write_le zero v = []
write_le (suc n) v = (v % 256) ∷ write_le n (v / 256)

read_le : ℕ → List ℕ → ℕ
read_le zero bs = 0
read_le (suc n) [] = 0
read_le (suc n) (b ∷ bs) = b + 256 * read_le n bs

length-write_le : (n v : ℕ) → length (write_le n v) ≡ n
unfolding write_le
length-write_le zero v = refl
length-write_le (suc n) v = ap suc (length-write_le n (v / 256))

read_le-write_le : (n v : ℕ) (rest : List ℕ) → v < 256 ^ n → read_le n (write_le n v ++ rest) ≡ v
unfolding read_le write_le
read_le-write_le zero v rest h = omega arith
read_le-write_le (suc n) v rest h =
    omega (arith, pow-suc 256 n, read_le-write_le n (v / 256) rest (omega (arith, pow-suc 256 n)))

read_le-lt : (n : ℕ) (bs : List ℕ) → All IsByte bs → n ≤ length bs → read_le n bs < 256 ^ n
unfolding read_le
read_le-lt zero bs a h = omega arith
read_le-lt (suc n) [] a h = absurd (omega arith)
read_le-lt (suc n) (b ∷ bs) a h =
    omega (arith, a.0, pow-suc 256 n, read_le-lt n bs a.1 (omega arith))

write_le_byte : (v : ℕ) → v < 256 → write_le 1 v ≡ v ∷ []
unfolding write_le
write_le_byte v h = let e : v % 256 ≡ v = omega arith in rw e refl

instance unfoldable pub reference_le : LittleEndian
unfolding write_le read_le length-write_le read_le-write_le write_le_byte read_le-lt
reference_le = record {
  write = write_le;
  read = read_le;
  length-write = length-write_le;
  read-write = read_le-write_le;
  write_byte = write_le_byte;
  read-lt = read_le-lt;
}
