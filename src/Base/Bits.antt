-- ===== src/Base/Bits.antt =====
-- Facts about `&`, `|` and `^` on words of a few bits, each checked by evaluating every value.
use Prim.Native.Nat.{ℕ, zero, suc, ◌<◌}
use mathlib.Core.Path.{◌≡◌}
use mathlib.Core.Bool.{Bool, true, ◌&&◌}
use native.Mathlib.Omega.{arith}
use matter_rs.Base.Tests.{◌==◌, ==_iff, ltb, ltb→lt}

unfoldable pub every_below : ℕ → (ℕ → Bool) → Bool
every_below zero test = true
every_below (suc n) test = test n && every_below n test

every_below_sound :
    (n : ℕ) (test : ℕ → Bool) (x : ℕ) → every_below n test ≡ true → x < n → test x ≡ true
unfolding every_below
every_below_sound zero test x h lt = absurd (omega arith)
every_below_sound (suc n) test x h lt = ground (arith, every_below_sound n test x)

-- Two functions that agree on every value of a table.
pub table_eq :
    (f g : ℕ → ℕ) (n : ℕ) → every_below n (λ x. f x == g x) ≡ true → (x : ℕ) → x < n → f x ≡ g x
table_eq f g n h x lt = (==_iff (f x) (g x)).0 (every_below_sound n (λ i. f i == g i) x h lt)

pub table_true : (f : ℕ → Bool) (n : ℕ) → every_below n f ≡ true → (x : ℕ) → x < n → f x ≡ true
table_true f n h x lt = every_below_sound n f x h lt

pub table_lt :
    (f : ℕ → ℕ) (n bound : ℕ)
    → every_below n (λ x. ltb (f x) bound) ≡ true
    → (x : ℕ) → x < n
    → f x < bound
table_lt f n bound h x lt = ltb→lt (f x) bound (every_below_sound n (λ i. ltb (f i) bound) x h lt)
