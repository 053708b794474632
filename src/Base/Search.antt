-- ===== src/Base/Search.antt =====
-- `Iterator::position` and `Iterator::filter(..).count()`.
use Prim.Native.Nat.{◌≤◌, ℕ, zero, suc, ◌+◌, ◌<◌}
use mathlib.Core.Path.{◌≡◌, refl}
use mathlib.Core.Bool.{Bool, true, false}
use mathlib.Core.Option.{Option, none, some}
use mathlib.Core.List.{List, [], ◌∷◌}
use native.Mathlib.Omega.{arith}
use matter_rs.Base.Tests.{if◌then◌else◌}
use matter_rs.Base.Lists.{length, get_elem?, set}

abbrev next : Option ℕ → Option ℕ
next none = none
next (some i) = some (suc i)

module _ {ℓ} {A : Type ℓ} where
  -- The index of the first element that passes the test.
  unfoldable pub position : (A → Bool) → List A → Option ℕ
  position test [] = none
  position test (x ∷ xs) = if test x then some 0 else next (position test xs)

  unfoldable pub count : (A → Bool) → List A → ℕ
  count test [] = 0
  count test (x ∷ xs) = (if test x then 1 else 0) + count test xs

  -- What `position` finds passes the test.
  pub position_found :
      (test : A → Bool) (xs : List A) (i : ℕ)
      → position test xs ≡ some i
      → (a : A) × (get_elem? xs i ≡ some a) × (test a ≡ true)
  unfolding position
  position_found test [] i h = cc
  position_found test (x ∷ xs) zero h = (x, refl, ground arith)
  position_found test (x ∷ xs) (suc i) h = position_found test xs i (ground arith)

  -- What stands before it does not.
  pub position_first :
      (test : A → Bool) (xs : List A) (i j : ℕ) (a : A)
      → position test xs ≡ some i
      → j < i
      → get_elem? xs j ≡ some a
      → test a ≡ false
  unfolding position
  position_first test [] i j a h lt e = cc
  position_first test (x ∷ xs) zero j a h lt e = absurd (omega arith)
  position_first test (x ∷ xs) (suc i) zero a h lt e = ground arith
  position_first test (x ∷ xs) (suc i) (suc j) a h lt e =
      ground (arith, position_first test xs i j a)

  -- Where it finds nothing, nothing passes the test.
  pub position_missing :
      (test : A → Bool) (xs : List A) (j : ℕ) (a : A)
      → position test xs ≡ none
      → get_elem? xs j ≡ some a
      → test a ≡ false
  unfolding position
  position_missing test [] j a h e = cc
  position_missing test (x ∷ xs) zero a h e = ground arith
  position_missing test (x ∷ xs) (suc j) a h e = ground (arith, position_missing test xs j a)

  -- One write changes a count by what it removes and what it adds.
  pub count-set :
      (test : A → Bool) (xs : List A) (i : ℕ) (old new : A)
      → get_elem? xs i ≡ some old
      → count test (set xs i new) + (if test old then 1 else 0)
        ≡ count test xs + (if test new then 1 else 0)
  unfolding count
  count-set test [] i old new h = cc
  count-set test (x ∷ xs) zero old new h = ground arith
  count-set test (x ∷ xs) (suc i) old new h = ground (arith, count-set test xs i old new h)

  pub count-le-length : (test : A → Bool) (xs : List A) → count test xs ≤ length xs
  unfolding count
  count-le-length test [] = omega arith
  count-le-length test (x ∷ xs) = ground (arith, count-le-length test xs)

  -- What passes `h` passes exactly one of `f` and `g`.
  pub count-add :
      (f g h : A → Bool) (xs : List A)
      → ((x : A) → (if h x then 1 else 0) ≡ (if f x then 1 else 0) + (if g x then 1 else 0))
      → count h xs ≡ count f xs + count g xs
  unfolding count
  count-add f g h [] e = omega arith
  count-add f g h (x ∷ xs) e = omega (arith, e x, count-add f g h xs e)

  pub count_pos :
      (test : A → Bool) (xs : List A) (i : ℕ) (a : A)
      → get_elem? xs i ≡ some a
      → test a ≡ true
      → 1 ≤ count test xs
  unfolding count
  count_pos test [] i a h t = cc
  count_pos test (x ∷ xs) zero a h t = let e : test x ≡ true = cc in rw e (omega arith)
  count_pos test (x ∷ xs) (suc i) a h t = omega (arith, count_pos test xs i a h t)

  -- What a write leaves of the test, it leaves of the search.
  pub position-set :
      (test : A → Bool) (xs : List A) (i : ℕ) (old new : A)
      → get_elem? xs i ≡ some old
      → test new ≡ test old
      → position test (set xs i new) ≡ position test xs
  unfolding position
  position-set test [] i old new e t = refl
  position-set test (x ∷ xs) zero old new e t =
      let same : test new ≡ test x = cc (e, t) in rw same refl
  position-set test (x ∷ xs) (suc i) old new e t = rw (position-set test xs i old new e t) refl
