-- ===== src/Base/LinearMap.antt =====
-- `heapless::LinearMap`, a map of at most `cap` entries. The crate is not part of the repository: it
-- is an interface, with the behaviour that its documentation states.
pub mod Removal
pub mod Reference
use Prim.Native.Nat.{◌≤◌, ℕ, zero, suc, ◌+◌, ◌<◌}
use mathlib.Core.Path.{◌≡◌, refl, ap, sym, ◌∙◌}
use mathlib.Core.Logic.{inl, inr, ◌⊎◌}
use mathlib.Core.Bool.{Bool, true, false, ◌||◌}
use mathlib.Core.Option.{Option, none, some}
use mathlib.Core.List.{List, [], ◌∷◌}
use native.Mathlib.Omega.{arith}
use matter_rs.Base.Tests.{if◌then◌else◌, ◌==◌, ==_refl, ==_iff, Option-cases, is_some, ltb}
use matter_rs.Base.Lists.{length}

module _ {V : Type 0} where
  -- The value of the first entry with this key.
  abbrev pub lookup : ℕ → List (ℕ × V) → Option V
  lookup k [] = none
  lookup k ((j, v) ∷ xs) = if k == j then some v else lookup k xs

  -- No key stands twice.
  abbrev pub IsDistinct : List (ℕ × V) → Type 0
  IsDistinct [] = Unit {0}
  IsDistinct ((k, v) ∷ xs) = (lookup k xs ≡ none) × IsDistinct xs

  abbrev pub put : ℕ → V → List (ℕ × V) → List (ℕ × V)
  put k v [] = []
  put k v ((j, w) ∷ xs) = if k == j then (j, v) ∷ xs else (j, w) ∷ put k v xs

  abbrev pub del : ℕ → List (ℕ × V) → List (ℕ × V)
  del k [] = []
  del k ((j, w) ∷ xs) = if k == j then xs else (j, w) ∷ del k xs

  pub length-put : (k : ℕ) (v : V) (xs : List (ℕ × V)) → length (put k v xs) ≡ length xs
  length-put k v [] = refl
  length-put k v ((j, w) ∷ xs) = ground (arith, length-put k v xs)

  pub lookup-put :
      (i k : ℕ) (v w : V) (xs : List (ℕ × V))
      → lookup k xs ≡ some w
      → lookup i (put k v xs) ≡ (if i == k then some v else lookup i xs)
  lookup-put i k v w [] e = cc
  lookup-put i k v w ((j, u) ∷ xs) e = ground (arith, lookup-put i k v w xs)

  lookup-put_absent :
      (i k : ℕ) (v : V) (xs : List (ℕ × V)) → lookup i xs ≡ none → lookup i (put k v xs) ≡ none
  lookup-put_absent i k v [] e = refl
  lookup-put_absent i k v ((j, u) ∷ xs) e = ground (arith, lookup-put_absent i k v xs)

  pub length-del : (k : ℕ) (xs : List (ℕ × V)) → length (del k xs) ≤ length xs
  length-del k [] = omega arith
  length-del k ((j, w) ∷ xs) = ground (arith, length-del k xs)

  pub lookup-del :
      (i k : ℕ) (xs : List (ℕ × V))
      → IsDistinct xs
      → lookup i (del k xs) ≡ (if i == k then none else lookup i xs)
  lookup-del i k [] d = ground arith
  lookup-del i k ((j, w) ∷ xs) d = ground (arith, lookup-del i k xs, d.0, d.1)

  lookup-del_absent :
      (i k : ℕ) (xs : List (ℕ × V)) → lookup i xs ≡ none → lookup i (del k xs) ≡ none
  lookup-del_absent i k [] e = refl
  lookup-del_absent i k ((j, u) ∷ xs) e = ground (arith, lookup-del_absent i k xs)

  pub put-IsDistinct : (k : ℕ) (v : V) (xs : List (ℕ × V)) → IsDistinct xs → IsDistinct (put k v xs)
  put-IsDistinct k v [] d = tt
  put-IsDistinct k v ((j, u) ∷ xs) d =
      ground (arith, lookup-put_absent j k v xs, put-IsDistinct k v xs d.1, d.0, d.1)

  pub del-IsDistinct : (k : ℕ) (xs : List (ℕ × V)) → IsDistinct xs → IsDistinct (del k xs)
  del-IsDistinct k [] d = tt
  del-IsDistinct k ((j, u) ∷ xs) d =
      ground (arith, lookup-del_absent j k xs, del-IsDistinct k xs d.1, d.0, d.1)

-- `insert` answers whether it is `Ok`; `assign` writes through `get_mut`.
pub record LinearMap (V : Type 0) (cap : ℕ) : Type 1 where
  pub Map : Type 0
  pub empty : Map
  pub entries : Map → List (ℕ × V)
  pub get : ℕ → Map → Option V
  pub insert : ℕ → V → Map → Bool × Map
  pub assign : ℕ → V → Map → Map
  pub remove : ℕ → Map → Map
  pub entries-empty : entries empty ≡ []
  pub get_lem : (k : ℕ) (m : Map) → get k m ≡ lookup k (entries m)
  pub entries-IsDistinct : (m : Map) → IsDistinct (entries m)
  pub length-entries : (m : Map) → length (entries m) ≤ cap
  -- A new key takes one place more.
  pub insert_new :
      (k : ℕ) (v : V) (m : Map)
      → get k m ≡ none
      → length (entries m) < cap
      → ((insert k v m).0 ≡ true) × (length (entries (insert k v m).1) ≡ suc (length (entries m)))
  pub insert_full :
      (k : ℕ) (v : V) (m : Map)
      → get k m ≡ none
      → length (entries m) ≡ cap
      → ((insert k v m).0 ≡ false) × ((i : ℕ) → get i (insert k v m).1 ≡ get i m)
  pub insert_known :
      (k : ℕ) (v w : V) (m : Map)
      → get k m ≡ some w
      → ((insert k v m).0 ≡ true) × (length (entries (insert k v m).1) ≡ length (entries m))
  pub get-insert :
      (i k : ℕ) (v : V) (m : Map)
      → (insert k v m).0 ≡ true
      → get i (insert k v m).1 ≡ (if i == k then some v else get i m)
  pub get-assign :
      (i k : ℕ) (v w : V) (m : Map)
      → get k m ≡ some w
      → get i (assign k v m) ≡ (if i == k then some v else get i m)
  pub get-remove : (i k : ℕ) (m : Map) → get i (remove k m) ≡ (if i == k then none else get i m)
