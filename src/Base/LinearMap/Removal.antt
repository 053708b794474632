-- ===== src/Base/LinearMap/Removal.antt =====
-- `heapless::LinearMap`: the entries that pass a test are removed, key by key.
use Prim.Native.Nat.{ℕ}
use mathlib.Core.Path.{◌≡◌, refl, ap, sym, ◌∙◌}
use mathlib.Core.Bool.{Bool, false, ◌||◌}
use mathlib.Core.Option.{Option, none, some}
use mathlib.Core.List.{List, [], ◌∷◌}
use native.Mathlib.Omega.{arith}
use matter_rs.Base.Tests.{if◌then◌else◌, ◌==◌}
use matter_rs.Base.LinearMap.{LinearMap, lookup, IsDistinct}

-- The keys of the entries that pass a test, in order.
abbrev pub keys_where : {V : Type 0} → (V → Bool) → List (ℕ × V) → List ℕ
keys_where test [] = []
keys_where test ((k, v) ∷ xs) = if test v then k ∷ keys_where test xs else keys_where test xs

abbrev pub holds : {V : Type 0} → (V → Bool) → Option V → Bool
holds test none = false
holds test (some v) = test v

-- What stays when the values that pass a test go.
abbrev pub without : {V : Type 0} → (V → Bool) → Option V → Option V
without test none = none
without test (some v) = if test v then none else some v

abbrev pub among : ℕ → List ℕ → Bool
among i [] = false
among i (k ∷ ks) = i == k || among i ks

module _ {V : Type 0} where
  among-keys_where_absent :
      (test : V → Bool) (i : ℕ) (xs : List (ℕ × V))
      → lookup i xs ≡ none
      → among i (keys_where test xs) ≡ false
  among-keys_where_absent test i [] e = refl
  among-keys_where_absent test i ((k, v) ∷ xs) e = ground (arith, among-keys_where_absent test i xs)

  pub among-keys_where :
      (test : V → Bool) (i : ℕ) (xs : List (ℕ × V))
      → IsDistinct xs
      → among i (keys_where test xs) ≡ holds test (lookup i xs)
  among-keys_where test i [] d = refl
  among-keys_where test i ((k, v) ∷ xs) d =
      ground (arith, among-keys_where test i xs d.1, among-keys_where_absent test i xs, d.0)

module _ {V : Type 0} {cap : ℕ} (lm : LinearMap V cap) where
  abbrev pub remove_keys : List ℕ → lm.Map → lm.Map
  remove_keys [] m = m
  remove_keys (k ∷ ks) m = remove_keys ks (lm.remove k m)

  pub get-remove_keys :
      (i : ℕ) (ks : List ℕ) (m : lm.Map)
      → lm.get i (remove_keys ks m) ≡ (if among i ks then none else lm.get i m)
  get-remove_keys i [] m = refl
  get-remove_keys i (k ∷ ks) m =
      ground (arith, get-remove_keys i ks (lm.remove k m), lm.get-remove i k m)

  if-without :
      (test : V → Bool) (o : Option V) → (if holds test o then none else o) ≡ without test o
  if-without test none = refl
  if-without test (some v) = refl

  -- Removing the keys whose values pass a test.
  pub get-remove_listed :
      (test : V → Bool) (i : ℕ) (ks : List ℕ) (m : lm.Map)
      → among i ks ≡ holds test (lm.get i m)
      → lm.get i (remove_keys ks m) ≡ without test (lm.get i m)
  get-remove_listed test i ks m e =
      get-remove_keys i ks m
      ∙ ap (λ b. if b then none else lm.get i m) e
      ∙ if-without test (lm.get i m)

  pub among-entries :
      (test : V → Bool) (i : ℕ) (m : lm.Map)
      → among i (keys_where test (lm.entries m)) ≡ holds test (lm.get i m)
  among-entries test i m =
      among-keys_where test i (lm.entries m) (lm.entries-IsDistinct m)
      ∙ ap (holds test) (sym (lm.get_lem i m))

  pub get-remove_where :
      (test : V → Bool) (i : ℕ) (m : lm.Map)
      → lm.get i (remove_keys (keys_where test (lm.entries m)) m) ≡ without test (lm.get i m)
  get-remove_where test i m =
      get-remove_listed test i (keys_where test (lm.entries m)) m (among-entries test i m)

  pub get-empty : (i : ℕ) → lm.get i lm.empty ≡ none
  get-empty i = lm.get_lem i lm.empty ∙ ap (lookup i) lm.entries-empty
