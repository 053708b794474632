-- ===== src/Base/LinearMap/Reference.antt =====
-- `heapless::LinearMap`: an association list, which the examples run with.
use Prim.Native.Nat.{◌≤◌, ℕ, ◌<◌}
use mathlib.Core.Path.{◌≡◌, refl, ap, ◌∙◌}
use mathlib.Core.Logic.{inl, inr}
use mathlib.Core.Bool.{Bool, true, false}
use mathlib.Core.Option.{none, some}
use mathlib.Core.List.{List, [], ◌∷◌}
use native.Mathlib.Omega.{arith}
use matter_rs.Base.Tests.{if◌then◌else◌, ◌==◌, Option-cases, is_some, ltb}
use matter_rs.Base.Lists.{length}
use matter_rs.Base.LinearMap.{
  LinearMap, lookup, IsDistinct, put, del, length-put, lookup-put, put-IsDistinct, del-IsDistinct,
  length-del, lookup-del,
}

module _ {V : Type 0} where
  abbrev insert_in : ℕ → ℕ → V → List (ℕ × V) → Bool × List (ℕ × V)
  insert_in cap k v xs =
      if is_some (lookup k xs)
      then (true, put k v xs)
      else if ltb (length xs) cap
      then (true, (k, v) ∷ xs)
      else (false, xs)

  pub insert_in-IsDistinct :
      (cap k : ℕ) (v : V) (xs : List (ℕ × V)) → IsDistinct xs → IsDistinct (insert_in cap k v xs).1
  insert_in-IsDistinct cap k v xs d = ground (arith, put-IsDistinct k v xs d, d)

  pub insert_in-le :
      (cap k : ℕ) (v : V) (xs : List (ℕ × V))
      → length xs ≤ cap
      → length (insert_in cap k v xs).1 ≤ cap
  insert_in-le cap k v xs l = ground (arith, length-put k v xs)

  pub insert_in_new :
      (cap k : ℕ) (v : V) (xs : List (ℕ × V))
      → lookup k xs ≡ none
      → length xs < cap
      → insert_in cap k v xs ≡ (true, (k, v) ∷ xs)
  insert_in_new cap k v xs e l = let h : ltb (length xs) cap ≡ true = ground arith in rw (e, h) refl

  pub insert_in_full :
      (cap k : ℕ) (v : V) (xs : List (ℕ × V))
      → lookup k xs ≡ none
      → length xs ≡ cap
      → insert_in cap k v xs ≡ (false, xs)
  insert_in_full cap k v xs e l =
      let h : ltb (length xs) cap ≡ false = ground arith in rw (e, h) refl

  pub insert_in_known :
      (cap k : ℕ) (v w : V) (xs : List (ℕ × V))
      → lookup k xs ≡ some w
      → insert_in cap k v xs ≡ (true, put k v xs)
  insert_in_known cap k v w xs e = rw e refl

  pub lookup-insert_in :
      (cap i k : ℕ) (v : V) (xs : List (ℕ × V))
      → (insert_in cap k v xs).0 ≡ true
      → lookup i (insert_in cap k v xs).1 ≡ (if i == k then some v else lookup i xs)
  lookup-insert_in cap i k v xs done = elim (Option-cases (lookup k xs)) [
    | inl e ↦ ground arith
    | inr (w, e) ↦ rw (insert_in_known cap k v w xs e) (lookup-put i k v w xs e)
  ]

abbrev Table : Type 0 → ℕ → Type 0
Table V cap = (xs : List (ℕ × V)) × IsDistinct xs × (length xs ≤ cap)

-- A reference implementation, which the examples run with.
unfoldable pub reference_map : (V : Type 0) (cap : ℕ) → LinearMap V cap
reference_map V cap = record {
  Map = Table V cap;
  empty = ([], tt, omega arith);
  entries = λ m. m.0;
  get = λ k m. lookup k m.0;
  insert = λ k v m. (
    (insert_in cap k v m.0).0,
    ((insert_in cap k v m.0).1, insert_in-IsDistinct cap k v m.0 m.1, insert_in-le cap k v m.0 m.2),
  );
  assign =
      λ k v m. (put k v m.0, put-IsDistinct k v m.0 m.1, omega (arith, length-put k v m.0, m.2));
  remove = λ k m. (del k m.0, del-IsDistinct k m.0 m.1, omega (arith, length-del k m.0, m.2));
  entries-empty = refl;
  get_lem = λ k m. refl;
  entries-IsDistinct = λ m. m.1;
  length-entries = λ m. m.2;
  insert_new = λ k v m e l.
      let h = insert_in_new cap k v m.0 e l in (ap (λ x. x.0) h, ap (λ x. length x.1) h);
  insert_full = λ k v m e l.
      let h = insert_in_full cap k v m.0 e l in (ap (λ x. x.0) h, λ i. ap (λ x. lookup i x.1) h);
  insert_known = λ k v w m e.
      let h = insert_in_known cap k v w m.0 e in
      (ap (λ x. x.0) h, ap (λ x. length x.1) h ∙ length-put k v m.0);
  get-insert = λ i k v m. lookup-insert_in cap i k v m.0;
  get-assign = λ i k v w m e. lookup-put i k v w m.0 e;
  get-remove = λ i k m. lookup-del i k m.0 m.1;
}
