-- ===== src/Base/Lists.antt =====
-- Lists measured and indexed by native numbers, under the library's names.
use Prim.Native.Nat.{ℕ, zero, suc, ◌+◌, ◌-◌, ◌≤◌, ◌<◌}
use Prim.Native.Nat.add
use mathlib.Core.Path.{◌≡◌, refl, sym, ap, ◌∙◌}
use mathlib.Core.List.{List, [], ◌∷◌, ◌++◌, append-nil}
use mathlib.Core.Logic.{◌≢◌}
use mathlib.Core.Option.{Option, none, some}
use native.Mathlib.Omega.{arith}
use native.Mathlib.Nat.{sub-zero, add-zero}

module _ {ℓ} {A : Type ℓ} where
  abbrev pub length : List A → ℕ
  length [] = 0
  length (x ∷ xs) = suc (length xs)

  abbrev pub get_elem? : List A → ℕ → Option A
  get_elem? [] i = none
  get_elem? (x ∷ xs) zero = some x
  get_elem? (x ∷ xs) (suc i) = get_elem? xs i

  -- A write out of bounds changes nothing.
  abbrev pub set : List A → ℕ → A → List A
  set [] i v = []
  set (x ∷ xs) zero v = v ∷ xs
  set (x ∷ xs) (suc i) v = x ∷ set xs i v

  abbrev pub take : ℕ → List A → List A
  take zero xs = []
  take (suc n) [] = []
  take (suc n) (x ∷ xs) = x ∷ take n xs

  abbrev pub drop : ℕ → List A → List A
  drop zero xs = xs
  drop (suc n) [] = []
  drop (suc n) (x ∷ xs) = drop n xs

  abbrev pub replicate : ℕ → A → List A
  replicate zero a = []
  replicate (suc n) a = a ∷ replicate n a

  -- `xs` with the elements from `i` on overwritten by those of `ys`, as far as there is room.
  abbrev pub splice : List A → ℕ → List A → List A
  splice [] i ys = []
  splice (x ∷ xs) (suc i) ys = x ∷ splice xs i ys
  splice (x ∷ xs) zero [] = x ∷ xs
  splice (x ∷ xs) zero (y ∷ ys) = y ∷ splice xs zero ys

  abbrev pub All {κ} : (A → Type κ) → List A → Type κ
  All P [] = Unit {κ}
  All P (x ∷ xs) = P x × All P xs

module _ {ℓ} {A : Type ℓ} where
  pub length-append : (xs ys : List A) → length (xs ++ ys) ≡ length xs + length ys
  length-append [] ys = omega arith
  length-append (x ∷ xs) ys = omega (arith, length-append xs ys)

  pub length-replicate : (n : ℕ) (a : A) → length (replicate n a) ≡ n
  length-replicate zero a = refl
  length-replicate (suc n) a = ap suc (length-replicate n a)

  pub length-set : (xs : List A) (i : ℕ) (v : A) → length (set xs i v) ≡ length xs
  length-set [] i v = refl
  length-set (x ∷ xs) zero v = refl
  length-set (x ∷ xs) (suc i) v = ap suc (length-set xs i v)

  pub length-drop : (n : ℕ) (xs : List A) → length (drop n xs) ≡ length xs - n
  length-drop zero xs = omega arith
  length-drop (suc n) [] = omega arith
  length-drop (suc n) (x ∷ xs) = omega (arith, length-drop n xs)

  pub length-splice : (xs : List A) (i : ℕ) (ys : List A) → length (splice xs i ys) ≡ length xs
  length-splice [] i ys = refl
  length-splice (x ∷ xs) (suc i) ys = ap suc (length-splice xs i ys)
  length-splice (x ∷ xs) zero [] = refl
  length-splice (x ∷ xs) zero (y ∷ ys) = ap suc (length-splice xs zero ys)

  pub splice-nil : (xs : List A) (i : ℕ) → splice xs i [] ≡ xs
  splice-nil [] i = refl
  splice-nil (x ∷ xs) (suc i) = ap (◌∷◌ x) (splice-nil xs i)
  splice-nil (x ∷ xs) zero = refl

  pub take_all : (n : ℕ) (xs : List A) → length xs ≤ n → take n xs ≡ xs
  take_all zero [] h = refl
  take_all zero (x ∷ xs) h = absurd (omega arith)
  take_all (suc n) [] h = refl
  take_all (suc n) (x ∷ xs) h = ap (◌∷◌ x) (take_all n xs (omega arith))

  pub take-append : (xs ys : List A) (n : ℕ) → n ≡ length xs → take n (xs ++ ys) ≡ xs
  take-append [] ys zero h = refl
  take-append [] ys (suc n) h = absurd (omega arith)
  take-append (x ∷ xs) ys zero h = absurd (omega arith)
  take-append (x ∷ xs) ys (suc n) h = ap (◌∷◌ x) (take-append xs ys n (omega arith))

  pub drop-append : (xs ys : List A) (n : ℕ) → n ≡ length xs → drop n (xs ++ ys) ≡ ys
  drop-append [] ys zero h = refl
  drop-append [] ys (suc n) h = absurd (omega arith)
  drop-append (x ∷ xs) ys zero h = absurd (omega arith)
  drop-append (x ∷ xs) ys (suc n) h = drop-append xs ys n (omega arith)

  pub drop-nil : (n : ℕ) → drop {A = A} n [] ≡ []
  drop-nil zero = refl
  drop-nil (suc n) = refl

  pub drop-drop : (m n : ℕ) (xs : List A) → drop n (drop m xs) ≡ drop (m + n) xs
  drop-drop zero n xs = ap (λ k. drop k xs) (omega arith)
  drop-drop (suc m) n [] = drop-nil n ∙ sym (drop-nil (suc m + n))
  drop-drop (suc m) n (x ∷ xs) = rw (add.suc m n) (drop-drop m n xs)

  -- The elements from `i` up to `j`.
  abbrev pub segment : List A → ℕ → ℕ → List A
  segment xs i j = take (j - i) (drop i xs)

  take-splice :
      (xs : List A) (i : ℕ) (ys : List A)
      → i + length ys ≤ length xs
      → take (i + length ys) (splice xs i ys) ≡ take i xs ++ ys
  take-splice [] zero [] h = ground arith
  take-splice [] zero (y ∷ ys) h = absurd (omega arith)
  take-splice [] (suc i) ys h = absurd (omega arith)
  take-splice (x ∷ xs) (suc i) ys h =
      rw (add.suc i (length ys)) (ap (◌∷◌ x) (take-splice xs i ys (omega arith)))
  take-splice (x ∷ xs) zero [] h = ground arith
  take-splice (x ∷ xs) zero (y ∷ ys) h =
      let e : 0 + suc (length ys) ≡ suc (0 + length ys) = omega arith in
      rw e (ap (◌∷◌ y) (take-splice xs zero ys (omega arith)))

  -- What is written behind a segment joins its end.
  pub segment-splice :
      (xs : List A) (s e : ℕ) (ys : List A)
      → s ≤ e
      → e + length ys ≤ length xs
      → segment (splice xs e ys) s (e + length ys) ≡ segment xs s e ++ ys
  segment-splice xs zero e ys p q = ground (arith, take-splice xs e ys)
  segment-splice [] (suc s) zero ys p q = absurd (omega arith)
  segment-splice [] (suc s) (suc e) ys p q = absurd (omega arith)
  segment-splice (x ∷ xs) (suc s) zero ys p q = absurd (omega arith)
  segment-splice (x ∷ xs) (suc s) (suc e) ys p q =
      let a : suc e + length ys - suc s ≡ e + length ys - s = omega arith in
      let b : suc e - suc s ≡ e - s = omega arith in
      rw (a, b) (segment-splice xs s e ys (omega arith) (omega arith))

  splice_front :
      (xs ys : List A) (k : ℕ)
      → length ys ≤ length xs
      → take (length ys + k) (splice xs zero ys) ≡ ys ++ take k (drop (length ys) xs)
  splice_front [] [] k h = ground arith
  splice_front [] (y ∷ ys) k h = absurd (omega arith)
  splice_front (x ∷ xs) [] k h = ground arith
  splice_front (x ∷ xs) (y ∷ ys) k h =
      rw (add.suc (length ys) k) (ap (◌∷◌ y) (splice_front xs ys k (omega arith)))

  -- What is written in front of a segment joins its start.
  pub splice-segment :
      (xs : List A) (p e : ℕ) (ys : List A)
      → p + length ys ≤ e
      → e ≤ length xs
      → segment (splice xs p ys) p e ≡ ys ++ segment xs (p + length ys) e
  splice-segment xs zero e ys h q =
      let a : e - 0 ≡ length ys + (e - length ys) = omega arith in
      let b : 0 + length ys ≡ length ys = omega arith in
      rw (b, a) (splice_front xs ys (e - length ys) (omega arith))
  splice-segment [] (suc p) e ys h q = absurd (omega arith)
  splice-segment (x ∷ xs) (suc p) zero ys h q = absurd (omega arith)
  splice-segment (x ∷ xs) (suc p) (suc e) ys h q =
      let a : suc e - suc p ≡ e - p = omega arith in
      let b : suc e - suc (p + length ys) ≡ e - (p + length ys) = omega arith in
      rw (add.suc p (length ys), a, b) (splice-segment xs p e ys (omega arith) (omega arith))

  splice_next :
      (xs ys zs : List A) → splice (splice xs zero ys) (length ys) zs ≡ splice xs zero (ys ++ zs)
  splice_next [] ys zs = refl
  splice_next (x ∷ xs) [] zs = refl
  splice_next (x ∷ xs) (y ∷ ys) zs = ap (◌∷◌ y) (splice_next xs ys zs)

  -- Two writes, one behind the other, are one.
  pub splice-append :
      (xs : List A) (i : ℕ) (ys zs : List A)
      → splice (splice xs i ys) (i + length ys) zs ≡ splice xs i (ys ++ zs)
  splice-append [] i ys zs = refl
  splice-append (x ∷ xs) (suc i) ys zs = ground (arith, splice-append xs i ys zs)
  splice-append (x ∷ xs) zero ys zs = ground (arith, splice_next (x ∷ xs) ys zs)

module _ {ℓ} {A : Type ℓ} where
  pub take-append-drop : (n : ℕ) (xs : List A) → take n xs ++ drop n xs ≡ xs
  take-append-drop zero xs = refl
  take-append-drop (suc n) [] = refl
  take-append-drop (suc n) (x ∷ xs) = rw (take-append-drop n xs)

  pub length-take : (n : ℕ) (xs : List A) → n ≤ length xs → length (take n xs) ≡ n
  length-take zero xs h = refl
  length-take (suc n) [] h = absurd (omega arith)
  length-take (suc n) (x ∷ xs) h = ap suc (length-take n xs (omega arith))

  pub drop-take : (m n : ℕ) (xs : List A) → drop m (take n xs) ≡ take (n - m) (drop m xs)
  drop-take zero n xs = rw sub-zero
  drop-take (suc m) zero xs = let e : 0 - suc m ≡ 0 = omega arith in rw e
  drop-take (suc m) (suc n) [] = rw (drop-nil {A = A}) (take_nil (suc n - suc m))
    where
      take_nil : (k : ℕ) → [] ≡ take {A = A} k []
      take_nil zero = refl
      take_nil (suc k) = refl
  drop-take (suc m) (suc n) (x ∷ xs) =
      let e : suc n - suc m ≡ n - m = omega arith in rw e (drop-take m n xs)

  pub get_elem?-drop : (n : ℕ) (xs : List A) → get_elem? xs n ≡ get_elem? (drop n xs) 0
  get_elem?-drop zero xs = refl
  get_elem?-drop (suc n) [] = refl
  get_elem?-drop (suc n) (x ∷ xs) = get_elem?-drop n xs

  pub get_elem?_total : (xs : List A) (i : ℕ) → i < length xs → (a : A) × (get_elem? xs i ≡ some a)
  get_elem?_total [] i h = absurd (omega arith)
  get_elem?_total (x ∷ xs) zero h = (x, refl)
  get_elem?_total (x ∷ xs) (suc i) h = get_elem?_total xs i (omega arith)

  pub take-add : (m n : ℕ) (xs : List A) → take (m + n) xs ≡ take m xs ++ take n (drop m xs)
  take-add zero n xs = ap (λ k. take k xs) (omega arith)
  take-add (suc m) zero [] = rw (add-zero (suc m)) refl
  take-add (suc m) (suc n) [] = rw (add.suc m (suc n)) refl
  take-add (suc m) n (x ∷ xs) = rw (add.suc m n) (ap (◌∷◌ x) (take-add m n xs))

  pub splice_whole : (xs ys : List A) → length ys ≡ length xs → splice xs 0 ys ≡ ys
  splice_whole [] [] h = refl
  splice_whole [] (y ∷ ys) h = absurd (omega arith)
  splice_whole (x ∷ xs) [] h = absurd (omega arith)
  splice_whole (x ∷ xs) (y ∷ ys) h = ap (◌∷◌ y) (splice_whole xs ys (omega arith))

  pub splice-append_front :
      (xs ys zs : List A) → length zs ≡ length xs → splice (xs ++ ys) 0 zs ≡ zs ++ ys
  splice-append_front [] [] [] h = refl
  splice-append_front [] (y ∷ ys) [] h = refl
  splice-append_front [] ys (z ∷ zs) h = absurd (omega arith)
  splice-append_front (x ∷ xs) ys [] h = absurd (omega arith)
  splice-append_front (x ∷ xs) ys (z ∷ zs) h =
      ap (◌∷◌ z) (splice-append_front xs ys zs (omega arith))

  pub splice-append_back :
      (xs ys zs : List A) → length zs ≡ length ys → splice (xs ++ ys) (length xs) zs ≡ xs ++ zs
  splice-append_back [] ys zs h = splice_whole ys zs h
  splice-append_back (x ∷ xs) ys zs h = ap (◌∷◌ x) (splice-append_back xs ys zs h)

  -- A segment that is overwritten as a whole.
  pub segment-splice_whole :
      (xs : List A) (s e : ℕ) (ys : List A)
      → s + length ys ≡ e
      → e ≤ length xs
      → segment (splice xs s ys) s e ≡ ys
  segment-splice_whole xs s e ys h q =
      let d : e - (s + length ys) ≡ 0 = omega arith in
      splice-segment xs s e ys (omega arith) q
      ∙ ap (λ k. ys ++ take k (drop (s + length ys) xs)) d
      ∙ append-nil ys

  pub get_elem?-set_self :
      (xs : List A) (i : ℕ) (v : A) → i < length xs → get_elem? (set xs i v) i ≡ some v
  get_elem?-set_self [] i v h = elim h [ ]
  get_elem?-set_self (x ∷ xs) zero v h = refl
  get_elem?-set_self (x ∷ xs) (suc i) v h = get_elem?-set_self xs i v (omega arith)

  pub get_elem?-set_ne :
      (xs : List A) (i j : ℕ) (v : A) → i ≢ j → get_elem? (set xs i v) j ≡ get_elem? xs j
  get_elem?-set_ne [] i j v h = refl
  get_elem?-set_ne (x ∷ xs) zero zero v h = absurd (h refl)
  get_elem?-set_ne (x ∷ xs) zero (suc j) v h = refl
  get_elem?-set_ne (x ∷ xs) (suc i) zero v h = refl
  get_elem?-set_ne (x ∷ xs) (suc i) (suc j) v h = get_elem?-set_ne xs i j v (λ e. h (ap suc e))

  -- A write that is undone.
  pub set-set_self :
      (xs : List A) (i : ℕ) (v w : A) → get_elem? xs i ≡ some w → set (set xs i v) i w ≡ xs
  set-set_self [] i v w h = refl
  set-set_self (x ∷ xs) zero v w h = cc
  set-set_self (x ∷ xs) (suc i) v w h = ap (◌∷◌ x) (set-set_self xs i v w h)

  pub lt_of_get_elem? : (xs : List A) (i : ℕ) (v : A) → get_elem? xs i ≡ some v → i < length xs
  lt_of_get_elem? [] i v h = cc
  lt_of_get_elem? (x ∷ xs) zero v h = omega arith
  lt_of_get_elem? (x ∷ xs) (suc i) v h = omega (arith, lt_of_get_elem? xs i v h)
