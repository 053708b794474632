-- ===== src/Acl/Entry/Laws.antt =====
-- matter/src/acl.rs: what an entry of the list grants.
use matter_rs.Base.{
  ℕ, zero, suc, ◌≡◌, ◌↔◌, ◌⊎◌, inl, inr, refl, Bool, true, false, if◌then◌else◌, List, [], ◌∷◌, All,
  get_elem?, Option, some, none, Bool-cases, arith,
}
use matter_rs.Acl.Entry.{scan, allows_one}

-- One of the slots that are taken passes the test.
abbrev pub TakenBy {ℓ} : {A : Type ℓ} → (A → Bool) → List (Option A) → Type ℓ
TakenBy {A = A} test xs = (i : ℕ) × (x : A) × (get_elem? xs i ≡ some (some x)) × (test x ≡ true)

abbrev pub AllFree {ℓ} : {A : Type ℓ} → List (Option A) → Type ℓ
AllFree xs = All (λ o. o ≡ none) xs

module _ {ℓ} {A : Type ℓ} (test : A → Bool) where
  later : (o : Option A) (xs : List (Option A)) → TakenBy test xs → TakenBy test (o ∷ xs)
  later o xs (i, x, e, h) = (suc i, x, e, h)

  scan_allow :
      (xs : List (Option A)) (a b : Bool)
      → (scan test xs a b).0 ≡ true
      → (a ≡ true) ⊎ TakenBy test xs
  unfolding scan
  scan_allow [] a b h = inl h
  scan_allow (none ∷ xs) a b h = elim (scan_allow xs a b h) [
    | inl e ↦ inl e
    | inr t ↦ inr (later none xs t)
  ]
  scan_allow (some x ∷ xs) a b h = elim (scan_allow xs (if test x then true else a) true h) [
    | inl e ↦ elim (Bool-cases (test x)) [
      | inl q ↦ inr (0, x, refl, q)
      | inr q ↦ inl (ground arith)
    ]
    | inr t ↦ inr (later (some x) xs t)
  ]

  scan_exist_stays : (xs : List (Option A)) (a : Bool) → (scan test xs a true).1 ≡ true
  unfolding scan
  scan_exist_stays [] a = refl
  scan_exist_stays (none ∷ xs) a = scan_exist_stays xs a
  scan_exist_stays (some x ∷ xs) a = scan_exist_stays xs (if test x then true else a)

  scan_free : (xs : List (Option A)) (a : Bool) → (scan test xs a false).1 ≡ false → AllFree xs
  unfolding scan
  scan_free [] a h = tt
  scan_free (none ∷ xs) a h = (refl, scan_free xs a h)
  scan_free (some x ∷ xs) a h =
      absurd (let s = scan_exist_stays xs (if test x then true else a) in cc)

  scan-AllFree : (xs : List (Option A)) (a b : Bool) → AllFree xs → scan test xs a b ≡ (a, b)
  unfolding scan
  scan-AllFree [] a b f = refl
  scan-AllFree (none ∷ xs) a b f = scan-AllFree xs a b f.1
  scan-AllFree (some x ∷ xs) a b f = absurd (let e = f.0 in cc)

  scan_allow_stays : (xs : List (Option A)) (b : Bool) → (scan test xs true b).0 ≡ true
  unfolding scan
  scan_allow_stays [] b = refl
  scan_allow_stays (none ∷ xs) b = scan_allow_stays xs b
  scan_allow_stays (some x ∷ xs) b = elim (Bool-cases (test x)) [
    | inl q ↦ rw (q, scan) (scan_allow_stays xs true)
    | inr q ↦ rw (q, scan) (scan_allow_stays xs true)
  ]

  scan_taken :
      (xs : List (Option A)) (a b : Bool) (i : ℕ) (x : A)
      → get_elem? xs i ≡ some (some x)
      → test x ≡ true
      → (scan test xs a b).0 ≡ true
  unfolding scan
  scan_taken [] a b i x e h = absurd cc
  scan_taken (none ∷ xs) a b zero x e h = absurd cc
  scan_taken (none ∷ xs) a b (suc i) x e h = scan_taken xs a b i x e h
  scan_taken (some y ∷ xs) a b zero x e h =
      let q : test y ≡ true = cc in rw (q, scan) (scan_allow_stays xs true)
  scan_taken (some y ∷ xs) a b (suc i) x e h =
      scan_taken xs (if test y then true else a) true i x e h

  -- The scan of subjects and of targets passes exactly where no slot is taken, or where one of those
  -- that are taken passes the test.
  pub allows_one_iff :
      (xs : List (Option A)) → (allows_one test xs ≡ true) ↔ (AllFree xs ⊎ TakenBy test xs)
  unfolding allows_one
  allows_one_iff xs = (forward, backward)
    where
      forward : allows_one test xs ≡ true → AllFree xs ⊎ TakenBy test xs
      forward h = elim (Bool-cases (scan test xs false false).1) [
        | inr free ↦ inl (scan_free xs false free)
        | inl taken ↦ elim (scan_allow xs false false (ground arith)) [
          | inl e ↦ absurd cc
          | inr t ↦ inr t
        ]
      ]

      backward : AllFree xs ⊎ TakenBy test xs → allows_one test xs ≡ true
      backward (inl f) = rw (scan-AllFree xs false false f) refl
      backward (inr (i, x, e, h)) = let s = scan_taken xs false false i x e h in ground arith
