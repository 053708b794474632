-- ===== src/Cert/Asn1Writer/Moving.antt =====
-- matter/src/cert/asn1_writer.rs: the loop of `end_compound` moves a segment back.
use matter_rs.Base.{
  ℕ, zero, suc, ◌+◌, ◌≤◌, ◌<◌, ◌≡◌, refl, sym, ap, ◌∙◌, arith, List, [], ◌∷◌, length, take, drop,
  splice, set, get_elem?, get_elem?_total, length-set, splice-nil, some, ok,
}
use matter_rs.Cert.Asn1Writer.{move_back}

module _ {ℓ} {A : Type ℓ} where
  drop-set : (xs : List A) (i j : ℕ) (v : A) → i < j → drop j (set xs i v) ≡ drop j xs
  drop-set [] i j v h = refl
  drop-set (x ∷ xs) zero (suc j) v h = refl
  drop-set (x ∷ xs) (suc i) (suc j) v h = drop-set xs i j v (omega arith)
  drop-set (x ∷ xs) i zero v h = absurd (omega arith)

  drop_at :
      (xs : List A) (i : ℕ) (v : A) → get_elem? xs i ≡ some v → drop i xs ≡ v ∷ drop (suc i) xs
  drop_at [] i v h = cc
  drop_at (x ∷ xs) zero v h = cc
  drop_at (x ∷ xs) (suc i) v h = drop_at xs i v h

  splice_at :
      (xs : List A) (i : ℕ) (v : A) (ys : List A)
      → splice (set xs i v) (suc i) ys ≡ splice xs i (v ∷ ys)
  splice_at [] i v ys = refl
  splice_at (x ∷ xs) zero v ys = refl
  splice_at (x ∷ xs) (suc i) v ys = ap (◌∷◌ x) (splice_at xs i v ys)

  pub drop-splice :
      (xs : List A) (i j : ℕ) (ys : List A)
      → i + length ys ≤ j
      → drop j (splice xs i ys) ≡ drop j xs
  drop-splice [] i j ys h = refl
  drop-splice (x ∷ xs) (suc i) zero ys h = absurd (omega arith)
  drop-splice (x ∷ xs) (suc i) (suc j) ys h = drop-splice xs i j ys (omega arith)
  drop-splice (x ∷ xs) zero j [] h = refl
  drop-splice (x ∷ xs) zero zero (y ∷ ys) h = absurd (omega arith)
  drop-splice (x ∷ xs) zero (suc j) (y ∷ ys) h = drop-splice xs zero j ys (omega arith)

-- The loop copies the segment as it was, although the two places may overlap.
pub move_back_lem :
    (n write_offset shift_len : ℕ) (buf : List ℕ)
    → 0 < shift_len
    → write_offset + shift_len + n ≤ length buf
    → move_back n write_offset shift_len buf
      ≡ ok (splice buf write_offset (take n (drop (write_offset + shift_len) buf)))
unfolding move_back
move_back_lem zero w s buf h room = ap ok (sym (splice-nil buf w))
move_back_lem (suc n) w s buf h room =
    let (byte, here) = get_elem?_total buf (w + s) (omega arith) in
    let rest =
      move_back_lem n (w + 1) s (set buf w byte) h (omega (arith, length-set buf w byte)) in
    let next : w + 1 ≡ suc w = omega arith in
    let later : w + 1 + s ≡ suc (w + s) = omega arith in
    let tail = take n (drop (suc (w + s)) buf) in
    let moved : take n (drop (w + 1 + s) (set buf w byte)) ≡ tail =
      ap (take n) (drop-set buf w (w + 1 + s) byte (omega arith) ∙ ap (λ k. drop k buf) later) in
    rw (here, move_back)
      (rest
        ∙ ap (λ ys. ok (splice (set buf w byte) (w + 1) ys)) moved
        ∙ ap (λ k. ok (splice (set buf w byte) k tail)) next
        ∙ ap ok (splice_at buf w byte tail)
        ∙ ap (λ ys. ok (splice buf w (take (suc n) ys))) (sym (drop_at buf (w + s) byte here)))
