-- ===== src/Cert/Asn1Writer/BitString.antt =====
-- matter/src/cert/asn1_writer.rs: a bit string without a bit that is set.
use matter_rs.Base.{
  ℕ, zero, suc, ◌-◌, ◌≡◌, refl, arith, true, leb, List, [], ◌∷◌, length, All, get_elem?, some,
  Option-cases, inl, inr, panic,
}
use matter_rs.Base.Exec.{◌>>=◌}
use matter_rs.Cert.Asn1Writer.{Asn1Writer, last_nonzero, bitstr}

zero_at : (s : List ℕ) (i byte : ℕ) → All (λ b. b ≡ 0) s → get_elem? s i ≡ some byte → byte ≡ 0
zero_at [] i byte all e = cc
zero_at (b ∷ s) zero byte all e = cc (all.0)
zero_at (b ∷ s) (suc i) byte all e = zero_at s i byte all.1 e

last_nonzero_zeros : (i : ℕ) (s : List ℕ) → All (λ b. b ≡ 0) s → last_nonzero i s ≡ panic
unfolding last_nonzero
last_nonzero_zeros zero s all = elim (Option-cases (get_elem? s 0)) [
  | inl e ↦ rw (e, last_nonzero) refl
  | inr (byte, e) ↦ rw (e, last_nonzero) (rw (zero_at s 0 byte all e) refl)
]
last_nonzero_zeros (suc i) s all = elim (Option-cases (get_elem? s (suc i))) [
  | inl e ↦ rw (e, last_nonzero) refl
  | inr (byte, e) ↦
      rw (e, last_nonzero) (rw (zero_at s (suc i) byte all e) (last_nonzero_zeros i s all))
]

-- A bit string whose bytes are all 0, also the empty one, is a panic where the zeros at its end are
-- to be stripped.
pub bitstr_zeros : (s : List ℕ) (a : Asn1Writer) → All (λ b. b ≡ 0) s → (bitstr true s a).0 ≡ panic
unfolding bitstr ◌>>=◌
bitstr_zeros [] a all = refl
bitstr_zeros (b ∷ s) a all =
    let some_byte : leb 1 (length (b ∷ s)) ≡ true = ground arith in
    rw some_byte (rw (last_nonzero_zeros (length (b ∷ s) - 1) (b ∷ s) all) refl)
