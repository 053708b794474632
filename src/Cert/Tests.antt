-- ===== src/Cert/Tests.antt =====
-- The writer of certificates at a concrete input.
use matter_rs.Base.{◌≡◌, refl, arith, [], ◌∷◌, replicate, ok, panic, true}
use matter_rs.Cert.Asn1Writer.{Asn1Writer, new, bitstr, as_slice}
use matter_rs.Cert.Asn1Writer.BitString.{bitstr_zeros}
use matter_rs.Cert.Asn1Writer.Tree.{Der, simple, structure, done, also, write, as_slice-write}

-- A sequence of an integer and an empty set.
abbrev tree : Der
tree = structure 0x30 (also (simple 0x02 (5 ∷ [])) (also (structure 0x31 done) done))

as_slice-write_example :
    ((write tree (new (replicate 20 0))).0 ≡ ok tt)
    × (as_slice (write tree (new (replicate 20 0))).1 ≡ ok (0x30 ∷ 5 ∷ 2 ∷ 1 ∷ 5 ∷ 0x31 ∷ 0 ∷ []))
as_slice-write_example =
    as_slice-write tree (replicate 20 0) (omega arith, (omega arith, ((omega arith, tt), tt)))
      (omega arith) (omega arith)

abbrev writer : Asn1Writer
writer = new (replicate 20 0)

bitstr_zeros_example : (bitstr true (0 ∷ 0 ∷ []) writer).0 ≡ panic
bitstr_zeros_example = bitstr_zeros (0 ∷ 0 ∷ []) writer (refl, (refl, tt))
