-- ===== src/Cert/Asn1Writer/Tree.antt =====
-- matter/src/cert/asn1_writer.rs: well-nested calls of `write_str`, `add_compound` and `end_compound`,
-- as the tree that they write.
use matter_rs.Base.{
  ℕ, suc, ◌+◌, ◌≤◌, ◌<◌, ◌≡◌, refl, ap, arith, leb, le→leb, if◌then◌else◌, List, [], ◌++◌, length,
  length-append, ok,
}
use matter_rs.Base.Exec.{Exec, pure, ◌>>◌}
use matter_rs.Cert.Asn1Writer.{
  Asn1Writer, max_depth, new, write_str, add_compound, end_compound, as_slice,
}
use matter_rs.Cert.Asn1Writer.Laws.{
  IsValid, Appends, der_length, length-der_length, element, >>-Appends, nested-Appends,
  nothing-Appends, write_str-Appends,
}
use matter_rs.Cert.Asn1Writer.Laws.Compound.{compound-Appends, bytes_of_le}

mutual
  -- A simple element, or a structure: its tag and what is in it.
  pub data Der : Type 0 where
    simple : ℕ → List ℕ → Der
    structure : ℕ → Ders → Der

  pub data Ders : Type 0 where
    done : Ders
    also : Der → Ders → Ders

abbrev mutual
  -- The calls that write an element.
  pub write : Der → Exec Asn1Writer (Unit {0})
  write (simple tag s) = write_str tag s
  write (structure tag ds) = add_compound tag >> (write_all ds >> end_compound)

  pub write_all : Ders → Exec Asn1Writer (Unit {0})
  write_all done = pure tt
  write_all (also d ds) = write d >> write_all ds

abbrev mutual
  -- The distinguished encoding: tag, shortest length, contents.
  pub encoding : Der → List ℕ
  encoding (simple tag s) = element tag s
  encoding (structure tag ds) = element tag (encoding_all ds)

  pub encoding_all : Ders → List ℕ
  encoding_all done = []
  encoding_all (also d ds) = encoding d ++ encoding_all ds

abbrev mutual
  -- The room that the writer wants, with four bytes for the start of each structure.
  pub need : Der → ℕ
  need (simple tag s) = length (element tag s)
  need (structure tag ds) = 4 + need_all ds

  pub need_all : Ders → ℕ
  need_all done = 0
  need_all (also d ds) = need d + need_all ds

abbrev most : ℕ → ℕ → ℕ
most a b = if leb a b then b else a

abbrev mutual
  pub nest : Der → ℕ
  nest (simple tag s) = 0
  nest (structure tag ds) = suc (nest_all ds)

  pub nest_all : Ders → ℕ
  nest_all done = 0
  nest_all (also d ds) = most (nest d) (nest_all ds)

abbrev mutual
  -- No contents are longer than a length of two octets can say.
  pub IsEncodable : Der → Type 0
  IsEncodable (simple tag s) = length s < 65536
  IsEncodable (structure tag ds) = (length (encoding_all ds) < 65536) × AllEncodable ds

  pub AllEncodable : Ders → Type 0
  AllEncodable done = Unit {0}
  AllEncodable (also d ds) = IsEncodable d × AllEncodable ds

mutual
  length-encoding : (d : Der) → length (encoding d) ≤ need d
  length-encoding (simple tag s) = omega arith
  length-encoding (structure tag ds) =
      let bs = encoding_all ds in
      omega (
        arith,
        length-append (der_length (length bs)) bs,
        length-der_length (length bs),
        bytes_of_le (length bs),
        length-encoding_all ds,
      )

  length-encoding_all : (ds : Ders) → length (encoding_all ds) ≤ need_all ds
  length-encoding_all done = omega arith
  length-encoding_all (also d ds) = omega (
    arith,
    length-append (encoding d) (encoding_all ds),
    length-encoding d,
    length-encoding_all ds,
  )

most_left : (a b : ℕ) → a ≤ most a b
most_left a b = ground arith

most_right : (a b : ℕ) → b ≤ most a b
most_right a b = ground arith

mutual
  write-Appends : (d : Der) → IsEncodable d → Appends (write d) (encoding d) (need d) (nest d)
  write-Appends (simple tag s) e = write_str-Appends tag s e
  write-Appends (structure tag ds) (small, e) =
      compound-Appends tag (write_all-Appends ds e) (length-encoding_all ds) small

  write_all-Appends :
      (ds : Ders)
      → AllEncodable ds
      → Appends (write_all ds) (encoding_all ds) (need_all ds) (nest_all ds)
  write_all-Appends done e = nothing-Appends
  write_all-Appends (also d ds) (e, f) =
      >>-Appends (nested-Appends (write-Appends d e) (most_left (nest d) (nest_all ds)))
        (nested-Appends (write_all-Appends ds f) (most_right (nest d) (nest_all ds)))
        (length-encoding d)

-- Every well-nested sequence of the calls `write_str`, `add_compound` and `end_compound`, less than ten
-- levels deep, with contents below 65536 bytes and with room for the reserved lengths, succeeds on a new
-- writer, and the result is the distinguished encoding of the tree: each element is its tag, the shortest
-- form of its length, and its contents.
pub as_slice-write :
    (d : Der) (buf : List ℕ)
    → IsEncodable d
    → need d ≤ length buf
    → nest d < max_depth
    → ((write d (new buf)).0 ≡ ok tt) × (as_slice (write d (new buf)).1 ≡ ok (encoding d))
unfolding new as_slice
as_slice-write d buf e room levels =
    let v : IsValid (new buf) = record { within = omega arith; levels = refl } in
    let (a, wrote, x) = (write-Appends d e).runs (new buf) v (omega arith) (omega arith) in
    let fits = le→leb a.offset (length a.buf) (omega (arith, x.size, x.end, length-encoding d)) in
    (rw wrote refl, rw wrote (rw fits (ap ok x.bytes)))
