-- ===== src/Tlv/Tests.antt =====
-- The theorems of the tag-length-value format at concrete inputs.
use matter_rs.Base.{
  ℕ, ◌≡◌, ◌⊎◌, ◌<◌, ◌≤◌, refl, List, [], ◌∷◌, replicate, Option, none, true, false, ok, arith,
}
use matter_rs.Base.Bytes.{reference_le}
use matter_rs.WriteBuf.{WriteBuf}
use matter_rs.Tlv.Tag
use matter_rs.Tlv.Writer
use matter_rs.Tlv.Element.{TlvElement, Pointer, get_u64, get_slice}
use matter_rs.Tlv.Element
use matter_rs.Tlv.Parser.{TlvListIterator, next, iter}
use matter_rs.Tlv.Parser.Settling.{IsValid, Settles}
use matter_rs.Tlv.Parser.Total.{next_total}
use matter_rs.Tlv.Parser.Container.{TlvContainerIterator, next_in_container}
use matter_rs.Tlv.Parser.Container.Total.{next_in_container_total}
use matter_rs.Tlv.RoundTrip.{parsed, parsed-u64}
use matter_rs.Tlv.RoundTrip.Strings.{parsed-str16, parsed-str8_of_256}

abbrev buffer : WriteBuf
buffer = record { buf = replicate 32 0; start = 0; end = 0 }

-- A tag that is cut off after its control byte, and a structure that holds a structure.
abbrev cut_off : TlvListIterator
cut_off = iter (0x24 ∷ [])

abbrev nested : List ℕ
nested = 0x15 ∷ 0x35 ∷ 1 ∷ 0x24 ∷ 2 ∷ 9 ∷ 0x18 ∷ 0x24 ∷ 3 ∷ 7 ∷ 0x18 ∷ []

abbrev inside : TlvContainerIterator
inside = record {
  list_iter = record { buf = nested; current = 3; left = 8 };
  prev_container = true;
  iterator_consumed = false;
}

parsed-u64_example :
    (e : TlvElement) × (parsed (Writer.u64 (Tag.context 3) 70000 buffer).1 ≡ ok e)
    × (e.tag_type ≡ Tag.context 3)
    × (get_u64 e ≡ ok 70000)
parsed-u64_example =
    parsed-u64 (Tag.context 3) 70000 buffer (omega arith) (omega arith)
      (record { ordered = omega arith; within = omega arith }) refl (omega arith)

parsed-str16_example :
    (e : TlvElement) × (parsed (Writer.str16 (Tag.context 3) (5 ∷ 6 ∷ []) buffer).1 ≡ ok e)
    × (e.tag_type ≡ Tag.context 3)
    × (get_slice e ≡ ok (5 ∷ 6 ∷ []))
parsed-str16_example =
    parsed-str16 (Tag.context 3) (5 ∷ 6 ∷ []) buffer (omega arith)
      (record { ordered = omega arith; within = omega arith }) refl (omega arith)

abbrev large : WriteBuf
large = record { buf = replicate 300 0; start = 0; end = 0 }

parsed-str8_of_256_example :
    ((Writer.str8 (Tag.context 1) (replicate 256 7) large).0 ≡ ok tt)
    × (parsed (Writer.str8 (Tag.context 1) (replicate 256 7) large).1
        ≡ ok (record { tag_type = Tag.context 1; element_type = Element.str8l [] }))
parsed-str8_of_256_example =
    parsed-str8_of_256 (Tag.context 1) (replicate 256 7) large (omega arith) refl
      (record { ordered = omega arith; within = omega arith }) refl (omega arith)

next_total_example :
    Settles cut_off (next cut_off)
    × (((cut_off.left ≡ 0) × (next cut_off ≡ (ok none, cut_off)))
        ⊎ ((next cut_off).1.left < cut_off.left))
next_total_example = next_total cut_off (record { within = omega arith })

next_in_container_total_example :
    (o : Option TlvElement) × ((next_in_container inside).0 ≡ ok o)
    × IsValid (next_in_container inside).1.list_iter
    × ((next_in_container inside).1.list_iter.left ≤ inside.list_iter.left)
    × ((o ≡ none) ⊎ ((next_in_container inside).1.list_iter.left < inside.list_iter.left))
next_in_container_total_example = next_in_container_total inside (record { within = omega arith })
