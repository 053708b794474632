-- ===== src/Tlv/Writer/Laws.antt =====
-- matter/src/tlv/writer.rs: the bytes of each element.
use matter_rs.Base.{
  ℕ, ◌+◌, ◌*◌, ◌/◌, ◌%◌, ◌<◌, ◌≡◌, refl, List, [], ◌∷◌, ◌++◌, length, arith, bit_or,
}
use matter_rs.Base.Bytes.{LittleEndian}
use matter_rs.Base.Bits.{every_below, table_eq}
use matter_rs.WriteBuf.Laws.{Writes, >>-Writes, pure-Writes, le_u8-Writes, le_uint-Writes}
use matter_rs.Tlv.Tag.{
  TagType, anonymous, context, common_prf16, common_prf32, impl_prf16, impl_prf32, full_qual48,
  full_qual64, tag_id, tag_val, tag_size, ElementCode, number, Fits, number-lt, tag_id-lt,
}
use matter_rs.Tlv.Writer.{put_tag, put_control_tag}

-- The control byte.
abbrev pub control : TagType → ElementCode → ℕ
control tag code = tag_id tag * 32 + number code

bit_or_fields : (t v : ℕ) → t < 8 → v < 32 → bit_or (t * 32) v ≡ t * 32 + v
unfolding every_below
bit_or_fields t v h k =
    let a : (t * 32 + v) / 32 ≡ t = omega arith in
    let b : (t * 32 + v) % 32 ≡ v = omega arith in
    rw (a, b) at
      (table_eq (λ x. bit_or (x / 32 * 32) (x % 32)) (λ x. x) 256 refl (t * 32 + v) (omega arith))

module _ ⦃le : LittleEndian⦄ where
  -- The control byte and the tag, with `body` behind them.
  abbrev pub element_bytes : TagType → ElementCode → List ℕ → List ℕ
  element_bytes tag code body =
      (control tag code ∷ []) ++ (le.write (tag_size tag) (tag_val tag) ++ body)

  no_tag : le.write 0 0 ≡ []
  no_tag = empty (le.write 0 0) (le.length-write 0 0)
    where
      empty : (xs : List ℕ) → length xs ≡ 0 → xs ≡ []
      empty [] h = refl
      empty (x ∷ xs) h = absurd (omega arith)

  put_tag-Writes :
      (tag : TagType) → Fits tag → Writes (put_tag tag) (le.write (tag_size tag) (tag_val tag))
  unfolding put_tag
  put_tag-Writes anonymous h = rw no_tag pure-Writes
  put_tag-Writes (context v) h = le_uint-Writes 1 v h (omega arith)
  put_tag-Writes (common_prf16 v) h = le_uint-Writes 2 v h (omega arith)
  put_tag-Writes (common_prf32 v) h = le_uint-Writes 4 v h (omega arith)
  put_tag-Writes (impl_prf16 v) h = le_uint-Writes 2 v h (omega arith)
  put_tag-Writes (impl_prf32 v) h = le_uint-Writes 4 v h (omega arith)
  put_tag-Writes (full_qual48 v) h = le_uint-Writes 6 v h (omega arith)
  put_tag-Writes (full_qual64 v) h = le_uint-Writes 8 v h (omega arith)

  pub put_control_tag-Writes :
      (tag : TagType) (code : ElementCode)
      → Fits tag
      → Writes
          (put_control_tag tag code)
          ((control tag code ∷ []) ++ le.write (tag_size tag) (tag_val tag))
  unfolding put_control_tag
  put_control_tag-Writes tag code h =
      let n = number-lt code in
      rw (bit_or_fields (tag_id tag) (number code) (tag_id-lt tag) (omega (arith, n)))
        (>>-Writes (le_u8-Writes (control tag code)) (put_tag-Writes tag h))
