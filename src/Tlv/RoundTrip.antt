-- ===== src/Tlv/RoundTrip.antt =====
-- matter/src/tlv: what the writer writes, the parser reads back.
pub mod Strings
use matter_rs.Base.{
  ℕ, ◌+◌, ◌-◌, ◌%◌, ◌^◌, ◌≤◌, ◌<◌, ◌≡◌, refl, sym, ap, ◌∙◌, subst, Bool, true, false, ltb, leb,
  le→leb, if◌then◌else◌, ltb→lt, leb→le, Bool-cases, ◌⊎◌, inl, inr, ◌&&◌, List, [], ◌∷◌, ◌++◌,
  append-nil, append_assoc, length, length-append, segment, take-append, Result, ok, err, and_then,
  ok_or, invalid_data, arith,
}
use matter_rs.Base.Exec.{Exec, ◌>>=◌, ◌>>◌}
use matter_rs.Base.Bytes.{LittleEndian}
use matter_rs.Base.Int.{ℤ, to_word, of_word, of_word-to_word, InRange}
use matter_rs.WriteBuf.{WriteBuf, as_slice}
use matter_rs.WriteBuf.Laws.{
  as_slice-contents, IsValid, contents, Writes, >>-Writes, le_u8-Writes, le_i8-Writes,
  le_u16-Writes, le_u32-Writes, le_u64-Writes, copy_from_slice-Writes, Writes-contents,
}
use matter_rs.Tlv.Tag.{TagType, anonymous, Fits, tag_size, tag_val, ElementCode}
use matter_rs.Tlv.Tag
use matter_rs.Tlv.Writer
use matter_rs.Tlv.Writer.Laws.{put_control_tag-Writes, element_bytes, control}
use matter_rs.Tlv.Element.{ElementType, TlvElement, is_last, get_u64, get_i8, get_slice, get_bool}
use matter_rs.Tlv.Element
use matter_rs.Tlv.Parser.{next, get_root_node, extract_value, iter}
use matter_rs.Tlv.Parser.Reading.{
  at, next-at, ReadsValue, fixed-ReadsValue, byte-ReadsValue, empty-ReadsValue, string-ReadsValue,
}

module _ ⦃le : LittleEndian⦄ where
  -- The writer writes one element, which the parser reads as `value`.
  pub record Encodes (m : Exec WriteBuf (Unit {0})) (t : TagType) (value : ElementType)
      : Type 0 where
    pub code : ElementCode
    pub body : List ℕ
    pub writes : Writes m (element_bytes t code body)
    pub reads : ReadsValue code body value

  -- Room for the element, at its widest tag.
  abbrev pub HasRoom : WriteBuf → ℕ → Type 0
  HasRoom w n = w.end + (9 + n) ≤ length w.buf

  -- The buffer's slice, parsed from its first element.
  abbrev pub parsed : WriteBuf → Result TlvElement
  parsed w = and_then (as_slice w) get_root_node

  pub tag_size-le : (t : TagType) → tag_size t ≤ 8
  tag_size-le anonymous = omega arith
  tag_size-le _ = omega arith

  get_root_node_lem :
      (t : TagType) (code : ElementCode) (body : List ℕ) (value : ElementType)
      → Fits t
      → ReadsValue code body value
      → get_root_node (element_bytes t code body)
        ≡ ok (record { tag_type = t; element_type = value })
  unfolding get_root_node
  get_root_node_lem t code body value h r =
      subst
        (λ b.
          and_then (next (iter b)).0 (λ o. ok_or o invalid_data)
          ≡ ok (record { tag_type = t; element_type = value }))
        (append-nil (element_bytes t code body))
        (ap (λ x. and_then x.0 (λ o. ok_or o invalid_data)) (next-at t code body value [] [] h r))

  pub Encodes-parsed :
      {m : Exec WriteBuf (Unit {0})} {t : TagType} {value : ElementType} (n : ℕ) (w : WriteBuf)
      → (e : Encodes m t value) → Fits t
      → length (e.body) ≤ n
      → IsValid w
      → contents w ≡ []
      → HasRoom w n
      → parsed (m w).1 ≡ ok (record { tag_type = t; element_type = value })
  Encodes-parsed {m} {t} {value} n w e h small v empty room =
      let bytes = element_bytes t e.code e.body in
      let size : w.end + length bytes ≤ length w.buf = omega (
        arith,
        length-append (le.write (tag_size t) (tag_val t)) e.body,
        le.length-write (tag_size t) (tag_val t),
        tag_size-le t,
      ) in
      let (done, valid, after) = Writes-contents w e.writes v size in
      rw (as_slice-contents (m w).1 valid, after, empty)
        (get_root_node_lem t e.code e.body value h e.reads)

  -- The writers, each with the row that reads its element.
  pub element-Encodes :
      {rest : Exec WriteBuf (Unit {0})} {value : ElementType} (t : TagType) (code : ElementCode)
      (body : List ℕ)
      → Fits t
      → Writes rest body
      → ReadsValue code body value
      → Encodes (do Writer.put_control_tag t code; rest) t value
  element-Encodes {rest} t code body h w r = record {
    code = code;
    body = body;
    writes =
        subst (Writes (do Writer.put_control_tag t code; rest))
          (append_assoc (control t code ∷ []) (le.write (tag_size t) (tag_val t)) body)
          (>>-Writes (put_control_tag-Writes t code h) w);
    reads = r;
  }

  u8-Encodes : (t : TagType) (v : ℕ) → Fits t → v < 256 → Encodes (Writer.u8 t v) t (Element.u8 v)
  unfolding Writer.u8 extract_value
  u8-Encodes t v h k =
      element-Encodes t Tag.u8 (v ∷ []) h (le_u8-Writes v)
        (byte-ReadsValue Tag.u8 v Element.u8 refl refl (λ x. refl))

  i8-Encodes :
      (t : TagType) (z : ℤ) → Fits t → InRange 128 z → Encodes (Writer.i8 t z) t (Element.s8 z)
  unfolding Writer.i8 extract_value
  i8-Encodes t z h k = element-Encodes t Tag.s8 (to_word 128 z ∷ []) h (le_i8-Writes z) (
      subst (λ x. ReadsValue Tag.s8 (to_word 128 z ∷ []) (Element.s8 x)) (of_word-to_word 128 z k)
        (byte-ReadsValue Tag.s8 (to_word 128 z) (λ x. Element.s8 (of_word 128 x)) refl refl
          (λ x. refl)))

  -- What an element of an unsigned type stands for.
  abbrev Unsigned : Exec WriteBuf (Unit {0}) → TagType → ℕ → ℕ → Type 0
  Unsigned m t n v =
      (value : ElementType) × (e : Encodes m t value) × (length (e.body) ≤ n)
      × (get_u64 (record { tag_type = t; element_type = value }) ≡ ok v)

  u8-Unsigned : (t : TagType) (v : ℕ) → Fits t → v < 256 → Unsigned (Writer.u8 t v) t 8 v
  unfolding get_u64 u8-Encodes element-Encodes
  u8-Unsigned t v h k = (Element.u8 v, u8-Encodes t v h k, omega arith, refl)

  u16-Unsigned : (t : TagType) (v : ℕ) → Fits t → v < 2 ^ 16 → Unsigned (Writer.u16 t v) t 8 v
  unfolding get_u64 Writer.u16 element-Encodes extract_value
  u16-Unsigned t v h k = elim (Bool-cases (leb v 0xff)) [
    | inl s ↦ rw s (u8-Unsigned t v h (ground arith))
    | inr s ↦ rw s (
      Element.u16 v,
      element-Encodes t Tag.u16 (le.write 2 v) h (le_u16-Writes v)
          (fixed-ReadsValue Tag.u16 2 v Element.u16 refl k refl (λ x. refl)),
      omega (arith, le.length-write 2 v),
      refl,
    )
  ]

  u32-Unsigned : (t : TagType) (v : ℕ) → Fits t → v < 2 ^ 32 → Unsigned (Writer.u32 t v) t 8 v
  unfolding get_u64 Writer.u32 element-Encodes extract_value
  u32-Unsigned t v h k = elim (Bool-cases (leb v 0xff)) [
    | inl s ↦ rw s (u8-Unsigned t v h (ground arith))
    | inr s ↦ elim (Bool-cases (leb v 0xffff)) [
      | inl r ↦ rw (s, r) (u16-Unsigned t v h (ground arith))
      | inr r ↦
          rw (s, r)
            (
              Element.u32 v,
              element-Encodes t Tag.u32 (le.write 4 v) h (le_u32-Writes v)
                  (fixed-ReadsValue Tag.u32 4 v Element.u32 refl k refl (λ x. refl)),
              omega (arith, le.length-write 4 v),
              refl,
            )
    ]
  ]

  u64-Unsigned : (t : TagType) (v : ℕ) → Fits t → v < 2 ^ 64 → Unsigned (Writer.u64 t v) t 8 v
  unfolding get_u64 Writer.u64 element-Encodes extract_value
  u64-Unsigned t v h k = elim (Bool-cases (leb v 0xff)) [
    | inl s ↦ rw s (u8-Unsigned t v h (ground arith))
    | inr s ↦ elim (Bool-cases (leb v 0xffff)) [
      | inl r ↦ rw (s, r) (u16-Unsigned t v h (ground arith))
      | inr r ↦ elim (Bool-cases (leb v 0xffffffff)) [
        | inl q ↦ rw (s, r, q) (u32-Unsigned t v h (ground arith))
        | inr q ↦
            rw (s, r, q)
              (
                Element.u64 v,
                element-Encodes t Tag.u64 (le.write 8 v) h (le_u64-Writes v)
                    (fixed-ReadsValue Tag.u64 8 v Element.u64 refl k refl (λ x. refl)),
                omega (arith, le.length-write 8 v),
                refl,
              )
      ]
    ]
  ]

  -- An unsigned number below 2 ^ 64 that is written with a tag that fits into an empty valid buffer
  -- with room for it, whatever width the writer picks, is parsed back with its tag, and `u64`
  -- answers the number.
  pub parsed-u64 :
      (t : TagType) (v : ℕ) (w : WriteBuf)
      → Fits t
      → v < 2 ^ 64
      → IsValid w
      → contents w ≡ []
      → HasRoom w 8
      → (e : TlvElement) × (parsed (Writer.u64 t v w).1 ≡ ok e)
        × (e.tag_type ≡ t)
        × (get_u64 e ≡ ok v)
  parsed-u64 t v w h k valid empty room =
      let (value, e, small, got) = u64-Unsigned t v h k in
      (
        record { tag_type = t; element_type = value },
        Encodes-parsed 8 w e h small valid empty room,
        refl,
        got,
      )
