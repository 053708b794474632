-- ===== src/Tlv/RoundTrip/Strings.antt =====
-- matter/src/tlv: octet strings, written and read back.
use matter_rs.Base.{
  ℕ, ◌+◌, ◌%◌, ◌^◌, ◌≤◌, ◌<◌, ◌≡◌, refl, sym, ap, ◌∙◌, subst, false, ltb, leb, Bool-cases, inl, inr,
  List, [], ◌∷◌, ◌++◌, append_assoc, length, length-append, take, drop, length-take, length-drop,
  take_all, take-append-drop, ok, and_then, ok_or, invalid_data, arith,
}
use matter_rs.Base.Exec.{Exec, ◌>>◌}
use matter_rs.Base.Bytes.{LittleEndian}
use matter_rs.WriteBuf.{WriteBuf, le_u8, le_u16, copy_from_slice}
use matter_rs.WriteBuf.Laws.{
  as_slice-contents, IsValid, contents, Writes, >>-Writes, le_u8-Writes, le_u16-Writes,
  copy_from_slice-Writes, Writes-contents,
}
use matter_rs.Tlv.Tag.{ElementCode, TagType, Fits, tag_size, tag_val}
use matter_rs.Tlv.Tag
use matter_rs.Tlv.Writer
use matter_rs.Tlv.Writer.Laws.{put_control_tag-Writes, element_bytes, control}
use matter_rs.Tlv.Element.{ElementType, TlvElement, get_slice}
use matter_rs.Tlv.Element
use matter_rs.Tlv.Parser.{next, get_root_node, extract_value, iter}
use matter_rs.Tlv.Parser.Reading.{next-at, string-ReadsValue, ReadsValue}
use matter_rs.Tlv.RoundTrip.{Encodes, HasRoom, parsed, Encodes-parsed, element-Encodes, tag_size-le}

module _ ⦃le : LittleEndian⦄ where
  -- What an element of a string type stands for.
  abbrev StringOf : Exec WriteBuf (Unit {0}) → TagType → List ℕ → Type 0
  StringOf m t s =
      (value : ElementType) × (e : Encodes m t value) × (length (e.body) ≤ 2 + length s)
      × (get_slice (record { tag_type = t; element_type = value }) ≡ ok s)

  str8-StringOf :
      (t : TagType) (s : List ℕ) → Fits t → length s < 256 → StringOf (Writer.str8 t s) t s
  unfolding Writer.str8 extract_value get_slice element-Encodes
  str8-StringOf t s h k =
      let short : ltb 256 (length s) ≡ false = ground arith in
      let e : length s % 2 ^ 8 ≡ length s = omega arith in
      rw (short, e)
        (
          Element.str8l s,
          element-Encodes t Tag.str8l (le.write 1 (length s) ++ s) h
              (subst (λ b. Writes (le_u8 (length s) >> copy_from_slice s) (b ++ s))
                (sym (le.write_byte (length s) k))
                (>>-Writes (le_u8-Writes (length s)) (copy_from_slice-Writes s)))
              (string-ReadsValue Tag.str8l 1 s Element.str8l refl k refl (λ x. refl)),
          omega (arith, length-append (le.write 1 (length s)) s, le.length-write 1 (length s)),
          refl,
        )

  str16-StringOf :
      (t : TagType) (s : List ℕ) → Fits t → length s < 2 ^ 16 → StringOf (Writer.str16 t s) t s
  unfolding Writer.str16 extract_value get_slice element-Encodes
  str16-StringOf t s h k = elim (Bool-cases (leb (length s) 0xff)) [
    | inl short ↦ rw short (str8-StringOf t s h (ground arith))
    | inr long ↦
        let e : length s % 2 ^ 16 ≡ length s = omega arith in
        rw (long, e)
          (
            Element.str16l s,
            element-Encodes t Tag.str16l (le.write 2 (length s) ++ s) h
                (>>-Writes (le_u16-Writes (length s)) (copy_from_slice-Writes s))
                (string-ReadsValue Tag.str16l 2 s Element.str16l refl k refl (λ x. refl)),
            omega (arith, length-append (le.write 2 (length s)) s, le.length-write 2 (length s)),
            refl,
          )
  ]

  -- What is parsed of an element with more bytes behind it.
  front-parsed :
      {m : Exec WriteBuf (Unit {0})} (t : TagType) (code : ElementCode) (body rest : List ℕ)
      (value : ElementType) (w : WriteBuf)
      → Fits t
      → ReadsValue code body value
      → Writes m (element_bytes t code (body ++ rest))
      → IsValid w
      → contents w ≡ []
      → HasRoom w (length body + length rest)
      → ((m w).0 ≡ ok tt) × (parsed (m w).1 ≡ ok (record { tag_type = t; element_type = value }))
  unfolding get_root_node
  front-parsed {m} t code body rest value w h r writes valid empty room =
      let tag = le.write (tag_size t) (tag_val t) in
      let size : w.end + length (element_bytes t code (body ++ rest)) ≤ length w.buf = omega (
        arith,
        length-append tag (body ++ rest),
        length-append body rest,
        le.length-write (tag_size t) (tag_val t),
        tag_size-le t,
      ) in
      let (done, sound, after) = Writes-contents w writes valid size in
      let same : element_bytes t code body ++ rest ≡ element_bytes t code (body ++ rest) =
        ap (◌∷◌ (control t code)) (append_assoc tag body rest) in
      (
        done,
        (rw (as_slice-contents (m w).1 sound, after, empty)
            (subst
              (λ b.
                and_then (next (iter b)).0 (λ o. ok_or o invalid_data)
                ≡ ok (record { tag_type = t; element_type = value }))
              same
              (ap (λ x. and_then x.0 (λ o. ok_or o invalid_data))
                (next-at t code body value [] rest h r)))),
      )

  str16_long-Writes :
      (t : TagType) (s : List ℕ)
      → Fits t
      → 2 ^ 16 ≤ length s
      → Writes (Writer.str16 t s) (element_bytes t Tag.str16l (le.write 2 (length s % 2 ^ 16) ++ s))
  unfolding Writer.str16
  str16_long-Writes t s h k =
      let long : leb (length s) 0xff ≡ false = ground arith in
      let n = length s % 2 ^ 16 in
      rw long (
        subst (Writes (do Writer.put_control_tag t Tag.str16l; le_u16 n; copy_from_slice s))
          (append_assoc (control t Tag.str16l ∷ []) (le.write (tag_size t) (tag_val t))
            (le.write 2 n ++ s))
          (>>-Writes (put_control_tag-Writes t Tag.str16l h)
            (>>-Writes (le_u16-Writes n) (copy_from_slice-Writes s))))

  -- A string of 2 ^ 16 bytes or more is written with its length modulo 2 ^ 16.
  parsed-str16_long :
      (t : TagType) (s : List ℕ) (w : WriteBuf)
      → Fits t
      → 2 ^ 16 ≤ length s
      → IsValid w
      → contents w ≡ []
      → HasRoom w (2 + length s)
      → (e : TlvElement) × (parsed (Writer.str16 t s w).1 ≡ ok e)
        × (e.tag_type ≡ t)
        × (get_slice e ≡ ok (take (length s % 2 ^ 16) s))
  unfolding extract_value get_slice
  parsed-str16_long t s w h k valid empty room =
      let n = length s % 2 ^ 16 in
      let front = take n s in
      let rest = drop n s in
      let size : length front ≡ n = length-take n s (omega (arith, k)) in
      let body = le.write 2 (length front) ++ front in
      let split : le.write 2 n ++ s ≡ body ++ rest =
        ap (λ x. le.write 2 n ++ x) (sym (take-append-drop n s))
        ∙ ap (λ j. le.write 2 j ++ (front ++ rest)) (sym size)
        ∙ sym (append_assoc (le.write 2 (length front)) front rest) in
      let r =
        string-ReadsValue Tag.str16l 2 front Element.str16l refl (omega (arith, size)) refl
          (λ x. refl) in
      let writes =
        subst (λ b. Writes (Writer.str16 t s) (element_bytes t Tag.str16l b)) split
          (str16_long-Writes t s h k) in
      let wide : HasRoom w (length body + length rest) = omega (
        arith,
        room,
        size,
        length-append (le.write 2 (length front)) front,
        le.length-write 2 (length front),
        length-drop n s,
      ) in
      let (_, e) =
        front-parsed t Tag.str16l body rest (Element.str16l front) w h r writes valid empty wide in
      (record { tag_type = t; element_type = Element.str16l front }, e, refl, refl)

  parsed-str16_short :
      (t : TagType) (s : List ℕ) (w : WriteBuf)
      → Fits t
      → length s < 2 ^ 16
      → IsValid w
      → contents w ≡ []
      → HasRoom w (2 + length s)
      → (e : TlvElement) × (parsed (Writer.str16 t s w).1 ≡ ok e)
        × (e.tag_type ≡ t)
        × (get_slice e ≡ ok s)
  parsed-str16_short t s w h k valid empty room =
      let (value, e, small, got) = str16-StringOf t s h k in
      (
        record { tag_type = t; element_type = value },
        Encodes-parsed (2 + length s) w e h small valid empty room,
        refl,
        got,
      )

  -- Of an octet string of any length, that `str16` writes with a tag that fits into an empty valid buffer
  -- with room for it, as many bytes as its length modulo 2 ^ 16 are parsed back, with its tag: all of
  -- them below 2 ^ 16, and only these above, since the length is cast without a check.
  pub parsed-str16 :
      (t : TagType) (s : List ℕ) (w : WriteBuf)
      → Fits t
      → IsValid w
      → contents w ≡ []
      → HasRoom w (2 + length s)
      → (e : TlvElement) × (parsed (Writer.str16 t s w).1 ≡ ok e)
        × (e.tag_type ≡ t)
        × (get_slice e ≡ ok (take (length s % 2 ^ 16) s))
  parsed-str16 t s w h valid empty room = elim (Bool-cases (leb (2 ^ 16) (length s))) [
    | inl long ↦ parsed-str16_long t s w h (ground (arith, long)) valid empty room
    | inr short ↦
        let below : length s < 2 ^ 16 = ground (arith, short) in
        let (e, read, tag, got) = parsed-str16_short t s w h below valid empty room in
        let whole : take (length s % 2 ^ 16) s ≡ s =
          take_all (length s % 2 ^ 16) s (omega (arith, below)) in
        (e, read, tag, got ∙ ap ok (sym whole))
  ]

  str8_of_256-Writes :
      (t : TagType) (s : List ℕ)
      → Fits t
      → length s ≡ 256
      → Writes (Writer.str8 t s) (element_bytes t Tag.str8l (0 ∷ s))
  unfolding Writer.str8
  str8_of_256-Writes t s h k =
      let passes : ltb 256 (length s) ≡ false = ground arith in
      let e : length s % 2 ^ 8 ≡ 0 = omega (arith, k) in
      rw (passes, e)
        (subst (Writes (do Writer.put_control_tag t Tag.str8l; le_u8 0; copy_from_slice s))
          (append_assoc (control t Tag.str8l ∷ []) (le.write (tag_size t) (tag_val t)) (0 ∷ s))
          (>>-Writes (put_control_tag-Writes t Tag.str8l h)
            (>>-Writes (le_u8-Writes 0) (copy_from_slice-Writes s))))

  -- The size check of `str8` lets a string of exactly 256 bytes through, whose length byte is then 0:
  -- in an empty valid buffer with room for it, with a tag that fits, the write succeeds and `slice`
  -- of what is parsed back is empty.
  pub parsed-str8_of_256 :
      (t : TagType) (s : List ℕ) (w : WriteBuf)
      → Fits t
      → length s ≡ 256
      → IsValid w
      → contents w ≡ []
      → HasRoom w 257
      → ((Writer.str8 t s w).0 ≡ ok tt)
        × (parsed (Writer.str8 t s w).1
            ≡ ok (record { tag_type = t; element_type = Element.str8l [] }))
  unfolding get_root_node extract_value
  parsed-str8_of_256 t s w h k valid empty room =
      let r = string-ReadsValue Tag.str8l 1 [] Element.str8l refl (omega arith) refl (λ x. refl) in
      let zero_ : le.write 1 0 ≡ 0 ∷ [] = le.write_byte 0 (omega arith) in
      let writes =
        subst (λ b. Writes (Writer.str8 t s) (element_bytes t Tag.str8l ((b ++ []) ++ s)))
          (sym zero_) (str8_of_256-Writes t s h k) in
      front-parsed t Tag.str8l (le.write 1 0 ++ []) s (Element.str8l []) w h r writes valid empty
        (omega (arith, k, length-append (le.write 1 0) [], le.length-write 1 0))
