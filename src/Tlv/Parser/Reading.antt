-- ===== src/Tlv/Parser/Reading.antt =====
-- matter/src/tlv/parser.rs: what `next` reads from the bytes of an element.
use matter_rs.Base.{
  ℕ, suc, ◌+◌, ◌-◌, ◌*◌, ◌/◌, ◌%◌, ◌^◌, ◌<◌, ◌≡◌, refl, sym, ap, ◌∙◌, true, false, ltb, leb, le→leb,
  List, [], ◌∷◌, ◌++◌, append_assoc, length, length-append, drop, drop-append, take-append, some,
  ok, and_then, arith, bit_and,
}
use matter_rs.Base.Bytes.{LittleEndian}
use matter_rs.Base.Bits.{every_below, table_eq}
use matter_rs.ParseBuf.{index, read_at}
use matter_rs.Tlv.Tag.{
  TagType, anonymous, context, common_prf16, common_prf32, impl_prf16, impl_prf32, full_qual48,
  full_qual64, Fits, tag_id, tag_val, tag_size, tag_size_map-tag_id, tag_id-lt, ElementCode,
  codes-number, number, number-lt,
}
use matter_rs.Tlv.Writer.Laws.{control, element_bytes}
use matter_rs.Tlv.Element.{ElementType, is_last}
use matter_rs.Tlv.Parser.{
  TlvListIterator, try_some, advance, extract_tag, extract_value, read_length_value, string_or_last,
  read_sized_tag, read_this_tag, read_sized_value, take_value, read_this_value, read_body,
  read_element, next,
}
use matter_rs.Tlv.Parser.Values.{value_size, value_size-codes}

-- The iterator in the middle of its bytes.
abbrev pub at : List ℕ → List ℕ → TlvListIterator
at pre xs = record { buf = pre ++ xs; current = length pre; left = length xs }

index-at : (pre : List ℕ) (b : ℕ) (xs : List ℕ) → index (pre ++ b ∷ xs) (length pre) ≡ ok b
index-at [] b xs = refl
index-at (x ∷ pre) b xs = index-at pre b xs

advance-at :
    (pre a xs : List ℕ) (n : ℕ)
    → n ≡ length a
    → advance n (at pre (a ++ xs)) ≡ (ok (some tt), at (pre ++ a) xs)
unfolding advance
advance-at pre a xs n e =
    let fits : leb n (length (a ++ xs)) ≡ true = le→leb _ _ (omega (arith, length-append a xs)) in
    let p : pre ++ (a ++ xs) ≡ (pre ++ a) ++ xs = sym (append_assoc pre a xs) in
    let q : length pre + n ≡ length (pre ++ a) = omega (arith, length-append pre a) in
    let r : length (a ++ xs) - n ≡ length xs = omega (arith, length-append a xs) in
    rw fits (λ i. (ok (some tt), record { buf = p i; current = q i; left = r i }))

module _ ⦃le : LittleEndian⦄ where
  read_at-at :
      (pre : List ℕ) (n v : ℕ) (xs : List ℕ)
      → v < 256 ^ n
      → read_at n (pre ++ (le.write n v ++ xs)) (length pre) ≡ ok v
  read_at-at pre n v xs h =
      let fits : leb (length pre + n) (length (pre ++ (le.write n v ++ xs))) ≡ true = le→leb _ _ (
        omega (
          arith,
          length-append pre (le.write n v ++ xs),
          length-append (le.write n v) xs,
          le.length-write n v,
        )) in
      rw (fits, drop-append pre (le.write n v ++ xs) (length pre) refl, le.read-write n v xs h) refl

  -- The first byte of an element.
  fields :
      (t c : ℕ)
      → t < 8
      → c < 25
      → (bit_and (t * 32 + c) 0xe0 / 2 ^ 5 ≡ t) × (bit_and (t * 32 + c) 0x1f ≡ c)
  unfolding every_below
  fields t c h k =
      let a : (t * 32 + c) / 32 ≡ t = omega arith in
      let b : (t * 32 + c) % 32 ≡ c = omega arith in
      (
        table_eq (λ x. bit_and x 0xe0 / 2 ^ 5) (λ x. x / 32) 256 refl (t * 32 + c) (omega arith)
            ∙ a,
        table_eq (λ x. bit_and x 0x1f) (λ x. x % 32) 256 refl (t * 32 + c) (omega arith) ∙ b,
      )

  abbrev tag_bytes : TagType → List ℕ
  tag_bytes t = le.write (tag_size t) (tag_val t)

  extract_tag-at :
      (t : TagType) (pre xs : List ℕ)
      → Fits t
      → extract_tag (tag_id t) (at pre (tag_bytes t ++ xs)) ≡ ok t
  unfolding extract_tag
  extract_tag-at anonymous pre xs h = refl
  extract_tag-at (context v) pre xs h = rw (le.write_byte v h, index-at pre v xs) refl
  extract_tag-at (common_prf16 v) pre xs h = rw (read_at-at pre 2 v xs h) refl
  extract_tag-at (common_prf32 v) pre xs h = rw (read_at-at pre 4 v xs h) refl
  extract_tag-at (impl_prf16 v) pre xs h = rw (read_at-at pre 2 v xs h) refl
  extract_tag-at (impl_prf32 v) pre xs h = rw (read_at-at pre 4 v xs h) refl
  extract_tag-at (full_qual48 v) pre xs h = rw (read_at-at pre 6 v xs h) refl
  extract_tag-at (full_qual64 v) pre xs h = rw (read_at-at pre 8 v xs h) refl

  read_this_tag-at :
      (t : TagType) (pre xs : List ℕ)
      → Fits t
      → read_this_tag (tag_id t) (at pre (tag_bytes t ++ xs))
        ≡ (ok (some t), at (pre ++ tag_bytes t) xs)
  unfolding read_this_tag read_sized_tag try_some
  read_this_tag-at t pre xs h =
      let known : leb 8 (tag_id t) ≡ false = ground (arith, tag_id-lt t) in
      let fits : ltb (length (tag_bytes t ++ xs)) (tag_size t) ≡ false =
        ground (arith, length-append (tag_bytes t) xs, le.length-write (tag_size t) (tag_val t)) in
      rw
        (
          known,
          tag_size_map-tag_id t,
          fits,
          extract_tag-at t pre xs h,
          advance-at pre (tag_bytes t) xs (tag_size t)
              (sym (le.length-write (tag_size t) (tag_val t))),
        )
        refl

  -- The row of `code` reads `value` from exactly the bytes of `body`.
  pub record ReadsValue (code : ElementCode) (body : List ℕ) (value : ElementType) : Type 0 where
    pub extra : ℕ
    pub sized : value_size code + extra ≡ length body
    pub whole : is_last value ≡ false
    pub extracts : (pre xs : List ℕ) → extract_value code (at pre (body ++ xs)) ≡ ok (extra, value)

  read_this_value-at :
      (code : ElementCode) (body : List ℕ) (value : ElementType) (pre xs : List ℕ)
      → ReadsValue code body value
      → read_this_value (number code) (at pre (body ++ xs)) ≡ (ok (some value), at (pre ++ body) xs)
  unfolding read_this_value read_sized_value take_value try_some
  read_this_value-at code body value pre xs r =
      let known : leb 25 (number code) ≡ false = ground (arith, number-lt code) in
      let fits : ltb (length (body ++ xs)) (value_size code) ≡ false =
        ground (arith, length-append body xs, r.sized) in
      rw
        (
          known,
          codes-number code,
          value_size-codes (number code) code (codes-number code),
          fits,
          r.extracts pre xs,
          r.whole,
          advance-at pre body xs (value_size code + r.extra) r.sized,
        )
        refl

  -- `next` reads an element back from its bytes, whatever stands before and behind them.
  pub next-at :
      (t : TagType) (code : ElementCode) (body : List ℕ) (value : ElementType) (pre xs : List ℕ)
      → Fits t
      → ReadsValue code body value
      → next (at pre (element_bytes t code body ++ xs)) ≡ (
        ok (some (record { tag_type = t; element_type = value })),
        at (pre ++ element_bytes t code body) xs,
      )
  unfolding next read_element read_body try_some
  next-at t code body value pre xs h r =
      let b = control t code in
      let f = fields (tag_id t) (number code) (tag_id-lt t) (number-lt code) in
      let inner = tag_bytes t ++ body in
      let nonempty : ltb (suc (length (tag_bytes t ++ (body ++ xs)))) 1 ≡ false = ground arith in
      rw
        (
          index-at pre b (inner ++ xs),
          advance-at pre (b ∷ []) (inner ++ xs) 1 refl,
          f.0,
          f.1,
          append_assoc (tag_bytes t) body xs,
          read_this_tag-at t (pre ++ b ∷ []) (body ++ xs) h,
          read_this_value-at code body value ((pre ++ b ∷ []) ++ tag_bytes t) xs r,
          append_assoc (pre ++ b ∷ []) (tag_bytes t) body,
          append_assoc pre (b ∷ []) inner,
          nonempty,
        )
        refl

  -- A fixed row, and the rows without a value.
  pub fixed-ReadsValue :
      (code : ElementCode) (n v : ℕ) (f : ℕ → ElementType)
      → value_size code ≡ n
      → v < 256 ^ n
      → is_last (f v) ≡ false
      → ((t : TlvListIterator)
          → extract_value code t ≡ and_then (read_at n t.buf t.current) (λ x. ok (0, f x)))
      → ReadsValue code (le.write n v) (f v)
  fixed-ReadsValue code n v f e h w k = record {
    extra = 0;
    sized = omega (arith, le.length-write n v);
    whole = w;
    extracts = λ pre xs. rw (k (at pre (le.write n v ++ xs)), read_at-at pre n v xs h) refl;
  }

  pub byte-ReadsValue :
      (code : ElementCode) (v : ℕ) (f : ℕ → ElementType)
      → value_size code ≡ 1
      → is_last (f v) ≡ false
      → ((t : TlvListIterator)
          → extract_value code t ≡ and_then (index t.buf t.current) (λ x. ok (0, f x)))
      → ReadsValue code (v ∷ []) (f v)
  byte-ReadsValue code v f e w k = record {
    extra = 0;
    sized = omega arith;
    whole = w;
    extracts = λ pre xs. rw (k (at pre (v ∷ xs)), index-at pre v xs) refl;
  }

  pub empty-ReadsValue :
      (code : ElementCode) (value : ElementType)
      → value_size code ≡ 0
      → is_last value ≡ false
      → ((t : TlvListIterator) → extract_value code t ≡ ok (0, value))
      → ReadsValue code [] value
  empty-ReadsValue code value e w k = record {
    extra = 0;
    sized = omega arith;
    whole = w;
    extracts = λ pre xs. k (at pre xs);
  }

  read_length_value-at :
      (n : ℕ) (s pre xs : List ℕ)
      → length s < 256 ^ n
      → read_length_value n (at pre ((le.write n (length s) ++ s) ++ xs)) ≡ ok (length s, s)
  unfolding read_length_value
  read_length_value-at n s pre xs h =
      let size = le.length-write n (length s) in
      let all = le.write n (length s) ++ (s ++ xs) in
      let fits : ltb (length all) (length s + n) ≡ false =
        ground (arith, length-append (le.write n (length s)) (s ++ xs), length-append s xs, size) in
      let here : drop (length pre + n) (pre ++ all) ≡ s ++ xs =
        ap (λ l. drop l (pre ++ all))
          (omega (arith, length-append pre (le.write n (length s)), size))
        ∙ ap (drop (length (pre ++ le.write n (length s))))
            (sym (append_assoc pre (le.write n (length s)) (s ++ xs)))
        ∙ drop-append (pre ++ le.write n (length s)) (s ++ xs) _ refl in
      let ordered : leb (length pre + n) (length pre + n + length s) ≡ true =
        le→leb _ _ (omega arith) in
      let inside : leb (length pre + n + length s) (length (pre ++ all)) ≡ true = le→leb _ _ (
        omega (
          arith,
          length-append pre all,
          length-append (le.write n (length s)) (s ++ xs),
          length-append s xs,
          size,
        )) in
      let width : length pre + n + length s - (length pre + n) ≡ length s = omega arith in
      rw
        (
          append_assoc (le.write n (length s)) s xs,
          read_at-at pre n (length s) (s ++ xs) h,
          fits,
          ordered,
          inside,
          here,
          width,
          take-append s xs (length s) refl,
        )
        refl

  pub string-ReadsValue :
      (code : ElementCode) (n : ℕ) (s : List ℕ) (f : List ℕ → ElementType)
      → value_size code ≡ n
      → length s < 256 ^ n
      → is_last (f s) ≡ false
      → ((t : TlvListIterator) → extract_value code t ≡ string_or_last f (read_length_value n t))
      → ReadsValue code (le.write n (length s) ++ s) (f s)
  string-ReadsValue code n s f e h w k = record {
    extra = length s;
    sized = omega (arith, length-append (le.write n (length s)) s, le.length-write n (length s));
    whole = w;
    extracts = λ pre xs.
        rw (k (at pre ((le.write n (length s) ++ s) ++ xs)), read_length_value-at n s pre xs h)
          refl;
  }
