-- ===== src/Tlv/Parser/Values.antt =====
-- matter/src/tlv/parser.rs: what `read_this_value` does on any input.
use matter_rs.Base.{
  ℕ, zero, suc, ◌+◌, ◌≤◌, ◌≡◌, refl, ltb, leb, if◌then◌else◌, List, [], ◌∷◌, length, get_elem?,
  get_elem?_total, inl, inr, Bool-cases, map, segment, some, none, Result, ok, err, no_space,
  and_then, arith,
}
use matter_rs.Base.Bytes.{LittleEndian}
use matter_rs.WriteBuf.{slice}
use matter_rs.Tlv.Tag.{TagType, ElementCode, codes, tag_size_map}
use matter_rs.Tlv.Tag
use matter_rs.Tlv.Element.{ElementType, TlvElement, is_last}
use matter_rs.Tlv.Element
use matter_rs.Tlv.Parser.{
  TlvListIterator, try_some, advance, observe, extract_value, read_length_value, string_or_last,
  read_sized_value, take_value, read_this_value, value_size_map,
}
use matter_rs.Tlv.Parser.Settling.{
  IsValid, Settles, stop-Settles, try_some-Settles, advance-Settles, IsOk, index-IsOk,
}
use matter_rs.Tlv.Parser.Tags.{read_at-IsOk}

module _ ⦃le : LittleEndian⦄ where
  -- The value that a row reads is in the bytes that are left, as its extra size says.
  pub record Extracts (size : ℕ) (t : TlvListIterator) (r : Result (ℕ × ElementType)) : Type 0 where
    pub value : ℕ × ElementType
    pub reads : r ≡ ok value
    pub fits : size + value.0 ≤ t.left

  pub plain-Extracts :
      (size : ℕ) (e : ElementType) (t : TlvListIterator)
      → size ≤ t.left
      → Extracts size t (ok (0, e))
  plain-Extracts size e t h = record { value = (0, e); reads = refl; fits = omega arith }

  pub fixed-Extracts :
      (f : ℕ → ElementType) (size : ℕ) (t : TlvListIterator) (r : Result ℕ)
      → size ≤ t.left
      → IsOk r
      → Extracts size t (and_then r (λ v. ok (0, f v)))
  fixed-Extracts f size t r h (a, e) = rw e (plain-Extracts size (f a) t h)

  pub slice-IsOk :
      (xs : List ℕ) (i j : ℕ) → i ≤ j → j ≤ length xs → slice xs i j ≡ ok (segment xs i j)
  slice-IsOk xs i j h k = ground arith

  pub string-Extracts :
      (f : List ℕ → ElementType) (size : ℕ) (t : TlvListIterator)
      → IsValid t
      → size ≤ t.left
      → Extracts size t (string_or_last f (read_length_value size t))
  unfolding read_length_value
  string-Extracts f size t v h = rw (read_at-IsOk size t v h).1 (body (read_at-IsOk size t v h).0)
    where
      body :
          (n : ℕ)
          → Extracts size t (
              string_or_last f (
                if ltb t.left (n + size)
                then err no_space
                else and_then
                    (slice t.buf (t.current + size) (t.current + size + n))
                    (λ s. ok (n, s))))
      body n = elim (Bool-cases (ltb t.left (n + size))) [
        | inl long ↦ rw long (plain-Extracts size Element.last t h)
        | inr short ↦
            let e =
              slice-IsOk t.buf (t.current + size) (t.current + size + n) (omega arith)
                (ground (arith, v.within)) in
            rw (short, e)
              (record {
                value = (n, f (segment t.buf (t.current + size) (t.current + size + n)));
                reads = refl;
                fits = ground arith;
              })
      ]

  -- The size in the table of each row.
  abbrev pub value_size : ElementCode → ℕ
  value_size Tag.s8 = 1
  value_size Tag.s16 = 2
  value_size Tag.s32 = 4
  value_size Tag.s64 = 8
  value_size Tag.u8 = 1
  value_size Tag.u16 = 2
  value_size Tag.u32 = 4
  value_size Tag.u64 = 8
  value_size Tag.f32 = 4
  value_size Tag.f64 = 8
  value_size Tag.utf8l = 1
  value_size Tag.utf16l = 2
  value_size Tag.utf32l = 4
  value_size Tag.utf64l = 8
  value_size Tag.str8l = 1
  value_size Tag.str16l = 2
  value_size Tag.str32l = 4
  value_size Tag.str64l = 8
  value_size c = 0

  pub extract_value-Extracts :
      (c : ElementCode) (t : TlvListIterator)
      → IsValid t
      → value_size c ≤ t.left
      → Extracts (value_size c) t (extract_value c t)
  unfolding extract_value
  extract_value-Extracts Tag.s8 t v h = fixed-Extracts _ 1 t _ h (index-IsOk t v h)
  extract_value-Extracts Tag.s16 t v h = fixed-Extracts _ 2 t _ h (read_at-IsOk 2 t v h)
  extract_value-Extracts Tag.s32 t v h = fixed-Extracts _ 4 t _ h (read_at-IsOk 4 t v h)
  extract_value-Extracts Tag.s64 t v h = fixed-Extracts _ 8 t _ h (read_at-IsOk 8 t v h)
  extract_value-Extracts Tag.u8 t v h = fixed-Extracts _ 1 t _ h (index-IsOk t v h)
  extract_value-Extracts Tag.u16 t v h = fixed-Extracts _ 2 t _ h (read_at-IsOk 2 t v h)
  extract_value-Extracts Tag.u32 t v h = fixed-Extracts _ 4 t _ h (read_at-IsOk 4 t v h)
  extract_value-Extracts Tag.u64 t v h = fixed-Extracts _ 8 t _ h (read_at-IsOk 8 t v h)
  extract_value-Extracts Tag.utf8l t v h = string-Extracts _ 1 t v h
  extract_value-Extracts Tag.utf16l t v h = string-Extracts _ 2 t v h
  extract_value-Extracts Tag.str8l t v h = string-Extracts _ 1 t v h
  extract_value-Extracts Tag.str16l t v h = string-Extracts _ 2 t v h
  extract_value-Extracts c t v h = plain-Extracts (value_size c) _ t h

  pub take_value-Settles :
      (size : ℕ) (x : ℕ × ElementType) (t : TlvListIterator)
      → size + x.0 ≤ t.left
      → Settles t (take_value size x t)
  unfolding take_value
  take_value-Settles size (extra, element) t h = elim (Bool-cases (is_last element)) [
    | inl e ↦ rw e (stop-Settles none t)
    | inr e ↦ rw e (
        try_some-Settles (advance (size + extra)) _ t (advance-Settles (size + extra) t h)
          λ _. stop-Settles (some element) _)
  ]

  pub read_sized_value-Settles :
      (c : ElementCode) (t : TlvListIterator)
      → IsValid t
      → Settles t (read_sized_value c (value_size c) t)
  unfolding read_sized_value try_some
  read_sized_value-Settles c t v = elim (Bool-cases (ltb t.left (value_size c))) [
    | inl e ↦ rw e (stop-Settles none t)
    | inr e ↦ rw e (read (extract_value-Extracts c t v (ground arith)))
  ]
    where
      read :
          Extracts (value_size c) t (extract_value c t)
          → Settles t (try_some (observe (extract_value c)) (take_value (value_size c)) t)
      read x = rw x.reads (take_value-Settles (value_size c) x.value t x.fits)

  pub value_size-codes :
      (n : ℕ) (c : ElementCode)
      → get_elem? codes n ≡ some c
      → get_elem? value_size_map n ≡ some (value_size c)
  value_size-codes n c e = go codes n e
    where
      go :
          (xs : List ElementCode) (k : ℕ)
          → get_elem? xs k ≡ some c
          → get_elem? (map value_size xs) k ≡ some (value_size c)
      go [] k h = cc
      go (x ∷ xs) zero h = cc
      go (x ∷ xs) (suc k) h = go xs k h

  pub read_this_value-Settles :
      (n : ℕ) (t : TlvListIterator) → IsValid t → Settles t (read_this_value n t)
  unfolding read_this_value
  read_this_value-Settles n t v = elim (Bool-cases (leb 25 n)) [
    | inl h ↦ rw h (stop-Settles none t)
    | inr h ↦
        let (c, e) = get_elem?_total codes n (ground arith) in
        rw (h, e, value_size-codes n c e) (read_sized_value-Settles c t v)
  ]
