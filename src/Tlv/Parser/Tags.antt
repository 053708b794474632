-- ===== src/Tlv/Parser/Tags.antt =====
-- matter/src/tlv/parser.rs: what `read_this_tag` does on any input.
use matter_rs.Base.{
  ℕ, zero, suc, ◌≤◌, ◌≡◌, refl, false, ltb, leb, get_elem?, get_elem?_total, inl, inr, Bool-cases,
  some, none, Result, ok, and_then, arith, drop,
}
use matter_rs.Base.Bytes.{LittleEndian}
use matter_rs.ParseBuf.{read_at}
use matter_rs.Tlv.Tag.{TagType, ElementCode, codes, tag_size_map}
use matter_rs.Tlv.Tag
use matter_rs.Tlv.Parser.{
  TlvListIterator, try_some, advance, observe, extract_tag, read_sized_tag, read_this_tag,
}
use matter_rs.Tlv.Parser.Settling.{
  IsValid, Settles, stop-Settles, try_some-Settles, advance-Settles, IsOk, observe-Settles,
  index-IsOk,
}

module _ ⦃le : LittleEndian⦄ where
  pub read_at-IsOk :
      (n : ℕ) (t : TlvListIterator) → IsValid t → n ≤ t.left → IsOk (read_at n t.buf t.current)
  read_at-IsOk n t v h = (le.read n (drop t.current t.buf), ground (arith, v.within))

  pub and_then-IsOk {ℓ κ} :
      {A : Type ℓ} {B : Type κ} (r : Result A) (f : A → B)
      → IsOk r
      → IsOk (and_then r (λ a. ok (f a)))
  and_then-IsOk r f (a, e) = (f a, rw e refl)

  -- A tag of a fixed width, whose size the table gives.
  pub tag-IsOk :
      (f : ℕ → TagType) (n size : ℕ) (t : TlvListIterator)
      → some n ≡ some size
      → IsValid t
      → size ≤ t.left
      → IsOk (and_then (read_at n t.buf t.current) (λ v. ok (f v)))
  tag-IsOk f n size t e v h =
      let s : n ≡ size = cc in and_then-IsOk _ f (read_at-IsOk n t v (omega arith))

  pub extract_tag-IsOk :
      (n size : ℕ) (t : TlvListIterator)
      → get_elem? tag_size_map n ≡ some size
      → IsValid t
      → size ≤ t.left
      → IsOk (extract_tag n t)
  unfolding extract_tag
  extract_tag-IsOk zero size t e v h = (Tag.anonymous, refl)
  extract_tag-IsOk (suc zero) size t e v h =
      let s : 1 ≡ size = cc in and_then-IsOk _ Tag.context (index-IsOk t v (omega arith))
  extract_tag-IsOk (suc (suc zero)) size t e v h = tag-IsOk Tag.common_prf16 2 size t e v h
  extract_tag-IsOk (suc (suc (suc zero))) size t e v h = tag-IsOk Tag.common_prf32 4 size t e v h
  extract_tag-IsOk (suc (suc (suc (suc zero)))) size t e v h =
      tag-IsOk Tag.impl_prf16 2 size t e v h
  extract_tag-IsOk (suc (suc (suc (suc (suc zero))))) size t e v h =
      tag-IsOk Tag.impl_prf32 4 size t e v h
  extract_tag-IsOk (suc (suc (suc (suc (suc (suc zero)))))) size t e v h =
      tag-IsOk Tag.full_qual48 6 size t e v h
  extract_tag-IsOk (suc (suc (suc (suc (suc (suc (suc zero))))))) size t e v h =
      tag-IsOk Tag.full_qual64 8 size t e v h
  extract_tag-IsOk (suc (suc (suc (suc (suc (suc (suc (suc n)))))))) size t e v h = cc

  pub read_sized_tag-Settles :
      (n size : ℕ) (t : TlvListIterator)
      → get_elem? tag_size_map n ≡ some size
      → IsValid t
      → Settles t (read_sized_tag n size t)
  unfolding read_sized_tag
  read_sized_tag-Settles n size t e v = elim (Bool-cases (ltb t.left size)) [
    | inl h ↦ rw h (stop-Settles none t)
    | inr h ↦ rw h (read h)
  ]
    where
      read :
          ltb t.left size ≡ false
          → Settles t (
              try_some
                (observe (extract_tag n))
                (λ tag. try_some (advance size) λ _. λ s. (ok (some tag), s))
                t)
      read h =
          let o =
            observe-Settles (extract_tag n) t (extract_tag-IsOk n size t e v (ground arith)) in
          try_some-Settles (observe (extract_tag n)) _ t o λ tag.
            try_some-Settles (advance size) _ t (advance-Settles size t (ground arith))
              λ _. stop-Settles (some tag) _

  pub read_this_tag-Settles :
      (n : ℕ) (t : TlvListIterator) → IsValid t → Settles t (read_this_tag n t)
  unfolding read_this_tag
  read_this_tag-Settles n t v = elim (Bool-cases (leb 8 n)) [
    | inl h ↦ rw h (stop-Settles none t)
    | inr h ↦
        let (size, e) = get_elem?_total tag_size_map n (ground arith) in
        rw (h, e) (read_sized_tag-Settles n size t e v)
  ]
