-- ===== src/Tlv/Parser/Total.antt =====
-- matter/src/tlv/parser.rs: the iterator on any input.
use matter_rs.Base.{
  ℕ, ◌+◌, ◌-◌, ◌≤◌, ◌<◌, ◌≡◌, refl, true, false, ltb, le→leb, inl, inr, ◌⊎◌, Option, some, none, ok,
  arith,
}
use native.Mathlib.Decide.{dec_le}
use matter_rs.Base.Exec.{Exec}
use matter_rs.Base.Bytes.{LittleEndian}
use matter_rs.ParseBuf.{index}
use matter_rs.Tlv.Element.{TlvElement}
use matter_rs.Tlv.Parser.{TlvListIterator, try_some, advance, read_body, read_element, next}
use matter_rs.Tlv.Parser.Settling.{
  IsValid, Settles, Settles-IsValid, stop-Settles, try_some-Settles, index-IsOk,
}
use matter_rs.Tlv.Parser.Tags.{read_this_tag-Settles}
use matter_rs.Tlv.Parser.Values.{read_this_value-Settles}

module _ ⦃le : LittleEndian⦄ where
  -- Settles from every valid place.
  record AlwaysSettles {A : Type 0} (m : Exec TlvListIterator (Option A)) : Type 0 where
    settles : (t : TlvListIterator) → IsValid t → Settles t (m t)

  try_some-AlwaysSettles :
      {A B : Type 0} {m : Exec TlvListIterator (Option A)} {f : A → Exec TlvListIterator (Option B)}
      → AlwaysSettles m
      → ((a : A) → AlwaysSettles (f a))
      → AlwaysSettles (try_some m f)
  try_some-AlwaysSettles {m = m} {f} p q = record {
    settles = λ t v.
        try_some-Settles m f t (p.settles t v)
          λ a. (q a).settles (m t).1 (Settles-IsValid t (m t) (p.settles t v) v);
  }

  read_body-AlwaysSettles : (control : ℕ) → AlwaysSettles (read_body control)
  unfolding read_body
  read_body-AlwaysSettles control =
      try_some-AlwaysSettles (record { settles = read_this_tag-Settles _ })
        λ tag_type.
          try_some-AlwaysSettles (record { settles = read_this_value-Settles _ })
            λ element_type. record { settles = λ t v. stop-Settles (some _) t }

  abbrev behind : TlvListIterator → TlvListIterator
  behind t = record t { current = t.current + 1; left = t.left - 1 }

  read_element_lem :
      (t : TlvListIterator) (b : ℕ)
      → index t.buf t.current ≡ ok b
      → 1 ≤ t.left
      → read_element t ≡ read_body b (behind t)
  unfolding read_element try_some advance
  read_element_lem t b e h = rw (e, le→leb 1 t.left h) refl

  -- An element takes at least its control byte, whether it is whole or not.
  next_nonempty :
      (t : TlvListIterator)
      → IsValid t
      → 1 ≤ t.left
      → Settles t (next t) × ((next t).1.left < t.left)
  unfolding next
  next_nonempty t v h =
      let (b, e) = index-IsOk t v h in
      let s = (read_body-AlwaysSettles b).settles (behind t) (omega (arith, v.within)) in
      let nonempty : ltb t.left 1 ≡ false = ground arith in
      rw (nonempty, read_element_lem t b e h)
        (
          record {
            answer = s.answer;
            answers = s.answers;
            same_buf = s.same_buf;
            same_end = omega (arith, s.same_end);
            shrinks = omega (arith, s.shrinks);
          },
          omega (arith, s.shrinks),
        )

  next_empty : (t : TlvListIterator) → t.left ≡ 0 → next t ≡ (ok none, t)
  unfolding next
  next_empty t h = let e : ltb t.left 1 ≡ true = ground arith in rw e

  pub next-Settles :
      (t : TlvListIterator)
      → IsValid t
      → Settles t (next t)
        × ((e : TlvElement) → (next t).0 ≡ ok (some e) → (next t).1.left < t.left)
  next-Settles t v = elim (dec_le 1 t.left) [
    | yes h ↦ let n = next_nonempty t v h in (n.0, λ e q. n.1)
    | no h ↦ rw (next_empty t (omega arith)) (stop-Settles none t, λ e q. cc)
  ]

  -- From every valid place `next` answers without a panic, on the same bytes and with nothing read
  -- beyond their end. At the end of the bytes it answers no element and stays; before it, it leaves
  -- less to read than there was, whatever the bytes are.
  pub next_total :
      (t : TlvListIterator)
      → IsValid t
      → Settles t (next t) × (((t.left ≡ 0) × (next t ≡ (ok none, t))) ⊎ ((next t).1.left < t.left))
  next_total t v = elim (dec_le 1 t.left) [
    | yes h ↦ let n = next_nonempty t v h in (n.0, inr n.1)
    | no h ↦ let e = next_empty t (omega arith) in ((next-Settles t v).0, inl (omega arith, e))
  ]
