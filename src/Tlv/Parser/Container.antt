-- ===== src/Tlv/Parser/Container.antt =====
-- matter/src/tlv/parser.rs: the iterator over the elements of one container, which skips what is
-- nested in them, and the search for a tag. The two loops run on fuel, one more than the bytes
-- that are left.
pub mod Total
use matter_rs.Base.{
  ℕ, zero, suc, ◌%◌, ◌^◌, Bool, true, false, if◌then◌else◌, Option, some, none, Result, ok, err,
  panic, no_tag_found, tlv_type_mismatch,
}
use matter_rs.Base.Exec.{Exec}
use matter_rs.Base.Bytes.{LittleEndian}
use matter_rs.Tlv.Tag.{TagType, context, tag_eq}
use matter_rs.Tlv.Element.{TlvElement, is_container, is_end_cnt, pointer}
use matter_rs.Tlv.Parser.{TlvListIterator, from_pointer, next}

pub record TlvContainerIterator : Type 0 where
  pub list_iter : TlvListIterator
  pub prev_container : Bool
  pub iterator_consumed : Bool

unfoldable pub enter : TlvElement → Option TlvContainerIterator
unfolding pointer
enter t = elim (pointer t.element_type) [
  | none ↦ none
  | some p ↦
      some
        (record { list_iter = from_pointer p; prev_container = false; iterator_consumed = false })
]

module _ ⦃le : LittleEndian⦄ where
  -- `self.list_iter.next()`.
  unfoldable pub next_in_list : Exec TlvContainerIterator (Option TlvElement)
  unfolding next
  next_in_list c = let (r, it) = next c.list_iter in (r, record c { list_iter = it })

  -- The element that follows a container, which may be the end of the container around it.
  abbrev pub following : Result (Option TlvElement) → Exec TlvContainerIterator (Option TlvElement)
  following (ok (some last_elem)) c =
      if is_end_cnt last_elem.element_type
      then (ok none, record c { iterator_consumed = true })
      else (ok (some last_elem), c)
  following r c = (r, c)

  -- The body of the loop, with the rest of the loop as `again`.
  abbrev pub skip_step :
      (ℕ → Exec TlvContainerIterator (Option TlvElement))
      → ℕ
      → Result (Option TlvElement)
      → Exec TlvContainerIterator (Option TlvElement)
  skip_step again nest_level (ok (some element)) c =
      if is_end_cnt element.element_type
      then (elim nest_level [
        | zero ↦ following (next_in_list c).0 (next_in_list c).1
        | suc n ↦ again n c
      ])
      else again (if is_container element.element_type then suc nest_level else nest_level) c
  skip_step again nest_level r c = (r, c)

  unfoldable pub skip_to_end_of_container : ℕ → ℕ → Exec TlvContainerIterator (Option TlvElement)
  unfolding next_in_list is_container
  skip_to_end_of_container zero nest_level c = (panic, c)
  skip_to_end_of_container (suc fuel) nest_level c =
      skip_step (skip_to_end_of_container fuel) nest_level (next_in_list c).0 (next_in_list c).1

  -- `next`, behind the choice of the element.
  abbrev pub deliver : Result (Option TlvElement) → Exec TlvContainerIterator (Option TlvElement)
  deliver (ok (some element)) c =
      if is_end_cnt element.element_type
      then (ok none, record c { iterator_consumed = true })
      else (ok (some element), record c { prev_container = is_container element.element_type })
  deliver r c = (r, c)

  abbrev pub candidate : Exec TlvContainerIterator (Option TlvElement)
  candidate c =
      if c.prev_container
      then skip_to_end_of_container (suc c.list_iter.left) 0 c
      else next_in_list c

  unfoldable pub next_in_container : Exec TlvContainerIterator (Option TlvElement)
  unfolding skip_to_end_of_container next_in_list is_container
  next_in_container c =
      if c.iterator_consumed then (ok none, c) else deliver (candidate c).0 (candidate c).1

  -- The body of the loop of `find_tag`.
  abbrev pub find_step :
      (TlvContainerIterator → Result TlvElement)
      → TagType
      → Result (Option TlvElement)
      → TlvContainerIterator
      → Result TlvElement
  find_step again match_tag (ok none) c = err no_tag_found
  find_step again match_tag (ok (some a)) c = if tag_eq match_tag a.tag_type then ok a else again c
  find_step again match_tag (err e) c = err e
  find_step again match_tag panic c = panic

  unfoldable pub find_in : ℕ → TagType → TlvContainerIterator → Result TlvElement
  unfolding next_in_container
  find_in zero match_tag c = panic
  find_in (suc fuel) match_tag c =
      find_step (find_in fuel match_tag) match_tag (next_in_container c).0 (next_in_container c).1

  unfoldable pub find_tag : ℕ → TlvElement → Result TlvElement
  unfolding find_in enter
  find_tag tag t = elim (enter t) [
    | none ↦ err tlv_type_mismatch
    | some c ↦ find_in (suc c.list_iter.left) (context (tag % 2 ^ 8)) c
  ]
