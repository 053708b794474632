-- ===== src/Tlv/Parser.antt =====
-- matter/src/tlv/parser.rs: the iterator over the elements of a byte string. Every operation takes
-- the iterator and answers with what it has become.
pub mod Settling
pub mod Tags
pub mod Values
pub mod Total
pub mod Container
pub mod Reading
use matter_rs.Base.{
  ℕ, ◌+◌, ◌-◌, ◌*◌, ◌/◌, ◌%◌, ◌^◌, Bool, true, false, ltb, leb, if◌then◌else◌, List, [], ◌∷◌,
  length, get_elem?, segment, Option, some, none, Result, ok, err, panic, and_then, ok_or, no_space,
  invalid_data, bit_and,
}
use matter_rs.Base.Exec.{Exec}
use matter_rs.Base.Bytes.{LittleEndian}
use matter_rs.Base.Int.{of_word}
use matter_rs.ParseBuf.{index, read_at}
use matter_rs.WriteBuf.{slice}
use matter_rs.Tlv.Tag.{
  TagType, anonymous, context, common_prf16, common_prf32, impl_prf16, impl_prf32, full_qual48,
  full_qual64, tag_size_map, tag_mask, type_mask, tag_shift_bits, max_tag_index, ElementCode, codes,
}
use matter_rs.Tlv.Tag
use matter_rs.Tlv.Element.{Pointer, ElementType, TlvElement, is_last, confirm_struct, confirm_list}
use matter_rs.Tlv.Element

pub record TlvListIterator : Type 0 where
  pub buf : List ℕ
  pub current : ℕ
  pub left : ℕ

abbrev pub from_pointer : Pointer → TlvListIterator
from_pointer p = record { buf = p.buf; current = p.current; left = p.left }

abbrev pub to_pointer : TlvListIterator → Pointer
to_pointer t = record { buf = t.buf; current = t.current; left = t.left }

-- `TLVList::new(buf).iter()`.
abbrev pub iter : List ℕ → TlvListIterator
iter buf = record { buf = buf; current = 0; left = length buf }

-- The `?` operator on an optional value.
abbrev pub continue_some {ℓ κ} :
    {A : Type ℓ} {B : Type κ}
    → Result (Option A)
    → (A → Exec TlvListIterator (Option B))
    → Exec TlvListIterator (Option B)
continue_some (ok (some a)) f t = f a t
continue_some (ok none) f t = (ok none, t)
continue_some (err e) f t = (err e, t)
continue_some panic f t = (panic, t)

unfoldable pub try_some {ℓ κ} :
    {A : Type ℓ} {B : Type κ}
    → Exec TlvListIterator (Option A)
    → (A → Exec TlvListIterator (Option B))
    → Exec TlvListIterator (Option B)
try_some m f t = continue_some (m t).0 f (m t).1

-- `self.left -= len` panics below 0.
unfoldable pub advance : ℕ → Exec TlvListIterator (Option (Unit {0}))
advance len t =
    if leb len t.left
    then (ok (some tt), record t { current = t.current + len; left = t.left - len })
    else (panic, t)

-- `f(self)` on a shared reference.
abbrev pub observe {ℓ} :
    {A : Type ℓ} → (TlvListIterator → Result A) → Exec TlvListIterator (Option A)
observe f t = (and_then (f t) (λ a. ok (some a)), t)

-- `VALUE_SIZE_MAP`.
abbrev pub value_size_map : List ℕ
value_size_map =
    1 ∷ 2 ∷ 4 ∷ 8 ∷ 1 ∷ 2 ∷ 4 ∷ 8 ∷ 0 ∷ 0 ∷ 4 ∷ 8 ∷ 1 ∷ 2 ∷ 4 ∷ 8 ∷ 1 ∷ 2 ∷ 4 ∷ 8 ∷ 0 ∷ 0 ∷ 0 ∷ 0
    ∷ 0 ∷ []

abbrev pub max_value_index : ℕ
max_value_index = 25

module _ ⦃le : LittleEndian⦄ where
  -- `TAG_EXTRACTOR`.
  abbrev pub tag_extractor : List (TlvListIterator → Result TagType)
  tag_extractor =
      (λ t. ok anonymous)
      ∷ (λ t. and_then (index t.buf t.current) (λ v. ok (context v)))
      ∷ (λ t. and_then (read_at 2 t.buf t.current) (λ v. ok (common_prf16 v)))
      ∷ (λ t. and_then (read_at 4 t.buf t.current) (λ v. ok (common_prf32 v)))
      ∷ (λ t. and_then (read_at 2 t.buf t.current) (λ v. ok (impl_prf16 v)))
      ∷ (λ t. and_then (read_at 4 t.buf t.current) (λ v. ok (impl_prf32 v)))
      ∷ (λ t. and_then (read_at 6 t.buf t.current) (λ v. ok (full_qual48 v)))
      ∷ (λ t. and_then (read_at 8 t.buf t.current) (λ v. ok (full_qual64 v)))
      ∷ []

  -- `TAG_EXTRACTOR[n](t)`.
  unfoldable pub extract_tag : ℕ → TlvListIterator → Result TagType
  extract_tag n t = elim (get_elem? tag_extractor n) [ none ↦ panic | some f ↦ f t ]

  unfoldable pub read_length_value : ℕ → TlvListIterator → Result (ℕ × List ℕ)
  read_length_value size_of_length_field t =
      and_then (read_at size_of_length_field t.buf t.current) λ length.
        if ltb t.left (length + size_of_length_field)
        then err no_space
        else (and_then
            (slice t.buf (t.current + size_of_length_field)
              (t.current + size_of_length_field + length))
            (λ s. ok (length, s)))

  -- The `match` of the string rows of `VALUE_EXTRACTOR`.
  abbrev pub string_or_last :
      (List ℕ → ElementType) → Result (ℕ × List ℕ) → Result (ℕ × ElementType)
  string_or_last f (ok (size, string)) = ok (size, f string)
  string_or_last f (err e) = ok (0, Element.last)
  string_or_last f panic = panic

  -- The rows of `VALUE_EXTRACTOR`: what the value takes beyond its size in the table, and the value.
  unfoldable pub extract_value : ElementCode → TlvListIterator → Result (ℕ × ElementType)
  extract_value Tag.s8 t =
      and_then (index t.buf t.current) (λ v. ok (0, Element.s8 (of_word 128 v)))
  extract_value Tag.s16 t =
      and_then (read_at 2 t.buf t.current) (λ v. ok (0, Element.s16 (of_word (2 ^ 15) v)))
  extract_value Tag.s32 t =
      and_then (read_at 4 t.buf t.current) (λ v. ok (0, Element.s32 (of_word (2 ^ 31) v)))
  extract_value Tag.s64 t =
      and_then (read_at 8 t.buf t.current) (λ v. ok (0, Element.s64 (of_word (2 ^ 63) v)))
  extract_value Tag.u8 t = and_then (index t.buf t.current) (λ v. ok (0, Element.u8 v))
  extract_value Tag.u16 t = and_then (read_at 2 t.buf t.current) (λ v. ok (0, Element.u16 v))
  extract_value Tag.u32 t = and_then (read_at 4 t.buf t.current) (λ v. ok (0, Element.u32 v))
  extract_value Tag.u64 t = and_then (read_at 8 t.buf t.current) (λ v. ok (0, Element.u64 v))
  extract_value Tag.false_ t = ok (0, Element.false_)
  extract_value Tag.true_ t = ok (0, Element.true_)
  extract_value Tag.utf8l t = string_or_last Element.utf8l (read_length_value 1 t)
  extract_value Tag.utf16l t = string_or_last Element.utf16l (read_length_value 2 t)
  extract_value Tag.str8l t = string_or_last Element.str8l (read_length_value 1 t)
  extract_value Tag.str16l t = string_or_last Element.str16l (read_length_value 2 t)
  extract_value Tag.null t = ok (0, Element.null)
  extract_value Tag.struct t = ok (0, Element.struct (to_pointer t))
  extract_value Tag.array t = ok (0, Element.array (to_pointer t))
  extract_value Tag.list t = ok (0, Element.list (to_pointer t))
  extract_value Tag.end_cnt t = ok (0, Element.end_cnt)
  extract_value c t = ok (0, Element.last)

  -- The tag of `size` bytes whose number is `tag_type`.
  unfoldable pub read_sized_tag : ℕ → ℕ → Exec TlvListIterator (Option TagType)
  unfolding try_some
  read_sized_tag tag_type size t =
      if ltb t.left size
      then (ok none, t)
      else (try_some (observe (extract_tag tag_type))
          (λ tag. try_some (advance size) λ _. λ s. (ok (some tag), s)) t)

  unfoldable pub read_this_tag : ℕ → Exec TlvListIterator (Option TagType)
  unfolding read_sized_tag
  read_this_tag tag_type t =
      if leb max_tag_index tag_type then (ok none, t) else (elim (get_elem? tag_size_map tag_type) [
        | some size ↦ read_sized_tag tag_type size t
        | none ↦ (panic, t)
      ])

  unfoldable pub take_value : ℕ → ℕ × ElementType → Exec TlvListIterator (Option ElementType)
  unfolding try_some
  take_value size (extra_size, element) t =
      if is_last element
      then (ok none, t)
      else (try_some (advance (size + extra_size)) (λ _. λ s. (ok (some element), s)) t)

  -- The value of a row whose size in the table is `size`.
  unfoldable pub read_sized_value : ElementCode → ℕ → Exec TlvListIterator (Option ElementType)
  unfolding try_some take_value
  read_sized_value code size t =
      if ltb t.left size
      then (ok none, t)
      else try_some (observe (extract_value code)) (take_value size) t

  -- Both tables have a row below `MAX_VALUE_INDEX`.
  unfoldable pub read_this_value : ℕ → Exec TlvListIterator (Option ElementType)
  unfolding read_sized_value
  read_this_value element_type t =
      if leb max_value_index element_type
      then (ok none, t)
      else (elim (get_elem? codes element_type) [
        | none ↦ (panic, t)
        | some code ↦ elim (get_elem? value_size_map element_type) [
          | none ↦ (panic, t)
          | some size ↦ read_sized_value code size t
        ]
      ])

  -- `next`, behind the control byte.
  unfoldable pub read_body : ℕ → Exec TlvListIterator (Option TlvElement)
  unfolding try_some
  read_body control =
      try_some (read_this_tag (bit_and control tag_mask / 2 ^ tag_shift_bits)) λ tag_type.
        try_some (read_this_value (bit_and control type_mask)) λ element_type.
          λ t. (ok (some (record { tag_type = tag_type; element_type = element_type })), t)

  -- `next`, behind its first test.
  unfoldable pub read_element : Exec TlvListIterator (Option TlvElement)
  unfolding try_some read_body
  read_element =
      try_some (observe λ t. index t.buf t.current)
        λ control. try_some (advance 1) λ _. read_body control

  unfoldable pub next : Exec TlvListIterator (Option TlvElement)
  unfolding read_element
  next t = if ltb t.left 1 then (ok none, t) else read_element t

  unfoldable pub get_root_node : List ℕ → Result TlvElement
  unfolding next
  get_root_node b = and_then (next (iter b)).0 (λ o. ok_or o invalid_data)

  unfoldable pub get_root_node_struct : List ℕ → Result TlvElement
  unfolding get_root_node confirm_struct
  get_root_node_struct b = and_then (get_root_node b) confirm_struct

  unfoldable pub get_root_node_list : List ℕ → Result TlvElement
  unfolding get_root_node confirm_list
  get_root_node_list b = and_then (get_root_node b) confirm_list
