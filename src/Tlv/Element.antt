-- ===== src/Tlv/Element.antt =====
-- matter/src/tlv/parser.rs: the values of elements, and the typed access to them.
use matter_rs.Base.{
  ℕ, ◌==◌, Bool, true, false, List, Option, some, none, Result, ok, err, tlv_type_mismatch,
}
use matter_rs.Base.Int.{ℤ}
use matter_rs.Tlv.Tag.{TagType, context}

-- A place in the bytes: where the elements of a container begin.
pub record Pointer : Type 0 where
  pub buf : List ℕ
  pub current : ℕ
  pub left : ℕ

-- A float is its bit pattern; the parser never makes one.
pub data ElementType : Type 0 where
  s8 s16 s32 s64 : ℤ → ElementType
  u8 u16 u32 u64 f32 f64 : ℕ → ElementType
  false_ true_ utf32l utf64l str32l str64l null end_cnt last : ElementType
  utf8l utf16l str8l str16l : List ℕ → ElementType
  struct array list : Pointer → ElementType

pub record TlvElement : Type 0 where
  pub tag_type : TagType
  pub element_type : ElementType

unfoldable pub is_container : ElementType → Bool
is_container (struct p) = true
is_container (array p) = true
is_container (list p) = true
is_container e = false

-- `element_type == ElementType::EndCnt`.
abbrev pub is_end_cnt : ElementType → Bool
is_end_cnt end_cnt = true
is_end_cnt e = false

-- `element == ElementType::Last`.
abbrev pub is_last : ElementType → Bool
is_last last = true
is_last e = false

-- What `enter` takes the pointer of a container from.
unfoldable pub pointer : ElementType → Option Pointer
pointer (struct p) = some p
pointer (array p) = some p
pointer (list p) = some p
pointer e = none

unfoldable pub get_i8 : TlvElement → Result ℤ
get_i8 t = elim t.element_type [ s8 a ↦ ok a | _ ↦ err tlv_type_mismatch ]

unfoldable pub get_u8 : TlvElement → Result ℕ
get_u8 t = elim t.element_type [ u8 a ↦ ok a | _ ↦ err tlv_type_mismatch ]

unfoldable pub get_u16 : TlvElement → Result ℕ
get_u16 t = elim t.element_type [ u8 a ↦ ok a | u16 a ↦ ok a | _ ↦ err tlv_type_mismatch ]

unfoldable pub get_u32 : TlvElement → Result ℕ
get_u32 t = elim t.element_type [
  | u8 a ↦ ok a
  | u16 a ↦ ok a
  | u32 a ↦ ok a
  | _ ↦ err tlv_type_mismatch
]

unfoldable pub get_u64 : TlvElement → Result ℕ
get_u64 t = elim t.element_type [
  | u8 a ↦ ok a
  | u16 a ↦ ok a
  | u32 a ↦ ok a
  | u64 a ↦ ok a
  | _ ↦ err tlv_type_mismatch
]

unfoldable pub get_slice : TlvElement → Result (List ℕ)
get_slice t = elim t.element_type [
  | str8l s ↦ ok s
  | utf8l s ↦ ok s
  | str16l s ↦ ok s
  | utf16l s ↦ ok s
  | _ ↦ err tlv_type_mismatch
]

unfoldable pub get_bool : TlvElement → Result Bool
get_bool t = elim t.element_type [ false_ ↦ ok false | true_ ↦ ok true | _ ↦ err tlv_type_mismatch ]

unfoldable pub get_null : TlvElement → Result (Unit {0})
get_null t = elim t.element_type [ null ↦ ok tt | _ ↦ err tlv_type_mismatch ]

unfoldable pub confirm_struct : TlvElement → Result TlvElement
confirm_struct t = elim t.element_type [ struct p ↦ ok t | _ ↦ err tlv_type_mismatch ]

unfoldable pub confirm_array : TlvElement → Result TlvElement
confirm_array t = elim t.element_type [ array p ↦ ok t | _ ↦ err tlv_type_mismatch ]

unfoldable pub confirm_list : TlvElement → Result TlvElement
confirm_list t = elim t.element_type [ list p ↦ ok t | _ ↦ err tlv_type_mismatch ]

unfoldable pub check_ctx_tag : ℕ → TlvElement → Bool
check_ctx_tag tag t = elim t.tag_type [ context our_tag ↦ our_tag == tag | _ ↦ false ]
