-- ===== src/Tlv/Tag.antt =====
-- matter/src/tlv/mod.rs: tags, and the numbers of the element types.
use matter_rs.Base.{ℕ, ◌^◌, ◌<◌, ◌≡◌, refl, Bool, ◌==◌, ◌&&◌, List, [], ◌∷◌, get_elem?, some, arith}

pub data TagType : Type 0 where
  anonymous : TagType
  context common_prf16 common_prf32 impl_prf16 impl_prf32 full_qual48 full_qual64 : ℕ → TagType

abbrev pub tag_shift_bits : ℕ
tag_shift_bits = 5

abbrev pub tag_mask : ℕ
tag_mask = 0xe0

abbrev pub type_mask : ℕ
type_mask = 0x1f

abbrev pub max_tag_index : ℕ
max_tag_index = 8

abbrev pub tag_size_map : List ℕ
tag_size_map = 0 ∷ 1 ∷ 2 ∷ 4 ∷ 2 ∷ 4 ∷ 6 ∷ 8 ∷ []

-- The pair that `put_control_tag` matches out of a tag: its number and its value.
abbrev pub tag_id : TagType → ℕ
tag_id anonymous = 0
tag_id (context v) = 1
tag_id (common_prf16 v) = 2
tag_id (common_prf32 v) = 3
tag_id (impl_prf16 v) = 4
tag_id (impl_prf32 v) = 5
tag_id (full_qual48 v) = 6
tag_id (full_qual64 v) = 7

abbrev pub tag_val : TagType → ℕ
tag_val anonymous = 0
tag_val (context v) = v
tag_val (common_prf16 v) = v
tag_val (common_prf32 v) = v
tag_val (impl_prf16 v) = v
tag_val (impl_prf32 v) = v
tag_val (full_qual48 v) = v
tag_val (full_qual64 v) = v

-- The size of a tag on the wire, `TAG_SIZE_MAP[tag_id]`.
abbrev pub tag_size : TagType → ℕ
tag_size anonymous = 0
tag_size (context v) = 1
tag_size (common_prf16 v) = 2
tag_size (common_prf32 v) = 4
tag_size (impl_prf16 v) = 2
tag_size (impl_prf32 v) = 4
tag_size (full_qual48 v) = 6
tag_size (full_qual64 v) = 8

-- The derived `PartialEq`.
abbrev pub tag_eq : TagType → TagType → Bool
tag_eq a b = tag_id a == tag_id b && tag_val a == tag_val b

-- The value fits the size.
abbrev pub Fits : TagType → Type 0
Fits t = tag_val t < 256 ^ tag_size t

-- `WriteElementType`, and the rows of the parser's tables.
pub data ElementCode : Type 0 where
  s8 s16 s32 s64 u8 u16 u32 u64 false_ true_ f32 f64 utf8l utf16l utf32l utf64l : ElementCode
  str8l str16l str32l str64l null struct array list end_cnt : ElementCode

-- The table of element types, by number.
abbrev pub codes : List ElementCode
codes =
    s8 ∷ s16 ∷ s32 ∷ s64 ∷ u8 ∷ u16 ∷ u32 ∷ u64 ∷ false_ ∷ true_ ∷ f32 ∷ f64 ∷ utf8l ∷ utf16l
    ∷ utf32l ∷ utf64l ∷ str8l ∷ str16l ∷ str32l ∷ str64l ∷ null ∷ struct ∷ array ∷ list ∷ end_cnt
    ∷ []

-- `val_type as u8`.
abbrev pub number : ElementCode → ℕ
number s8 = 0
number s16 = 1
number s32 = 2
number s64 = 3
number u8 = 4
number u16 = 5
number u32 = 6
number u64 = 7
number false_ = 8
number true_ = 9
number f32 = 10
number f64 = 11
number utf8l = 12
number utf16l = 13
number utf32l = 14
number utf64l = 15
number str8l = 16
number str16l = 17
number str32l = 18
number str64l = 19
number null = 20
number struct = 21
number array = 22
number list = 23
number end_cnt = 24

pub codes-number : (c : ElementCode) → get_elem? codes (number c) ≡ some c
codes-number s8 = refl
codes-number s16 = refl
codes-number _ = refl

pub number-lt : (c : ElementCode) → number c < 25
number-lt s8 = omega arith
number-lt _ = omega arith

pub tag_id-lt : (t : TagType) → tag_id t < 8
tag_id-lt anonymous = omega arith
tag_id-lt _ = omega arith

pub tag_size_map-tag_id : (t : TagType) → get_elem? tag_size_map (tag_id t) ≡ some (tag_size t)
tag_size_map-tag_id anonymous = refl
tag_size_map-tag_id _ = refl
