-- ===== src/DataModel/Attribute.antt =====
-- matter/src/data_model/objects/attribute.rs: the attributes of a cluster and their values.
use matter_rs.Base.{
  ℕ, Bool, true, false, not, leb, if◌then◌else◌, Result, ok, err, and_then, invalid,
  attribute_not_found,
}
use matter_rs.Base.Exec.{Exec}
use matter_rs.Base.Int.{ℤ}
use matter_rs.Base.Bytes.{LittleEndian}
use matter_rs.Base.Flags.{Bitflags}
use matter_rs.WriteBuf.{WriteBuf}
use matter_rs.Tlv.Tag.{TagType}
use matter_rs.Tlv.Writer
use matter_rs.Tlv.Element.{TlvElement, get_u8, get_u16, get_u32, get_u64, get_bool}
use matter_rs.Acl.Privilege.{Access}

-- The bits of a `Quality`.
abbrev pub Quality : Type 0
Quality = ℕ

abbrev pub no_quality : Quality
no_quality = 0x00

abbrev pub scene : Quality
scene = 0x01

abbrev pub persistent : Quality
persistent = 0x02

abbrev pub fixed : Quality
fixed = 0x03

-- What `Access::RV` is: READ and NEED_VIEW.
abbrev pub rv : Access
rv = 0x0011

pub data AttrValue : Type 0 where
  int64 : ℤ → AttrValue
  uint8 uint16 uint32 uint64 : ℕ → AttrValue
  boolean : Bool → AttrValue
  custom : AttrValue

-- `value == AttrValue::Custom`.
abbrev pub is_custom : AttrValue → Bool
is_custom custom = true
is_custom (int64 v) = false
is_custom (uint8 v) = false
is_custom (uint16 v) = false
is_custom (uint32 v) = false
is_custom (uint64 v) = false
is_custom (boolean v) = false

module _ ⦃le : LittleEndian⦄ where
  unfoldable pub to_tlv : TagType → AttrValue → Exec WriteBuf (Unit {0})
  unfolding Writer.bool Writer.u8 Writer.u16 Writer.u32 Writer.u64
  to_tlv tag (boolean v) w = Writer.bool tag v w
  to_tlv tag (uint8 v) w = Writer.u8 tag v w
  to_tlv tag (uint16 v) w = Writer.u16 tag v w
  to_tlv tag (uint32 v) w = Writer.u32 tag v w
  to_tlv tag (uint64 v) w = Writer.u64 tag v w
  to_tlv tag (int64 v) w = (err attribute_not_found, w)
  to_tlv tag custom w = (err attribute_not_found, w)

-- The value after the update, where there is no error; with one the value stays.
unfoldable pub update_from_tlv : TlvElement → AttrValue → Result AttrValue
unfolding get_u8 get_u16 get_u32 get_u64 get_bool
update_from_tlv t (boolean v) = and_then (get_bool t) (λ x. ok (boolean x))
update_from_tlv t (uint8 v) = and_then (get_u8 t) (λ x. ok (uint8 x))
update_from_tlv t (uint16 v) = and_then (get_u16 t) (λ x. ok (uint16 x))
update_from_tlv t (uint32 v) = and_then (get_u32 t) (λ x. ok (uint32 x))
update_from_tlv t (uint64 v) = and_then (get_u64 t) (λ x. ok (uint64 x))
update_from_tlv t (int64 v) = err attribute_not_found
update_from_tlv t custom = err attribute_not_found

pub record Attribute : Type 0 where
  pub id : ℕ
  pub value : AttrValue
  pub quality : Quality
  pub access : Access

unfoldable pub new : ℕ → AttrValue → Access → Quality → Attribute
new id value access quality = record { id = id; value = value; quality = quality; access = access }

module _ ⦃bf : Bitflags⦄ where
  unfoldable pub set_value : AttrValue → Exec Attribute (Unit {0})
  set_value value a =
      if not (bf.contains a.quality fixed)
      then (ok tt, record a { value = value })
      else (err invalid, a)

-- From `GlobalElements::ServerGenCmd` on.
unfoldable pub is_system_attr : ℕ → Bool
is_system_attr attr_id = leb 0xfff8 attr_id
