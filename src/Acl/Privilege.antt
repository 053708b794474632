-- ===== src/Acl/Privilege.antt =====
-- matter/src/data_model/objects/privilege.rs, and `Access::is_ok` of attribute.rs.
pub mod Laws
use matter_rs.Base.{
  ℕ, Bool, true, false, not, ◌==◌, if◌then◌else◌, Result, ok, err, panic, and_then, invalid,
  bit_and,
}
use matter_rs.Base.Exec.{Exec}
use matter_rs.Base.Bytes.{LittleEndian}
use matter_rs.Base.Flags.{Bitflags}
use matter_rs.WriteBuf.{WriteBuf}
use matter_rs.Tlv.Tag.{TagType}
use matter_rs.Tlv.Writer
use matter_rs.Tlv.Element.{TlvElement, get_u32}

-- The bits of a `Privilege`.
abbrev pub Privilege : Type 0
Privilege = ℕ

abbrev pub view : Privilege
view = 0x01

abbrev pub operate : Privilege
operate = 0x03

abbrev pub manage : Privilege
manage = 0x07

abbrev pub admin : Privilege
admin = 0x0f

-- `match t.u32()?`.
unfoldable pub privilege_of : ℕ → Result Privilege
privilege_of n =
    if n == 1
    then ok view
    else if n == 3
    then ok operate
    else if n == 4
    then ok manage
    else if n == 5
    then ok admin
    else err invalid

unfoldable pub from_tlv : TlvElement → Result Privilege
unfolding get_u32 privilege_of
from_tlv t = and_then (get_u32 t) privilege_of

-- The bits of an `Access`.
abbrev pub Access : Type 0
Access = ℕ

abbrev pub read : Access
read = 0x0010

abbrev pub write : Access
write = 0x0020

abbrev pub read_privilege_mask : Access
read_privilege_mask = 0x000f

abbrev pub write_privilege_mask : Access
write_privilege_mask = 0x000e

module _ ⦃bf : Bitflags⦄ where
  -- The number that `to_tlv` writes.
  unfoldable pub privilege_number : Privilege → ℕ
  privilege_number p =
      if bf.contains p admin
      then 5
      else if bf.contains p operate
      then 4
      else if bf.contains p manage
      then 3
      else if bf.contains p view
      then 1
      else 0

  -- `is_ok`, behind the choice of the mask: the privilege has one of the required bits, and the
  -- object allows the operation.
  unfoldable pub grants : Access → Access → Privilege → Access → Bool
  grants access operation privilege required =
      if required == 0
      then false
      else if bit_and privilege required == 0
      then false
      else bf.contains access operation

  unfoldable pub is_ok : Access → Access → Privilege → Bool
  unfolding grants
  is_ok access operation privilege =
      if bf.contains operation read
      then grants access operation privilege (bf.intersection access read_privilege_mask)
      else if bf.contains operation write
      then grants access operation privilege (bf.intersection access write_privilege_mask)
      else false

module _ ⦃le : LittleEndian⦄ ⦃bf : Bitflags⦄ where
  unfoldable pub to_tlv : TagType → Privilege → Exec WriteBuf (Unit {0})
  unfolding privilege_number Writer.u8
  to_tlv tag p = Writer.u8 tag (privilege_number p)
