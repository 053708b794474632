-- ===== src/Tlv/Writer.antt =====
-- matter/src/tlv/writer.rs: elements are written into a `WriteBuf`. A failure in the middle of an
-- element leaves what is written in the buffer.
pub mod Laws
use matter_rs.Base.{
  ℕ, ◌+◌, ◌*◌, ◌%◌, ◌^◌, Bool, true, false, ltb, leb, if◌then◌else◌, List, length, get_elem?,
  Option, some, none, ok, err, panic, Error, invalid, bit_or,
}
use matter_rs.Base.Exec.{Exec, pure, fail, ◌>>=◌, ◌>>◌}
use matter_rs.Base.Bytes.{LittleEndian}
use matter_rs.Base.Int.{ℤ}
use matter_rs.WriteBuf.{WriteBuf}
use matter_rs.WriteBuf
use matter_rs.Tlv.Tag.{
  TagType, anonymous, context, tag_id, tag_val, tag_size_map, tag_shift_bits, ElementCode, number,
}
use matter_rs.Tlv.Tag

module _ ⦃le : LittleEndian⦄ where
  -- `TAG_SIZE_MAP[tag_id]` is read for every tag but the anonymous one.
  unfoldable pub put_tag : TagType → Exec WriteBuf (Unit {0})
  put_tag anonymous = pure tt
  put_tag tag = elim (get_elem? tag_size_map (tag_id tag)) [
    | some size ↦ WriteBuf.le_uint size (tag_val tag)
    | none ↦ λ w. (panic, w)
  ]

  unfoldable pub put_control_tag : TagType → ElementCode → Exec WriteBuf (Unit {0})
  put_control_tag tag code = do
    WriteBuf.le_u8 (bit_or (tag_id tag * 2 ^ tag_shift_bits) (number code))
    put_tag tag

  unfoldable pub i8 : TagType → ℤ → Exec WriteBuf (Unit {0})
  i8 tag data_ = do put_control_tag tag Tag.s8; WriteBuf.le_i8 data_

  unfoldable pub u8 : TagType → ℕ → Exec WriteBuf (Unit {0})
  u8 tag data_ = do put_control_tag tag Tag.u8; WriteBuf.le_u8 data_

  unfoldable pub u16 : TagType → ℕ → Exec WriteBuf (Unit {0})
  u16 tag data_ =
      if leb data_ 0xff
      then u8 tag data_
      else (do put_control_tag tag Tag.u16; WriteBuf.le_u16 data_)

  unfoldable pub u32 : TagType → ℕ → Exec WriteBuf (Unit {0})
  u32 tag data_ =
      if leb data_ 0xff
      then u8 tag data_
      else if leb data_ 0xffff
      then u16 tag data_
      else (do put_control_tag tag Tag.u32; WriteBuf.le_u32 data_)

  unfoldable pub u64 : TagType → ℕ → Exec WriteBuf (Unit {0})
  u64 tag data_ =
      if leb data_ 0xff
      then u8 tag data_
      else if leb data_ 0xffff
      then u16 tag data_
      else if leb data_ 0xffffffff
      then u32 tag data_
      else (do put_control_tag tag Tag.u64; WriteBuf.le_u64 data_)

  -- The length is written `as u8`, and 256 is let through.
  unfoldable pub str8 : TagType → List ℕ → Exec WriteBuf (Unit {0})
  str8 tag data_ = if ltb 256 (length data_) then fail invalid else (do
    put_control_tag tag Tag.str8l
    WriteBuf.le_u8 (length data_ % 2 ^ 8)
    WriteBuf.copy_from_slice data_)

  unfoldable pub str16 : TagType → List ℕ → Exec WriteBuf (Unit {0})
  str16 tag data_ = if leb (length data_) 0xff then str8 tag data_ else (do
    put_control_tag tag Tag.str16l
    WriteBuf.le_u16 (length data_ % 2 ^ 16)
    WriteBuf.copy_from_slice data_)

  unfoldable pub utf8 : TagType → List ℕ → Exec WriteBuf (Unit {0})
  utf8 tag data_ = do
    put_control_tag tag Tag.utf8l
    WriteBuf.le_u8 (length data_ % 2 ^ 8)
    WriteBuf.copy_from_slice data_

  unfoldable pub utf16 : TagType → List ℕ → Exec WriteBuf (Unit {0})
  utf16 tag data_ = if leb (length data_) 0xff then utf8 tag data_ else (do
    put_control_tag tag Tag.utf16l
    WriteBuf.le_u16 (length data_ % 2 ^ 16)
    WriteBuf.copy_from_slice data_)

  unfoldable pub no_val : TagType → ElementCode → Exec WriteBuf (Unit {0})
  no_val tag element = put_control_tag tag element

  unfoldable pub start_struct : TagType → Exec WriteBuf (Unit {0})
  unfolding no_val
  start_struct tag = no_val tag Tag.struct

  unfoldable pub start_array : TagType → Exec WriteBuf (Unit {0})
  unfolding no_val
  start_array tag = no_val tag Tag.array

  unfoldable pub start_list : TagType → Exec WriteBuf (Unit {0})
  unfolding no_val
  start_list tag = no_val tag Tag.list

  unfoldable pub end_container : Exec WriteBuf (Unit {0})
  unfolding no_val
  end_container = no_val anonymous Tag.end_cnt

  unfoldable pub null : TagType → Exec WriteBuf (Unit {0})
  unfolding no_val
  null tag = no_val tag Tag.null

  unfoldable pub bool : TagType → Bool → Exec WriteBuf (Unit {0})
  unfolding no_val
  bool tag val = if val then no_val tag Tag.true_ else no_val tag Tag.false_
