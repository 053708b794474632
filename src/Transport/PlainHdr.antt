-- ===== src/Transport/PlainHdr.antt =====
-- matter/src/transport/plain_hdr.rs: the header that is never encrypted.
pub mod Laws
pub mod Destination
pub mod MsgFlags
use matter_rs.Base.{
  ℕ, ◌+◌, Bool, true, false, not, ◌==◌, if◌then◌else◌, Option, some, none, invalid,
}
use matter_rs.Base.Exec.{Exec, modify, pure, on_fst, on_snd, some_or_fail, ◌>>=◌, ◌>>◌}
use matter_rs.Base.Bytes.{LittleEndian}
use matter_rs.Base.Flags.{Bitflags}
use matter_rs.ParseBuf.{ParseBuf}
use matter_rs.ParseBuf
use matter_rs.WriteBuf.{WriteBuf}
use matter_rs.WriteBuf

pub data SessionType : Type 0 where
  unencrypted encrypted : SessionType

pub record PlainHdr : Type 0 where
  pub flags : ℕ
  pub sess_type : SessionType
  pub sess_id : ℕ
  pub ctr : ℕ
  pub peer_nodeid : Option ℕ

-- `Default::default()`.
abbrev pub default_hdr : PlainHdr
default_hdr = record {
  flags = 0;
  sess_type = unencrypted;
  sess_id = 0;
  ctr = 0;
  peer_nodeid = none;
}

unfoldable pub is_encrypted : PlainHdr → Bool
is_encrypted h = elim h.sess_type [ unencrypted ↦ false | encrypted ↦ true ]

-- The session type that goes with a session id.
abbrev pub type_of_id : ℕ → SessionType
type_of_id id = if not (id == 0) then encrypted else unencrypted

module _ ⦃bf : Bitflags⦄ where
  unfoldable pub set_dest_u64 : ℕ → PlainHdr → PlainHdr
  set_dest_u64 id h = record h {
    flags = bf.union h.flags MsgFlags.dsiz_unicast_nodeid;
    peer_nodeid = some id;
  }

  unfoldable pub get_src_u64 : PlainHdr → Option ℕ
  get_src_u64 h = if bf.contains h.flags MsgFlags.src_addr_present then h.peer_nodeid else none

module _ ⦃le : LittleEndian⦄ ⦃bf : Bitflags⦄ where
  -- The optional source address, read where the flags announce it.
  unfoldable pub decode_source : Exec (PlainHdr × ParseBuf) (Unit {0})
  decode_source s =
      if bf.contains s.0.flags MsgFlags.src_addr_present
      then (do
        id ← on_snd ParseBuf.le_u64
        on_fst (modify (λ h. record h { peer_nodeid = some id })))
          s
      else pure tt s

  unfoldable pub decode : Exec (PlainHdr × ParseBuf) (Unit {0})
  decode = do
    bits ← on_snd ParseBuf.le_u8
    flags ← some_or_fail (bf.from_bits MsgFlags.all bits) invalid
    on_fst (modify (λ h. record h { flags = flags }))
    id ← on_snd ParseBuf.le_u16
    on_fst (modify (λ h. record h { sess_id = id }))
    sec_flags ← on_snd ParseBuf.le_u8
    on_fst (modify (λ h. record h { sess_type = type_of_id h.sess_id }))
    ctr ← on_snd ParseBuf.le_u32
    on_fst (modify (λ h. record h { ctr = ctr }))
    decode_source

module _ ⦃le : LittleEndian⦄ where
  unfoldable pub encode_nodeid : Option ℕ → Exec WriteBuf (Unit {0})
  encode_nodeid none = pure tt
  encode_nodeid (some id) = WriteBuf.le_u64 id

  unfoldable pub encode : PlainHdr → Exec WriteBuf (Unit {0})
  encode h = do
    WriteBuf.le_u8 h.flags
    WriteBuf.le_u16 h.sess_id
    WriteBuf.le_u8 0
    WriteBuf.le_u32 h.ctr
    encode_nodeid h.peer_nodeid

abbrev pub max_plain_hdr_len : ℕ
max_plain_hdr_len = 2 + 1 + 1 + 2 + 4 + 8 + 8
