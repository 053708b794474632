-- ===== src/Transport/Packet.antt =====
-- matter/src/transport/packet.rs: a message with its headers and the buffer that it stands in.
pub mod Pool
pub mod Laws
pub mod Making
use matter_rs.Base.{
  ℕ, ◌+◌, Bool, true, false, List, length, Option, some, none, Result, ok, err, panic, Error,
  no_space, invalid, invalid_state,
}
use matter_rs.Base.Exec.{Exec, modify, pure, fail, ◌>>=◌, ◌>>◌}
use matter_rs.Base.Bytes.{LittleEndian}
use matter_rs.Base.Flags.{Bitflags}
use matter_rs.ParseBuf.{ParseBuf}
use matter_rs.ParseBuf
use matter_rs.WriteBuf.{WriteBuf}
use matter_rs.WriteBuf
use matter_rs.Transport.Crypto.{Aead}
use matter_rs.Transport.PlainHdr.{PlainHdr, max_plain_hdr_len}
use matter_rs.Transport.PlainHdr
use matter_rs.Transport.ProtoHdr.{ProtoHdr, max_proto_hdr_len}
use matter_rs.Transport.ProtoHdr
use Pool.{BufferPool, alloc}

-- A socket address, of which only the identity is looked at. `Address::default()` is 0.
abbrev pub Address : Type 0
Address = ℕ

pub data RxState : Type 0 where
  uninit plain_decoded proto_decoded : RxState

pub data Direction : Type 0 where
  tx : WriteBuf → Direction
  rx : ParseBuf → RxState → Direction

pub record Packet : Type 0 where
  pub plain : PlainHdr
  pub proto : ProtoHdr
  pub peer : Address
  pub direction : Direction
  pub buffer_index : ℕ

abbrev pub hdr_reserve : ℕ
hdr_reserve = max_plain_hdr_len + max_proto_hdr_len

-- A packet with default headers.
abbrev fresh : ℕ → Direction → Packet
fresh index d = record {
  plain = PlainHdr.default_hdr;
  proto = ProtoHdr.default_hdr;
  peer = 0;
  direction = d;
  buffer_index = index;
}

-- `BufferPool::alloc().ok_or(Error::NoSpace)?`.
abbrev alloc_buffer : Exec BufferPool (ℕ × List ℕ)
alloc_buffer pool = elim (alloc pool).0 [
  | none ↦ (err no_space, (alloc pool).1)
  | some b ↦ (ok b, (alloc pool).1)
]

unfoldable pub new_rx : Exec BufferPool Packet
new_rx = do
  (index, buffer) ← alloc_buffer
  pb ← λ pool. (ParseBuf.new buffer (length buffer), pool)
  pure (fresh index (rx pb uninit))

-- `wb.reserve(..)?`, on the buffer that the packet takes.
unfoldable pub reserved : WriteBuf → Result WriteBuf
reserved wb = elim (WriteBuf.reserve hdr_reserve wb).0 [
  | ok _ ↦ ok (WriteBuf.reserve hdr_reserve wb).1
  | err e ↦ err e
  | panic ↦ panic
]

module _ ⦃bf : Bitflags⦄ where
  -- Reliability on by default.
  unfoldable pub new_tx : Exec BufferPool Packet
  new_tx = do
    (index, buffer) ← alloc_buffer
    wb ← λ pool. (WriteBuf.new buffer (length buffer), pool)
    wb' ← λ pool. (reserved wb, pool)
    let p = fresh index (tx wb')
    pure (record p { proto = ProtoHdr.set_reliable p.proto })

-- `as_borrow_slice`.
unfoldable pub as_borrow_slice : Packet → Result (List ℕ)
as_borrow_slice p = elim p.direction [
  | rx pb state ↦ ParseBuf.as_slice pb
  | tx wb ↦ WriteBuf.as_slice wb
]

-- A method on `get_parsebuf()?`.
unfoldable pub with_parsebuf : Exec ParseBuf (Unit {0}) → Exec Packet (Unit {0})
with_parsebuf m p = elim p.direction [
  | rx pb state ↦ ((m pb).0, record p { direction = rx (m pb).1 state })
  | tx wb ↦ (err invalid, p)
]

-- A method on `get_writebuf()?`.
unfoldable pub with_writebuf : Exec WriteBuf (Unit {0}) → Exec Packet (Unit {0})
with_writebuf m p = elim p.direction [
  | rx pb state ↦ (err invalid, p)
  | tx wb ↦ ((m wb).0, record p { direction = tx (m wb).1 })
]

unfoldable pub get_proto_id : Packet → ℕ
get_proto_id p = p.proto.proto_id

unfoldable pub set_proto_id : ℕ → Packet → Packet
set_proto_id id p = let proto = p.proto in record p { proto = record proto { proto_id = id } }

unfoldable pub get_proto_opcode : Packet → ℕ
get_proto_opcode p = p.proto.proto_opcode

unfoldable pub set_proto_opcode : ℕ → Packet → Packet
set_proto_opcode opcode p =
    let proto = p.proto in record p { proto = record proto { proto_opcode = opcode } }

module _ ⦃bf : Bitflags⦄ where
  unfoldable pub set_reliable : Packet → Packet
  set_reliable p = record p { proto = ProtoHdr.set_reliable p.proto }

  unfoldable pub unset_reliable : Packet → Packet
  unset_reliable p = record p { proto = ProtoHdr.unset_reliable p.proto }

  unfoldable pub is_reliable : Packet → Bool
  is_reliable p = ProtoHdr.is_reliable p.proto

unfoldable pub is_plain_hdr_decoded : Packet → Result Bool
is_plain_hdr_decoded p = elim p.direction [
  | rx pb uninit ↦ ok false
  | rx pb state ↦ ok true
  | tx wb ↦ err invalid_state
]

module _ ⦃le : LittleEndian⦄ ⦃bf : Bitflags⦄ where
  -- The state moves on before the header is read, also where reading fails.
  unfoldable pub plain_hdr_decode : Exec Packet (Unit {0})
  plain_hdr_decode p = elim p.direction [
    | rx pb uninit ↦
        let (r, s) = PlainHdr.decode (p.plain, pb) in
        (r, record p { plain = s.0; direction = rx s.1 plain_decoded })
    | rx pb state ↦ (err invalid_state, p)
    | tx wb ↦ (err invalid_state, p)
  ]

  unfoldable pub proto_decode : Aead → ℕ → Option (List ℕ) → Exec Packet (Unit {0})
  proto_decode aead peer_nodeid dec_key p = elim p.direction [
    | rx pb plain_decoded ↦
        let (r, s) = ProtoHdr.decrypt_and_decode aead p.plain peer_nodeid dec_key (p.proto, pb) in
        (r, record p { proto = s.0; direction = rx s.1 proto_decoded })
    | rx pb state ↦ (err invalid_state, p)
    | tx wb ↦ (err invalid_state, p)
  ]
