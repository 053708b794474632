-- ===== src/Transport/Session.antt =====
-- matter/src/transport/session.rs: one session. The random initial counter and the time are
-- arguments. What a handler keeps in `data` is opaque to the transport, and is left out with its four
-- accessors.
pub mod Table
pub mod Manager
pub mod Sending
pub mod Receiving
pub mod Delivery
pub mod Ids
pub mod Buffers
use matter_rs.Base.{
  ℕ, ◌+◌, ◌^◌, Bool, true, false, ltb, if◌then◌else◌, List, replicate, Option, some, none, Result,
  ok, err, panic,
}
use matter_rs.Base.Exec.{Exec, pure, ◌>>=◌, ◌>>◌}
use matter_rs.Base.Bytes.{LittleEndian}
use matter_rs.Base.Flags.{Bitflags}
use matter_rs.WriteBuf.{WriteBuf}
use matter_rs.WriteBuf
use matter_rs.Transport.Crypto.{Aead}
use matter_rs.Transport.PlainHdr.{PlainHdr, encrypted, max_plain_hdr_len}
use matter_rs.Transport.PlainHdr
use matter_rs.Transport.ProtoHdr.{ProtoHdr, max_proto_hdr_len}
use matter_rs.Transport.ProtoHdr
use matter_rs.Transport.Packet.{Packet, Address}
use matter_rs.Transport.Packet
use matter_rs.Transport.SessionMode.{SessionMode, case_mode, pase, plain_text}

abbrev pub matter_aes128_key_size : ℕ
matter_aes128_key_size = 16

pub record Session : Type 0 where
  pub peer_addr : Address
  pub local_nodeid : ℕ
  pub peer_nodeid : Option ℕ
  pub dec_key : List ℕ
  pub enc_key : List ℕ
  pub att_challenge : List ℕ
  pub local_sess_id : ℕ
  pub peer_sess_id : ℕ
  pub msg_ctr : ℕ
  pub mode : SessionMode
  pub last_use : ℕ

pub record CloneData : Type 0 where
  pub dec_key : List ℕ
  pub enc_key : List ℕ
  pub att_challenge : List ℕ
  pub local_sess_id : ℕ
  pub peer_sess_id : ℕ
  pub local_nodeid : ℕ
  pub peer_nodeid : ℕ
  pub peer_addr : Address
  pub mode : SessionMode

abbrev zero_key : List ℕ
zero_key = replicate matter_aes128_key_size 0

unfoldable pub new_clone_data : ℕ → ℕ → ℕ → ℕ → Address → SessionMode → CloneData
new_clone_data local_nodeid peer_nodeid peer_sess_id local_sess_id peer_addr mode = record {
  dec_key = zero_key;
  enc_key = zero_key;
  att_challenge = zero_key;
  local_sess_id = local_sess_id;
  peer_sess_id = peer_sess_id;
  local_nodeid = local_nodeid;
  peer_nodeid = peer_nodeid;
  peer_addr = peer_addr;
  mode = mode;
}

-- The bound of the random initial counter.
abbrev pub matter_msg_ctr_range : ℕ
matter_msg_ctr_range = 0x0fffffff

-- `ctr` is drawn from `0..MATTER_MSG_CTR_RANGE`.
unfoldable pub new : ℕ → ℕ → Address → Option ℕ → Session
new now ctr peer_addr peer_nodeid = record {
  peer_addr = peer_addr;
  local_nodeid = 0;
  peer_nodeid = peer_nodeid;
  dec_key = zero_key;
  enc_key = zero_key;
  att_challenge = zero_key;
  local_sess_id = 0;
  peer_sess_id = 0;
  msg_ctr = ctr;
  mode = plain_text;
  last_use = now;
}

unfoldable pub clone : ℕ → ℕ → CloneData → Session
clone now ctr from = record {
  peer_addr = from.peer_addr;
  local_nodeid = from.local_nodeid;
  peer_nodeid = some from.peer_nodeid;
  dec_key = from.dec_key;
  enc_key = from.enc_key;
  att_challenge = from.att_challenge;
  local_sess_id = from.local_sess_id;
  peer_sess_id = from.peer_sess_id;
  msg_ctr = ctr;
  mode = from.mode;
  last_use = now;
}

abbrev pub mode_is_encrypted : SessionMode → Bool
mode_is_encrypted (case_mode i) = true
mode_is_encrypted pase = true
mode_is_encrypted plain_text = false

unfoldable pub is_encrypted : Session → Bool
is_encrypted s = mode_is_encrypted s.mode

unfoldable pub get_local_fabric_idx : Session → Option ℕ
get_local_fabric_idx s = elim s.mode [ case_mode a ↦ some a | _ ↦ none ]

-- `self.msg_ctr += 1` panics at the end of the range of `u32`.
unfoldable pub get_msg_ctr : Exec Session ℕ
get_msg_ctr s =
    if ltb (s.msg_ctr + 1) (2 ^ 32)
    then (ok s.msg_ctr, record s { msg_ctr = s.msg_ctr + 1 })
    else (panic, s)

unfoldable pub get_dec_key : Session → Option (List ℕ)
get_dec_key s = if mode_is_encrypted s.mode then some s.dec_key else none

unfoldable pub get_enc_key : Session → Option (List ℕ)
get_enc_key s = if mode_is_encrypted s.mode then some s.enc_key else none

-- `unwrap_or_default`.
abbrev pub or_zero : Option ℕ → ℕ
or_zero none = 0
or_zero (some n) = n

module _ ⦃le : LittleEndian⦄ ⦃bf : Bitflags⦄ where
  unfoldable pub recv : Aead → ℕ → Exec (Session × Packet) (Unit {0})
  unfolding get_dec_key
  recv aead now (s, p) =
      let (r, p') = Packet.proto_decode aead (or_zero s.peer_nodeid) (get_dec_key s) p in
      (r, (record s { last_use = now }, p'))

-- The header of a packet that the session sends with the counter `ctr`.
abbrev pub addressed : Session → ℕ → PlainHdr → PlainHdr
addressed s ctr h = record h {
  sess_id = s.peer_sess_id;
  ctr = ctr;
  sess_type = if mode_is_encrypted s.mode then encrypted else h.sess_type;
}

unfoldable pub pre_send : Exec (Session × Packet) (Unit {0})
unfolding get_msg_ctr
pre_send (s, p) = elim (get_msg_ctr s).0 [
  | ok ctr ↦ (ok tt, ((get_msg_ctr s).1, record p { plain = addressed s ctr p.plain }))
  | err e ↦ (err e, (s, p))
  | panic ↦ (panic, (s, p))
]

abbrev encode_into : Exec WriteBuf (Unit {0}) → Result WriteBuf → Result (List ℕ)
encode_into m (err e) = err e
encode_into m panic = panic
encode_into m (ok w) = elim (m w).0 [
  | ok _ ↦ WriteBuf.as_slice (m w).1
  | err e ↦ err e
  | panic ↦ panic
]

-- A header that is encoded into a fresh array: `write_buf.as_slice()`.
unfoldable pub encoded : ℕ → Exec WriteBuf (Unit {0}) → Result (List ℕ)
encoded size m = encode_into m (WriteBuf.new (replicate size 0) size)

module _ ⦃le : LittleEndian⦄ ⦃bf : Bitflags⦄ where
  -- In a plain-text session the peer's node id goes into the header.
  unfoldable pub set_dest : Session → Packet → Packet
  set_dest s p = elim s.mode [
    | plain_text ↦ elim s.peer_nodeid [
      | some d ↦ record p { plain = PlainHdr.set_dest_u64 d p.plain }
      | none ↦ p
    ]
    | _ ↦ p
  ]

  -- The payload is encrypted where the session has a key.
  unfoldable pub encrypt_for : Aead → Session → List ℕ → Exec Packet (Unit {0})
  unfolding get_enc_key
  encrypt_for aead s plain_hdr_bytes p = elim (get_enc_key s) [
    | none ↦ (ok tt, p)
    | some e ↦
        Packet.with_writebuf
          (ProtoHdr.encrypt_in_place aead p.plain.ctr s.local_nodeid plain_hdr_bytes e) p
  ]

  unfoldable pub seal : Aead → Session → Exec Packet (Unit {0})
  unfolding encoded set_dest encrypt_for
  seal aead s = do
    proto_hdr ← λ p. (encoded max_proto_hdr_len (ProtoHdr.encode p.proto), p)
    Packet.with_writebuf (WriteBuf.prepend proto_hdr)
    λ p. (ok tt, set_dest s p)
    plain_hdr ← λ p. (encoded max_plain_hdr_len (PlainHdr.encode p.plain), p)
    encrypt_for aead s plain_hdr
    Packet.with_writebuf (WriteBuf.prepend plain_hdr)

  unfoldable pub do_send : Aead → ℕ → Exec (Session × Packet) (Unit {0})
  unfolding seal
  do_send aead now (s, p) =
      let (r, p') = seal aead s (record p { peer = s.peer_addr }) in
      (r, (record s { last_use = now }, p'))
