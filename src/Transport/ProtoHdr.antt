-- ===== src/Transport/ProtoHdr.antt =====
-- matter/src/transport/proto_hdr.rs: the protocol header, which is encrypted with the payload.
pub mod ExchFlags
pub mod Encryption
pub mod Flags
pub mod Laws
use matter_rs.Base.{
  ℕ, ◌+◌, ◌-◌, Bool, true, false, ◌==◌, leb, ◌&&◌, if◌then◌else◌, List, [], length, splice,
  replicate, Option, some, none, Result, ok, err, panic, and_then, Error, invalid, invalid_aad,
}
use matter_rs.Base.Exec.{Exec, modify, pure, fail, on_fst, on_snd, some_or_fail, ◌>>=◌, ◌>>◌}
use matter_rs.Base.Bytes.{LittleEndian}
use matter_rs.Base.Flags.{Bitflags}
use matter_rs.ParseBuf.{ParseBuf}
use matter_rs.ParseBuf
use matter_rs.WriteBuf.{WriteBuf}
use matter_rs.WriteBuf
use matter_rs.Transport.Crypto
use matter_rs.Transport.Crypto.{Aead, aead_mic_len_bytes, aead_nonce_len_bytes, aead_aad_len_bytes}
use matter_rs.Transport.PlainHdr.{PlainHdr}

pub record ProtoHdr : Type 0 where
  pub exch_id : ℕ
  pub exch_flags : ℕ
  pub proto_id : ℕ
  pub proto_opcode : ℕ
  pub proto_vendor_id : Option ℕ
  pub ack_msg_ctr : Option ℕ

-- `Default::default()`.
abbrev pub default_hdr : ProtoHdr
default_hdr = record {
  exch_id = 0;
  exch_flags = 0;
  proto_id = 0;
  proto_opcode = 0;
  proto_vendor_id = none;
  ack_msg_ctr = none;
}

unfoldable pub get_ack_msg_ctr : ProtoHdr → Option ℕ
get_ack_msg_ctr h = h.ack_msg_ctr

module _ ⦃bf : Bitflags⦄ where
  unfoldable pub is_vendor : ProtoHdr → Bool
  is_vendor h = bf.contains h.exch_flags ExchFlags.vendor

  -- The flag that it sets is RELIABLE, as in the source.
  unfoldable pub set_vendor : ℕ → ProtoHdr → ProtoHdr
  set_vendor id h = record h {
    exch_flags = bf.union h.exch_flags ExchFlags.reliable;
    proto_vendor_id = some id;
  }

  unfoldable pub is_security_ext : ProtoHdr → Bool
  is_security_ext h = bf.contains h.exch_flags ExchFlags.secex

  unfoldable pub is_reliable : ProtoHdr → Bool
  is_reliable h = bf.contains h.exch_flags ExchFlags.reliable

  unfoldable pub unset_reliable : ProtoHdr → ProtoHdr
  unset_reliable h = record h { exch_flags = bf.difference h.exch_flags ExchFlags.reliable }

  unfoldable pub set_reliable : ProtoHdr → ProtoHdr
  set_reliable h = record h { exch_flags = bf.union h.exch_flags ExchFlags.reliable }

  unfoldable pub is_ack : ProtoHdr → Bool
  is_ack h = bf.contains h.exch_flags ExchFlags.ack

  unfoldable pub set_ack : ℕ → ProtoHdr → ProtoHdr
  set_ack ctr h = record h {
    exch_flags = bf.union h.exch_flags ExchFlags.ack;
    ack_msg_ctr = some ctr;
  }

  unfoldable pub is_initiator : ProtoHdr → Bool
  is_initiator h = bf.contains h.exch_flags ExchFlags.initiator

  unfoldable pub set_initiator : ProtoHdr → ProtoHdr
  set_initiator h = record h { exch_flags = bf.union h.exch_flags ExchFlags.initiator }

module _ ⦃le : LittleEndian⦄ where
  -- The 13 bytes are written into a buffer of the caller.
  unfoldable pub get_iv : ℕ → ℕ → Exec WriteBuf (Unit {0})
  get_iv recvd_ctr peer_nodeid = do
    WriteBuf.le_u8 0
    WriteBuf.le_u32 recvd_ctr
    WriteBuf.le_u64 peer_nodeid

  -- The nonce: `get_iv` on an array of zeros.
  unfoldable pub nonce : ℕ → ℕ → Result (List ℕ)
  nonce ctr nodeid =
      and_then (WriteBuf.new (replicate aead_nonce_len_bytes 0) aead_nonce_len_bytes)
        λ w. and_then (get_iv ctr nodeid w).0 λ _. ok (get_iv ctr nodeid w).1.buf

-- The associated data is the plain header, which must be 8 bytes long.
unfoldable pub read_aad : ParseBuf → Result (List ℕ)
read_aad p =
    and_then (ParseBuf.parsed_as_slice p)
      λ parsed. if length parsed == aead_aad_len_bytes then ok parsed else err invalid_aad

module _ ⦃le : LittleEndian⦄ (aead : Aead) where
  -- The cipher runs on `as_mut_slice`, in place.
  unfoldable pub encrypt_slice : List ℕ → List ℕ → List ℕ → Exec WriteBuf (Unit {0})
  encrypt_slice key iv plain_hdr w = elim (WriteBuf.as_slice w) [
    | ok text ↦
        elim (Crypto.encrypt_in_place aead key iv plain_hdr text
          (length text - aead_mic_len_bytes)) [
            | ok out ↦ (ok tt, record w { buf = splice w.buf w.start out })
            | err e ↦ (err e, w)
            | panic ↦ (panic, w)
          ]
    | err e ↦ (err e, w)
    | panic ↦ (panic, w)
  ]

  unfoldable pub encrypt_in_place : ℕ → ℕ → List ℕ → List ℕ → Exec WriteBuf (Unit {0})
  encrypt_in_place send_ctr peer_nodeid plain_hdr key = do
    iv ← λ w. (nonce send_ctr peer_nodeid, w)
    WriteBuf.append (replicate aead_mic_len_bytes 0)
    encrypt_slice key iv plain_hdr

  unfoldable pub decrypt_slice : List ℕ → List ℕ → List ℕ → Exec ParseBuf (Unit {0})
  decrypt_slice key iv aad p = elim (ParseBuf.as_slice p) [
    | ok text ↦ elim (Crypto.decrypt_in_place aead key iv aad text) [
      | ok out ↦ (ok tt, record p { buf = splice p.buf p.read_off out })
      | err e ↦ (err e, p)
      | panic ↦ (panic, p)
    ]
    | err e ↦ (err e, p)
    | panic ↦ (panic, p)
  ]

  unfoldable pub decrypt_in_place : ℕ → ℕ → List ℕ → Exec ParseBuf (Unit {0})
  decrypt_in_place recvd_ctr peer_nodeid key = do
    aad ← λ p. (read_aad p, p)
    iv ← λ p. (nonce recvd_ctr peer_nodeid, p)
    decrypt_slice key iv aad
    tag ← ParseBuf.tail aead_mic_len_bytes
    pure tt

  unfoldable pub decrypt_with : ℕ → ℕ → Option (List ℕ) → Exec ParseBuf (Unit {0})
  decrypt_with ctr peer_nodeid none = pure tt
  decrypt_with ctr peer_nodeid (some key) = decrypt_in_place ctr peer_nodeid key

module _ ⦃le : LittleEndian⦄ ⦃bf : Bitflags⦄ where
  unfoldable pub decode_vendor : Exec (ProtoHdr × ParseBuf) (Unit {0})
  decode_vendor s =
      if is_vendor s.0
      then (do
        id ← on_snd ParseBuf.le_u16
        on_fst (modify (λ h. record h { proto_vendor_id = some id })))
          s
      else pure tt s

  unfoldable pub decode_ack : Exec (ProtoHdr × ParseBuf) (Unit {0})
  decode_ack s =
      if is_ack s.0
      then (do
        ctr ← on_snd ParseBuf.le_u32
        on_fst (modify (λ h. record h { ack_msg_ctr = some ctr })))
          s
      else pure tt s

  -- `decrypt_and_decode` behind the decryption.
  unfoldable pub decode : Exec (ProtoHdr × ParseBuf) (Unit {0})
  decode = do
    bits ← on_snd ParseBuf.le_u8
    flags ← some_or_fail (bf.from_bits ExchFlags.all bits) invalid
    on_fst (modify (λ h. record h { exch_flags = flags }))
    opcode ← on_snd ParseBuf.le_u8
    on_fst (modify (λ h. record h { proto_opcode = opcode }))
    id ← on_snd ParseBuf.le_u16
    on_fst (modify (λ h. record h { exch_id = id }))
    proto ← on_snd ParseBuf.le_u16
    on_fst (modify (λ h. record h { proto_id = proto }))
    decode_vendor
    decode_ack

  unfoldable pub decrypt_and_decode :
      Aead → PlainHdr → ℕ → Option (List ℕ) → Exec (ProtoHdr × ParseBuf) (Unit {0})
  decrypt_and_decode aead plain_hdr peer_nodeid dec_key = do
    on_snd (decrypt_with aead plain_hdr.ctr peer_nodeid dec_key)
    decode

  -- `ok_or(Error::Invalid)?` in front of a write.
  unfoldable pub encode_vendor : ProtoHdr → Exec WriteBuf (Unit {0})
  encode_vendor h =
      if is_vendor h
      then some_or_fail h.proto_vendor_id invalid >>= (λ id. WriteBuf.le_u16 id)
      else pure tt

  unfoldable pub encode_ack : ProtoHdr → Exec WriteBuf (Unit {0})
  encode_ack h =
      if is_ack h
      then some_or_fail h.ack_msg_ctr invalid >>= (λ ctr. WriteBuf.le_u32 ctr)
      else pure tt

  unfoldable pub encode : ProtoHdr → Exec WriteBuf (Unit {0})
  encode h = do
    WriteBuf.le_u8 h.exch_flags
    WriteBuf.le_u8 h.proto_opcode
    WriteBuf.le_u16 h.exch_id
    WriteBuf.le_u16 h.proto_id
    encode_vendor h
    encode_ack h

abbrev pub max_proto_hdr_len : ℕ
max_proto_hdr_len = 1 + 1 + 2 + 2 + 2 + 4
