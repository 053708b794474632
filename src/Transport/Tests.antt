-- ===== src/Transport/Tests.antt =====
-- Concrete runs of the message layer, and its theorems at concrete inputs.
use matter_rs.Base.{
  ℕ, ◌≡◌, refl, List, [], ◌∷◌, ◌++◌, replicate, some, none, ok, panic, arith, length, false, ap,
  sym,
}
use matter_rs.Base.Exec.{◌>>=◌}
use matter_rs.Base.Bytes.{reference_le}
use matter_rs.Base.Flags.{reference_flags}
use matter_rs.ParseBuf.{ParseBuf}
use matter_rs.ParseBuf
use matter_rs.ParseBuf.Laws as ParseLaws
use matter_rs.WriteBuf.{WriteBuf}
use matter_rs.WriteBuf
use matter_rs.WriteBuf.Laws as WriteLaws
use matter_rs.Transport.PlainHdr.{PlainHdr, encrypted, unencrypted}
use matter_rs.Transport.PlainHdr
use matter_rs.Transport.PlainHdr.Laws as PlainLaws
use matter_rs.Transport.ProtoHdr.{ProtoHdr}
use matter_rs.Transport.ProtoHdr
use matter_rs.Transport.ProtoHdr.Laws as ProtoLaws
use matter_rs.Transport.ProtoHdr.Flags as ProtoFlags
use matter_rs.Transport.ProtoHdr.Encryption as Encryption
use matter_rs.Transport.Crypto.{Aead}
use matter_rs.Transport.Crypto
use matter_rs.Transport.Packet.{Packet, tx, rx, plain_decoded}
use matter_rs.Transport.Packet.Pool as Pool
use matter_rs.Transport.Mrp.{Clock, ReliableMessage}
use matter_rs.Transport.Mrp
use matter_rs.Transport.Mrp.Laws as MrpLaws

abbrev plain_hdr : PlainHdr
plain_hdr = record {
  flags = 4;
  sess_type = encrypted;
  sess_id = 513;
  ctr = 7;
  peer_nodeid = some 9;
}

abbrev empty_buf : WriteBuf
empty_buf = record { buf = replicate 32 0; start = 8; end = 8 }

abbrev plain_bytes : List ℕ
plain_bytes = 4 ∷ 1 ∷ 2 ∷ 0 ∷ 7 ∷ 0 ∷ 0 ∷ 0 ∷ 9 ∷ 0 ∷ 0 ∷ 0 ∷ 0 ∷ 0 ∷ 0 ∷ 0 ∷ []

abbrev plain_packet : ParseBuf
plain_packet = record { buf = plain_bytes ++ 55 ∷ []; read_off = 0; left = 17 }

plain_hdr-IsWellFormed : PlainLaws.IsWellFormed plain_hdr
plain_hdr-IsWellFormed = record {
  known = omega arith;
  typed = refl;
  id_fits = omega arith;
  ctr_fits = omega arith;
  node_fits = omega arith;
  announced = refl;
}

plain_written : WriteLaws.contents (PlainHdr.encode plain_hdr empty_buf).1 ≡ plain_bytes
unfolding PlainHdr.encode PlainHdr.encode_nodeid WriteBuf.le_u8 WriteBuf.le_u16 WriteBuf.le_u32
    WriteBuf.le_u64 ◌>>=◌ reference_le
plain_written = refl

decode-encode_plain_example :
    PlainHdr.decode (PlainHdr.default_hdr, plain_packet)
    ≡ (ok tt, (plain_hdr, ParseLaws.skip 16 plain_packet))
unfolding PlainHdr.encode PlainHdr.encode_nodeid WriteBuf.le_u8 WriteBuf.le_u16 WriteBuf.le_u32
    WriteBuf.le_u64 ◌>>=◌ reference_le
decode-encode_plain_example =
    (PlainLaws.decode-encode_plain plain_hdr PlainHdr.default_hdr empty_buf plain_packet (55 ∷ [])
      plain_hdr-IsWellFormed refl (omega arith) refl (omega arith) (omega arith) refl).1

abbrev pub proto_hdr : ProtoHdr
proto_hdr = record {
  exch_id = 1;
  exch_flags = 7;
  proto_id = 2;
  proto_opcode = 32;
  proto_vendor_id = none;
  ack_msg_ctr = some 9;
}

abbrev proto_packet : ParseBuf
proto_packet = record {
  buf = 7 ∷ 32 ∷ 1 ∷ 0 ∷ 2 ∷ 0 ∷ 9 ∷ 0 ∷ 0 ∷ 0 ∷ 55 ∷ [];
  read_off = 0;
  left = 11;
}

proto_hdr-IsWellFormed : ProtoLaws.IsWellFormed proto_hdr
unfolding ProtoHdr.is_vendor ProtoHdr.is_ack
proto_hdr-IsWellFormed = record {
  known = omega arith;
  id_fits = omega arith;
  proto_fits = omega arith;
  vendor_fits = tt;
  ack_fits = omega arith;
  vendor_announced = refl;
  ack_announced = refl;
}

decode-encode_proto_example :
    ProtoHdr.decode (ProtoHdr.default_hdr, proto_packet)
    ≡ (ok tt, (proto_hdr, ParseLaws.skip 10 proto_packet))
unfolding ProtoHdr.encode ProtoHdr.encode_vendor ProtoHdr.encode_ack ProtoHdr.is_vendor
    ProtoHdr.is_ack WriteBuf.le_u8 WriteBuf.le_u16 WriteBuf.le_u32 ◌>>=◌ reference_le
decode-encode_proto_example =
    (ProtoLaws.decode-encode_proto proto_hdr ProtoHdr.default_hdr empty_buf proto_packet (55 ∷ [])
      proto_hdr-IsWellFormed refl refl (omega arith) refl (omega arith) (omega arith) refl).1

abbrev pub plain_proto : ProtoHdr
plain_proto = record proto_hdr { exch_flags = 1; ack_msg_ctr = none }

encode-set_vendor_example :
    (ProtoHdr.is_vendor (ProtoHdr.set_vendor 9 plain_proto) ≡ false)
    × (ProtoHdr.encode (ProtoHdr.set_vendor 9 plain_proto) empty_buf
        ≡ ProtoHdr.encode (ProtoHdr.set_reliable plain_proto) empty_buf)
unfolding ProtoHdr.is_vendor
encode-set_vendor_example = ProtoFlags.encode-set_vendor plain_proto 9 empty_buf (omega arith) refl

-- A cipher that hides nothing, with a tag of zeros.
abbrev pub open_cipher : Aead
open_cipher = record {
  encrypt = λ key nonce ad text. ok (text, replicate 16 0);
  decrypt = λ key nonce ad text tag. ok text;
  length-encrypt = λ key nonce ad text out tag e.
      let a : text ≡ out = cc in
      let b : replicate 16 0 ≡ tag = cc in (ap length (sym a), ap length (sym b));
  length-decrypt = λ key nonce ad text tag out e. let a : text ≡ out = cc in ap length (sym a);
  decrypt-encrypt = λ key nonce ad text out tag e. let a : text ≡ out = cc in ap ok (sym a);
}

abbrev aad : List ℕ
aad = 0 ∷ 1 ∷ 2 ∷ 0 ∷ 7 ∷ 0 ∷ 0 ∷ 0 ∷ []

abbrev message : WriteBuf
message = record { buf = 11 ∷ 12 ∷ replicate 20 0; start = 0; end = 2 }

abbrev sealed_packet : ParseBuf
sealed_packet = record { buf = aad ++ 11 ∷ 12 ∷ replicate 16 0; read_off = 8; left = 18 }

decrypt_in_place-encrypt_in_place_example :
    (p' : ParseBuf) × (ProtoHdr.decrypt_in_place open_cipher 7 9 (3 ∷ []) sealed_packet
      ≡ (ok tt, p'))
    × (ParseLaws.contents p' ≡ 11 ∷ 12 ∷ [])
    × ParseLaws.IsValid p'
unfolding ProtoHdr.encrypt_in_place ProtoHdr.encrypt_slice ProtoHdr.get_iv ProtoHdr.nonce
    Crypto.encrypt_in_place WriteBuf.new WriteBuf.reserve WriteBuf.append WriteBuf.append_with
    WriteBuf.as_slice WriteBuf.le_u8 WriteBuf.le_u32 WriteBuf.le_u64 ParseBuf.parsed_as_slice ◌>>=◌
    reference_le
decrypt_in_place-encrypt_in_place_example =
    Encryption.decrypt_in_place-encrypt_in_place open_cipher (3 ∷ []) aad 7 9 message sealed_packet
      (record { ordered = omega arith; within = omega arith }) (omega arith) refl (omega arith) refl
      refl refl

abbrev short_packet : ParseBuf
short_packet = record { buf = aad ++ 11 ∷ 12 ∷ []; read_off = 8; left = 2 }

decrypt_in_place_short_packet_example :
    (ProtoHdr.decrypt_in_place open_cipher 7 9 (3 ∷ []) short_packet).0 ≡ panic
unfolding ParseBuf.parsed_as_slice
decrypt_in_place_short_packet_example =
    Encryption.decrypt_in_place_short_packet open_cipher (3 ∷ []) aad 7 9 short_packet (omega arith)
      refl refl (omega arith)

-- A pool of two buffers, the first of which is in use.
abbrev pool : Pool.BufferPool
pool = some (1 ∷ []) ∷ none ∷ []

abbrev received : Packet
received = record {
  plain = plain_hdr;
  proto = record proto_hdr { exch_flags = 4; ack_msg_ctr = none };
  peer = 0;
  direction = rx sealed_packet plain_decoded;
  buffer_index = 0;
}

abbrev sent : Packet
sent = record received { proto = plain_proto; direction = tx message }

abbrev clock : Clock
clock = record { now = 1000; last = 100000 }

abbrev later : Clock
later = record { now = 1100; last = 100000 }

-- Nothing pending, and the acknowledgement of `received` pending.
abbrev quiet : ReliableMessage
quiet = record { retrans = none; ack = none }

abbrev owing : ReliableMessage
owing = record { retrans = none; ack = some (record { msg_ctr = 7; ack_timeout = 1200 }) }

-- A reliable message that is to be sent, and an acknowledgement that names an unknown counter.
abbrev reliable : Packet
reliable = record sent { proto = record plain_proto { exch_flags = 4 } }
