-- ===== src/Transport/Session/Receiving.antt =====
-- matter/src/transport/session.rs: what `recv` makes of the bytes that the other end has sealed.
use matter_rs.Base.{
  ℕ, ◌+◌, ◌-◌, ◌≡◌, refl, sym, ap, ◌∙◌, true, List, ◌++◌, length, take, drop, some, none, ok, arith,
  le→leb, take-append,
}
use matter_rs.Base.Exec.{◌>>=◌}
use matter_rs.Base.Bytes.{LittleEndian}
use matter_rs.Base.Flags.{Bitflags}
use matter_rs.ParseBuf.{ParseBuf}
use matter_rs.ParseBuf
use matter_rs.ParseBuf.Laws as ParseLaws
use matter_rs.ParseBuf.Laws.{skip}
use matter_rs.WriteBuf.{WriteBuf}
use matter_rs.WriteBuf.Laws.{contents}
use matter_rs.Transport.Crypto.{Aead}
use matter_rs.Transport.PlainHdr.{PlainHdr}
use matter_rs.Transport.PlainHdr.Laws as PlainLaws
use matter_rs.Transport.ProtoHdr.{ProtoHdr}
use matter_rs.Transport.ProtoHdr
use matter_rs.Transport.ProtoHdr.Laws as ProtoLaws
use matter_rs.Transport.ProtoHdr.Encryption.{
  decrypt_in_place-encrypt_in_place, parse_slice-contents,
}
use matter_rs.Transport.Packet.{
  Packet, rx, uninit, plain_decoded, proto_decoded, plain_hdr_decode, proto_decode, as_borrow_slice,
}
use matter_rs.Transport.Session.{Session, mode_is_encrypted, or_zero, get_dec_key, recv}
use matter_rs.Transport.Session.Sending.{IsSendable, clear_text, clear_text_lem, cipher}

-- The packet whose buffer holds what was received.
abbrev pub with_rx : Packet → ParseBuf → Packet
with_rx q pb = record q { direction = rx pb uninit }

-- What stands in front of the cursor of a packet that was parsed from its beginning.
parsed_lem :
    (pb : ParseBuf) (bs rest : List ℕ)
    → ParseLaws.IsValid pb
    → pb.read_off ≡ 0
    → ParseLaws.contents pb ≡ bs ++ rest
    → ParseBuf.parsed_as_slice (skip (length bs) pb) ≡ ok bs
unfolding ParseBuf.parsed_as_slice
parsed_lem pb bs rest v e c =
    let fits = ParseLaws.enough pb bs rest v c in
    let size : pb.read_off + length bs - 0 ≡ length bs = omega arith in
    let whole : drop 0 pb.buf ≡ drop pb.read_off pb.buf = ap (λ k. drop k pb.buf) (sym e) in
    rw
      (
        le→leb 0 (pb.read_off + length bs) (omega arith),
        le→leb (pb.read_off + length bs) (length pb.buf) (omega (arith, v.within)),
        size,
        whole,
      )
      (ap ok
        (ap (take (length bs)) (ParseLaws.ahead pb bs rest c) ∙ take-append bs _ (length bs) refl))

module _ ⦃le : LittleEndian⦄ ⦃bf : Bitflags⦄ where
  pub plain_received :
      (q : Packet) (pb : ParseBuf) (h : PlainHdr) (rest : List ℕ)
      → PlainLaws.IsWellFormed h
      → q.plain.peer_nodeid ≡ none
      → ParseLaws.IsValid pb
      → ParseLaws.contents pb ≡ PlainLaws.encoding h ++ rest
      → plain_hdr_decode (with_rx q pb) ≡ (
        ok tt,
        record q {
          plain = h;
          direction = rx (skip (length (PlainLaws.encoding h)) pb) plain_decoded;
        },
      )
  unfolding plain_hdr_decode
  plain_received q pb h rest wf fresh v c =
      rw ((PlainLaws.decode-Decodes h q.plain wf fresh).decodes pb rest v c) refl

  proto_received :
      (aead : Aead) (q : Packet) (pb pb' : ParseBuf) (nodeid : ℕ) (key : List ℕ) (h : ProtoHdr)
      (rest : List ℕ)
      → ProtoLaws.IsWellFormed h
      → q.proto.proto_vendor_id ≡ none
      → q.proto.ack_msg_ctr ≡ none
      → ProtoHdr.decrypt_in_place aead q.plain.ctr nodeid key pb ≡ (ok tt, pb')
      → ParseLaws.IsValid pb'
      → ParseLaws.contents pb' ≡ ProtoLaws.encoding h ++ rest
      → proto_decode aead nodeid (some key) (record q { direction = rx pb plain_decoded }) ≡ (
        ok tt,
        record q {
          proto = h;
          direction = rx (skip (length (ProtoLaws.encoding h)) pb') proto_decoded;
        },
      )
  unfolding proto_decode ProtoHdr.decrypt_and_decode ProtoHdr.decrypt_with ◌>>=◌
  proto_received aead q pb pb' nodeid key h rest wf vendor ack opened v c =
      rw opened (rw ((ProtoLaws.decode-Decodes h q.proto wf vendor ack).decodes pb' rest v c) refl)

  pub record IsSecure (s r : Session) : Type 0 where
    pub sender_secure : mode_is_encrypted s.mode ≡ true
    pub receiver_secure : mode_is_encrypted r.mode ≡ true
    pub same_key : r.dec_key ≡ s.enc_key
    pub same_node : or_zero r.peer_nodeid ≡ s.local_nodeid

  -- A packet as `Packet::new_rx` makes it, with these bytes in its buffer.
  pub record IsFresh (q : Packet) (pb : ParseBuf) (bytes : List ℕ) : Type 0 where
    pub no_nodeid : q.plain.peer_nodeid ≡ none
    pub no_vendor : q.proto.proto_vendor_id ≡ none
    pub no_ack : q.proto.ack_msg_ctr ≡ none
    pub valid : ParseLaws.IsValid pb
    pub at_start : pb.read_off ≡ 0
    pub received : ParseLaws.contents pb ≡ bytes

  -- What `recv` makes of a packet whose plain header is decoded.
  pub recv_lem :
      (aead : Aead) (now : ℕ) (s r : Session) (p q : Packet) (w : WriteBuf) (pb : ParseBuf)
      → IsSecure s r
      → IsSendable aead s p w
      → length (PlainLaws.encoding p.plain) ≡ 8
      → (cipher aead s p w).0 ≡ ok tt
      → IsFresh q pb (PlainLaws.encoding p.plain ++ contents (cipher aead s p w).1)
      → (q' : Packet) × (recv aead now (
        r,
        record q {
          plain = p.plain;
          direction = rx (skip (length (PlainLaws.encoding p.plain)) pb) plain_decoded;
        },
      )
          ≡ (ok tt, (record r { last_use = now }, q')))
        × (q'.plain ≡ p.plain)
        × (q'.proto ≡ p.proto)
        × (as_borrow_slice q' ≡ ok (contents w))
  unfolding recv get_dec_key as_borrow_slice
  recv_lem aead now s r p q w pb pair sendable short ciphered fresh =
      let header = PlainLaws.encoding p.plain in
      let (valid, text, fits, front) = clear_text_lem aead s p w sendable in
      let behind = skip (length header) pb in
      let behind_valid =
        ParseLaws.skip-IsValid (length header) pb
          (ParseLaws.enough pb header _ fresh.valid fresh.received) fresh.valid in
      let (pb', opened, clear, valid') =
        decrypt_in_place-encrypt_in_place aead s.enc_key header p.plain.ctr s.local_nodeid
          (clear_text p w) behind valid fits ciphered behind_valid
          (parsed_lem pb header _ fresh.valid fresh.at_start fresh.received) short
          (ParseLaws.contents-skip-append pb header _ fresh.received) in
      let proto = ProtoLaws.encoding p.proto in
      let decoded =
        proto_received aead (record q { plain = p.plain }) behind pb' s.local_nodeid s.enc_key
          p.proto (contents w) sendable.proto_ok fresh.no_vendor fresh.no_ack opened valid'
          (clear ∙ text) in
      let q' = record q {
        plain = p.plain;
        proto = p.proto;
        direction = rx (skip (length proto) pb') proto_decoded;
      } in
      (
        q',
        rw (pair.receiver_secure, get_dec_key)
            (rw pair.same_node (rw pair.same_key (rw decoded refl))),
        refl,
        refl,
        parse_slice-contents (skip (length proto) pb') (
              ParseLaws.skip-IsValid (length proto) pb'
                (ParseLaws.enough pb' proto _ valid' (clear ∙ text)) valid')
            ∙ ap ok (ParseLaws.contents-skip-append pb' proto _ (clear ∙ text)),
      )
