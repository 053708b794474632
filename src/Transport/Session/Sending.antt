-- ===== src/Transport/Session/Sending.antt =====
-- matter/src/transport/session.rs: what `do_send` of an encrypted session makes of a packet.
use matter_rs.Base.{
  ℕ, ◌+◌, ◌-◌, ◌≤◌, ◌≡◌, refl, sym, ap, subst, ◌∙◌, true, le→leb, List, [], ◌∷◌, ◌++◌, length,
  length-splice, take_all, replicate, length-replicate, length-append, Option, some, none, Result,
  ok, arith,
}
use matter_rs.Base.Exec.{Exec, ◌>>=◌, ◌>>◌, bind_done}
use matter_rs.Base.Bytes.{LittleEndian}
use matter_rs.Base.Flags.{Bitflags}
use matter_rs.WriteBuf.{WriteBuf}
use matter_rs.WriteBuf
use matter_rs.WriteBuf.Laws.{
  IsValid, contents, Writes, Fits, extend, extend-IsValid, contents-extend, as_slice-contents,
  extend_front, prepend-eq-extend_front, prepend_lem,
}
use matter_rs.Transport.Crypto.{Aead, aead_mic_len_bytes}
use matter_rs.Transport.PlainHdr.{PlainHdr}
use matter_rs.Transport.PlainHdr
use matter_rs.Transport.PlainHdr.Laws as PlainLaws
use matter_rs.Transport.ProtoHdr.{ProtoHdr}
use matter_rs.Transport.ProtoHdr
use matter_rs.Transport.ProtoHdr.Laws as ProtoLaws
use matter_rs.Transport.ProtoHdr.Encryption.{tag_space, encrypt_in_place_start}
use matter_rs.Transport.Packet.{Packet, tx}
use matter_rs.Transport.Packet
use matter_rs.Transport.SessionMode.{SessionMode, case_mode, pase, plain_text}
use matter_rs.Transport.Session.{
  Session, mode_is_encrypted, encoded, encode_into, set_dest, encrypt_for, get_enc_key, seal,
}

-- The packet with this buffer to be sent.
abbrev pub with_tx : Packet → WriteBuf → Packet
with_tx p w = record p { direction = tx w }

abbrev array : ℕ → WriteBuf
array size = record { buf = replicate size 0; start = 0; end = 0 }

array_lem :
    (size : ℕ)
    → (WriteBuf.new (replicate size 0) size ≡ ok (array size))
      × (length (replicate {A = ℕ} size 0) ≡ size)
unfolding WriteBuf.new
array_lem size =
    let size_lem = length-replicate {A = ℕ} size 0 in
    let zeros : List ℕ = replicate size 0 in
    (
      rw
          (
            le→leb size (length zeros) (omega (arith, size_lem)),
            take_all size zeros (omega (arith, size_lem)),
          )
          refl,
      size_lem,
    )

-- A header that fits an array is encoded into it.
encoded_lem :
    (m : Exec WriteBuf (Unit {0})) (bs : List ℕ) (size : ℕ)
    → Writes m bs
    → length bs ≤ size
    → encoded size m ≡ ok bs
unfolding encoded
encoded_lem m bs size w h =
    let (created, size_lem) = array_lem size in
    let valid : IsValid (array size) = omega (arith, size_lem) in
    let fits : Fits (array size) bs = omega (arith, size_lem) in
    let start = array size in
    rw created (
      rw (w.writes start fits, encode_into)
        (rw (w.writes start fits) (
          as_slice-contents (extend start bs) (extend-IsValid start bs valid fits)
          ∙ ap ok (contents-extend start bs valid fits))))

prepend_to :
    (p : Packet) (w : WriteBuf) (bs : List ℕ)
    → IsValid w
    → length bs ≤ w.start
    → Packet.with_writebuf (WriteBuf.prepend bs) (with_tx p w)
      ≡ (ok tt, with_tx p (extend_front w bs))
unfolding Packet.with_writebuf
prepend_to p w bs v h = rw (prepend-eq-extend_front w bs v h) refl

extend_front_lem :
    (w : WriteBuf) (bs : List ℕ)
    → IsValid w
    → length bs ≤ w.start
    → IsValid (extend_front w bs) × (contents (extend_front w bs) ≡ bs ++ contents w)
extend_front_lem w bs v h =
    let (done, valid, after) = (prepend_lem w bs v).0 h in
    let e = prepend-eq-extend_front w bs v h in
    (subst (λ x. IsValid x.1) e valid, ap (λ x. contents x.1) (sym e) ∙ after)

module _ ⦃le : LittleEndian⦄ ⦃bf : Bitflags⦄ where
  set_dest_encrypted :
      (s : Session) (p : Packet) (m : SessionMode)
      → s.mode ≡ m
      → mode_is_encrypted m ≡ true
      → set_dest s p ≡ p
  unfolding set_dest
  set_dest_encrypted s p (case_mode i) e h = simp (e, set_dest)
  set_dest_encrypted s p pase e h = simp (e, set_dest)
  set_dest_encrypted s p plain_text e h = cc

  encrypt_for_lem :
      (aead : Aead) (s : Session) (ad : List ℕ) (p : Packet) (w : WriteBuf)
      → mode_is_encrypted s.mode ≡ true
      → encrypt_for aead s ad (with_tx p w) ≡ (
        (ProtoHdr.encrypt_in_place aead p.plain.ctr s.local_nodeid ad s.enc_key w).0,
        with_tx p (ProtoHdr.encrypt_in_place aead p.plain.ctr s.local_nodeid ad s.enc_key w).1,
      )
  unfolding encrypt_for Packet.with_writebuf get_enc_key
  encrypt_for_lem aead s ad p w h = simp (h, encrypt_for, get_enc_key, Packet.with_writebuf)

  -- What an encrypted session puts in front of the payload and what it makes of it.
  abbrev pub clear_text : Packet → WriteBuf → WriteBuf
  clear_text p w = extend_front w (ProtoLaws.encoding p.proto)

  abbrev pub cipher : Aead → Session → Packet → WriteBuf → Result (Unit {0}) × WriteBuf
  cipher aead s p w =
      ProtoHdr.encrypt_in_place aead p.plain.ctr s.local_nodeid (PlainLaws.encoding p.plain)
        s.enc_key (clear_text p w)

  optional_bytes_le : (n : ℕ) (o : Option ℕ) → length (ProtoLaws.optional_bytes n o) ≤ n
  optional_bytes_le n none = omega arith
  optional_bytes_le n (some v) = omega (arith, le.length-write n v)

  proto_bytes :
      (h : ProtoHdr)
      → ProtoLaws.IsWellFormed h
      → length (ProtoLaws.encoding h) ≤ ProtoHdr.max_proto_hdr_len
  proto_bytes h wf =
      let vendor = ProtoLaws.optional_bytes 2 h.proto_vendor_id in
      let ack = ProtoLaws.optional_bytes 4 h.ack_msg_ctr in
      omega (
        arith,
        le.length-write 2 h.exch_id,
        le.length-write 2 h.proto_id,
        length-append (le.write 2 h.exch_id) (le.write 2 h.proto_id ++ (vendor ++ ack)),
        length-append (le.write 2 h.proto_id) (vendor ++ ack),
        length-append vendor ack,
        optional_bytes_le 2 h.proto_vendor_id,
        optional_bytes_le 4 h.ack_msg_ctr,
      )

  node_bytes_le : (o : Option ℕ) → length (PlainLaws.node_bytes o) ≤ 8
  node_bytes_le none = omega arith
  node_bytes_le (some v) = omega (arith, le.length-write 8 v)

  pub length-plain :
      (h : PlainHdr)
      → length (PlainLaws.encoding h) ≡ 8 + length (PlainLaws.node_bytes h.peer_nodeid)
  length-plain h =
      let node = PlainLaws.node_bytes h.peer_nodeid in
      omega (
        arith,
        le.length-write 2 h.sess_id,
        le.length-write 4 h.ctr,
        length-append (le.write 2 h.sess_id) ((0 ∷ []) ++ (le.write 4 h.ctr ++ node)),
        length-append (le.write 4 h.ctr) node,
      )

  plain_bytes : (h : PlainHdr) → length (PlainLaws.encoding h) ≤ PlainHdr.max_plain_hdr_len
  plain_bytes h = omega (arith, length-plain h, node_bytes_le h.peer_nodeid)

  -- What is left to do behind the two headers' encoding.
  abbrev finish : Aead → Session → List ℕ → Exec Packet (Unit {0})
  finish aead s bytes = encrypt_for aead s bytes >> Packet.with_writebuf (WriteBuf.prepend bytes)

  module _ (aead : Aead) (s : Session) (p : Packet) (w : WriteBuf) where
    -- What has to hold of the packet for `do_send` to have room for all that it adds.
    pub record IsSendable : Type 0 where
      pub secured : mode_is_encrypted s.mode ≡ true
      pub proto_ok : ProtoLaws.IsWellFormed p.proto
      pub valid : IsValid w
      pub front :
          length (PlainLaws.encoding p.plain) + length (ProtoLaws.encoding p.proto) ≤ w.start
      pub back : w.end + aead_mic_len_bytes ≤ length w.buf

    seal-finish :
        IsSendable
        → seal aead s (with_tx p w)
          ≡ finish aead s (PlainLaws.encoding p.plain) (with_tx p (clear_text p w))
    unfolding seal ◌>>=◌
    seal-finish h =
        rw
          (encoded_lem (ProtoHdr.encode p.proto) _ ProtoHdr.max_proto_hdr_len
            (ProtoLaws.encode-Writes p.proto h.proto_ok) (proto_bytes p.proto h.proto_ok))
          (rw (prepend_to p w (ProtoLaws.encoding p.proto) h.valid (omega (arith, h.front))) (
            rw (set_dest_encrypted s (with_tx p (clear_text p w)) s.mode refl h.secured) (
              rw
                (encoded_lem (PlainHdr.encode p.plain) _ PlainHdr.max_plain_hdr_len
                  (PlainLaws.encode-Writes p.plain) (plain_bytes p.plain))
                refl)))

    cipher_done : IsSendable → (seal aead s (with_tx p w)).0 ≡ ok tt → (cipher aead s p w).0 ≡ ok tt
    cipher_done h done =
        let bytes = PlainLaws.encoding p.plain in
        let (u, e) =
          bind_done (encrypt_for aead s bytes) _ (with_tx p (clear_text p w)) tt _ refl
            (ap (λ x. x.0) (sym (seal-finish h)) ∙ done) in
        sym (ap (λ x. x.0) (encrypt_for_lem aead s bytes p (clear_text p w) h.secured)) ∙ e

    pub clear_text_lem :
        IsSendable
        → IsValid (clear_text p w)
          × (contents (clear_text p w) ≡ ProtoLaws.encoding p.proto ++ contents w)
          × Fits (clear_text p w) tag_space
          × (length (PlainLaws.encoding p.plain) ≤ (clear_text p w).start)
    clear_text_lem h =
        let (valid, text) =
          extend_front_lem w (ProtoLaws.encoding p.proto) h.valid (omega (arith, h.front)) in
        (
          valid,
          text,
          omega (
            arith,
            h.back,
            length-splice w.buf (w.start - length (ProtoLaws.encoding p.proto))
                (ProtoLaws.encoding p.proto),
          ),
          omega (arith, h.front),
        )

    -- A packet that is sent with success holds the plain header in front of what the cipher gives.
    pub seal_lem :
        IsSendable
        → (seal aead s (with_tx p w)).0 ≡ ok tt
        → (w' : WriteBuf) × (seal aead s (with_tx p w) ≡ (ok tt, with_tx p w'))
          × IsValid w'
          × (contents w' ≡ PlainLaws.encoding p.plain ++ contents (cipher aead s p w).1)
          × ((cipher aead s p w).0 ≡ ok tt)
    unfolding ◌>>=◌
    seal_lem h done =
        let bytes = PlainLaws.encoding p.plain in
        let (valid, text, fits, front) = clear_text_lem h in
        let ciphered = cipher_done h done in
        let (valid', start) =
          encrypt_in_place_start aead s.enc_key bytes p.plain.ctr s.local_nodeid (clear_text p w)
            valid fits ciphered in
        let room = subst (λ k. length bytes ≤ k) (sym start) front in
        let (valid'', all) = extend_front_lem (cipher aead s p w).1 bytes valid' room in
        (
          extend_front (cipher aead s p w).1 bytes,
          seal-finish h
              ∙ rw (encrypt_for_lem aead s bytes p (clear_text p w) h.secured)
                  (rw ciphered (prepend_to p (cipher aead s p w).1 bytes valid' room)),
          valid'',
          all,
          ciphered,
        )
