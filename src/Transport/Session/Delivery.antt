-- ===== src/Transport/Session/Delivery.antt =====
-- matter/src/transport/session.rs: a packet that one session sends and another one receives.
use matter_rs.Base.{
  ℕ, ◌+◌, ◌^◌, ◌<◌, ◌≡◌, ◌≢◌, refl, sym, ap, subst, ◌∙◌, true, ltb, List, length, ok, arith,
}
use matter_rs.Base.Exec.{◌>>◌, bind-ok}
use matter_rs.Base.Bytes.{LittleEndian}
use matter_rs.Base.Flags.{Bitflags}
use matter_rs.ParseBuf.{ParseBuf}
use matter_rs.WriteBuf.{WriteBuf}
use matter_rs.WriteBuf.Laws.{contents, as_slice-contents}
use matter_rs.Transport.Crypto.{Aead}
use matter_rs.Transport.PlainHdr.{PlainHdr, encrypted}
use matter_rs.Transport.PlainHdr
use matter_rs.Transport.PlainHdr.MsgFlags
use matter_rs.Transport.PlainHdr.Laws as PlainLaws
use matter_rs.Transport.Packet.{Packet, plain_hdr_decode, as_borrow_slice}
use matter_rs.Transport.Session.{Session, addressed, get_msg_ctr, pre_send, do_send, seal, recv}
use matter_rs.Transport.Session.Sending.{with_tx, IsSendable, length-plain, seal_lem}
use matter_rs.Transport.Session.Receiving.{with_rx, plain_received, IsSecure, IsFresh, recv_lem}

module _ ⦃le : LittleEndian⦄ ⦃bf : Bitflags⦄ where
  -- The two ends of one secure session.
  pub record IsPaired (s r : Session) : Type 0 where
    pub secure : IsSecure s r
    pub id_set : s.peer_sess_id ≢ 0
    pub id_fits : s.peer_sess_id < 256 ^ 2
    pub ctr_left : s.msg_ctr + 1 < 2 ^ 32

  -- The packet that `do_send` gets from `pre_send`.
  abbrev pub stamped : Session → Packet → Packet
  stamped s p = record p { plain = addressed s s.msg_ctr p.plain; peer = s.peer_addr }

  -- The sender with one counter used up.
  abbrev pub counted : Session → Session
  counted s = record s { msg_ctr = s.msg_ctr + 1 }

  counted-IsSecure : (s r : Session) → IsSecure s r → IsSecure (counted s) r
  counted-IsSecure s r pair = record {
    sender_secure = pair.sender_secure;
    receiver_secure = pair.receiver_secure;
    same_key = pair.same_key;
    same_node = pair.same_node;
  }

  stamped-WellFormed :
      (s r : Session) (p : Packet)
      → IsPaired s r
      → p.plain ≡ PlainHdr.default_hdr
      → PlainLaws.IsWellFormed (stamped s p).plain
  stamped-WellFormed s r p pair e =
      subst (λ h. PlainLaws.IsWellFormed (addressed s s.msg_ctr h)) (sym e)
        (record {
          known = omega arith;
          typed = rw pair.secure.sender_secure (ground arith);
          id_fits = pair.id_fits;
          ctr_fits = omega (arith, pair.ctr_left);
          node_fits = tt;
          announced = bf.contains_lem 0 MsgFlags.src_addr_present;
        })

  counted-pre_send :
      (s : Session) (p : Packet)
      → s.msg_ctr + 1 < 2 ^ 32
      → pre_send (s, p) ≡ (ok tt, (counted s, record p { plain = addressed s s.msg_ctr p.plain }))
  unfolding pre_send get_msg_ctr
  counted-pre_send s p left =
      let e : ltb (s.msg_ctr + 1) (2 ^ 32) ≡ true = ground arith in
      let counter : get_msg_ctr s ≡ (ok s.msg_ctr, counted s) = rw e refl in
      rw (counter, pre_send) (rw counter refl)

  sent_lem :
      (aead : Aead) (now : ℕ) (s : Session) (p : Packet)
      → s.msg_ctr + 1 < 2 ^ 32
      → (pre_send >> do_send aead now) (s, p) ≡ (
        (seal aead (counted s) (stamped s p)).0,
        (
          record s { msg_ctr = s.msg_ctr + 1; last_use = now },
          (seal aead (counted s) (stamped s p)).1,
        ),
      )
  unfolding do_send
  sent_lem aead now s p left = bind-ok pre_send _ (s, p) (counted-pre_send s p left)

  -- A packet that was made by `Packet::new_tx` (a default plain header), has a well-formed protocol
  -- header and room for both headers and the tag, and is sent with success by a session of a secure
  -- mode, `pre_send` and then `do_send`: when exactly the bytes of the sent packet arrive in a fresh
  -- packet of the peer's session (the same key, the sender's node id), both headers are decoded there
  -- without an error. The peer's packet then has the session id and the counter of the sender, the
  -- same protocol header and the same payload; and the sender's counter has gone up by one.
  pub recv-do_send :
      (aead : Aead) (now now' : ℕ) (s r : Session) (p q : Packet) (w : WriteBuf) (pb : ParseBuf)
      (bytes : List ℕ)
      → IsPaired s r
      → p.plain ≡ PlainHdr.default_hdr
      → IsSendable aead (counted s) (stamped s p) w
      → ((pre_send >> do_send aead now) (s, with_tx p w)).0 ≡ ok tt
      → as_borrow_slice ((pre_send >> do_send aead now) (s, with_tx p w)).1.1 ≡ ok bytes
      → IsFresh q pb bytes
      → (((pre_send >> do_send aead now) (s, with_tx p w)).1.0.msg_ctr ≡ s.msg_ctr + 1)
        × ((plain_hdr_decode (with_rx q pb)).0 ≡ ok tt)
        × ((q' : Packet) × (recv aead now' (r, (plain_hdr_decode (with_rx q pb)).1)
              ≡ (ok tt, (record r { last_use = now' }, q')))
            × (q'.plain.sess_id ≡ s.peer_sess_id)
            × (q'.plain.ctr ≡ s.msg_ctr)
            × (q'.proto ≡ p.proto)
            × (as_borrow_slice q' ≡ ok (contents w)))
  unfolding as_borrow_slice
  recv-do_send aead now now' s r p q w pb bytes pair default sendable done out fresh =
      let sent = sent_lem aead now s (with_tx p w) pair.ctr_left in
      let (w', sealed, valid, all, ciphered) =
        seal_lem aead (counted s) (stamped s p) w sendable (ap (λ x. x.0) (sym sent) ∙ done) in
      let bytes_lem : bytes ≡ contents w' = cc (
        out,
        ap (λ x. as_borrow_slice x.1.1) sent,
        ap (λ x. as_borrow_slice x.1) sealed,
        as_slice-contents w' valid,
      ) in
      let fresh' = subst (IsFresh q pb) (bytes_lem ∙ all) fresh in
      let wf = stamped-WellFormed s r p pair default in
      let decoded =
        plain_received q pb (stamped s p).plain _ wf fresh.no_nodeid fresh.valid fresh'.received in
      let short : length (PlainLaws.encoding (stamped s p).plain) ≡ 8 =
        length-plain (stamped s p).plain
        ∙ ap (λ h. 8 + length (PlainLaws.node_bytes h.peer_nodeid)) default in
      let (q', got, plain, proto, payload) =
        recv_lem aead now' (counted s) r (stamped s p) q w pb (counted-IsSecure s r pair.secure)
          sendable short ciphered fresh' in
      (
        ap (λ x. x.1.0.msg_ctr) sent,
        ap (λ x. x.0) decoded,
        (
          q',
          ap (λ x. recv aead now' (r, x.1)) decoded ∙ got,
          ap (λ x. x.sess_id) plain,
          ap (λ x. x.ctr) plain,
          proto,
          payload,
        ),
      )
