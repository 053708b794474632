-- ===== src/Transport/Mrp/Laws.antt =====
-- matter/src/transport/mrp.rs: one acknowledgement and one retransmission may be pending.
use matter_rs.Base.{ℕ, ◌+◌, ◌≡◌, true, false, ltb, some, none, ok, err, invalid, arith}
use matter_rs.Base.Flags.{Bitflags}
use matter_rs.Transport.Packet.{Packet}
use matter_rs.Transport.Packet
use matter_rs.Transport.ProtoHdr
use matter_rs.Transport.Mrp.{
  Clock, RetransEntry, ReliableMessage, mrp_standalone_ack_timeout, is_ack_ready, is_empty,
  pre_send, recv,
}

module _ ⦃bf : Bitflags⦄ where
  -- After a reliable message is accepted, its counter is what is to be acknowledged, in 200 ms, and
  -- nothing was to be acknowledged before.
  pub recv_reliable-pending :
      (c : Clock) (p : Packet) (m m' : ReliableMessage)
      → recv c p m ≡ (ok tt, m')
      → ProtoHdr.is_reliable p.proto ≡ true
      → (m.ack ≡ none)
        × (m'.ack
            ≡ some (record {
              msg_ctr = p.plain.ctr;
              ack_timeout = c.now + mrp_standalone_ack_timeout;
            }))
  unfolding recv
  recv_reliable-pending c p m m' h r = ground arith

  -- A second reliable message that does not carry an acknowledgement is refused until the first
  -- is acknowledged, and changes nothing.
  pub recv_twice :
      (c d : Clock) (p q : Packet) (m m' : ReliableMessage)
      → recv c p m ≡ (ok tt, m')
      → ProtoHdr.is_reliable p.proto ≡ true
      → ProtoHdr.is_reliable q.proto ≡ true
      → ProtoHdr.is_ack q.proto ≡ false
      → recv d q m' ≡ (err invalid, m')
  unfolding recv
  recv_twice c d p q m m' h r s a = ground (arith, (recv_reliable-pending c p m m' h r).1)

  -- With no acknowledgement pending, a reliable message that is sent while another waits for its
  -- acknowledgement is refused; an unreliable message that carries an acknowledgement, whatever
  -- counter it names, ends the wait, and the reliable message is then sent.
  pub pre_send_reliable :
      (c : Clock) (p q : Packet) (m : ReliableMessage) (e : RetransEntry) (ctr : ℕ)
      → Packet.is_reliable p ≡ true
      → m.ack ≡ none
      → m.retrans ≡ some e
      → ProtoHdr.is_ack q.proto ≡ true
      → ProtoHdr.is_reliable q.proto ≡ false
      → ProtoHdr.get_ack_msg_ctr q.proto ≡ some ctr
      → (pre_send (m, p) ≡ (err invalid, (m, p)))
        × (is_empty (recv c q m).1 ≡ true)
        × ((pre_send ((recv c q m).1, p)).0 ≡ ok tt)
  unfolding pre_send recv is_empty
  pre_send_reliable c p q m e ctr r a t b d f = (ground arith, ground arith, ground arith)

  -- After a reliable message is accepted, its acknowledgement is reported as due exactly while the
  -- deadline, 200 ms later, has not come: at once, and not from the deadline on.
  pub is_ack_ready-recv :
      (c d : Clock) (p : Packet) (m m' : ReliableMessage)
      → recv c p m ≡ (ok tt, m')
      → ProtoHdr.is_reliable p.proto ≡ true
      → is_ack_ready d m' ≡ ltb d.now (c.now + mrp_standalone_ack_timeout)
  unfolding is_ack_ready
  is_ack_ready-recv c d p m m' h r =
      let pending = (recv_reliable-pending c p m m' h r).1 in ground (arith, pending)
