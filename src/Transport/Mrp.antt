-- ===== src/Transport/Mrp.antt =====
-- matter/src/transport/mrp.rs and matter/src/secure_channel/common.rs: what an
-- exchange still has to acknowledge and to have acknowledged, and the standalone acknowledgement
-- that the transport makes itself. The time is an argument: `SystemTime::now()`, in
-- milliseconds, and the last time that a `SystemTime` can hold.
pub mod Laws
use matter_rs.Base.{
  ℕ, ◌+◌, ◌<◌, Bool, true, false, ◌&&◌, ltb, leb, if◌then◌else◌, List, Option, some, none, is_none,
  is_some, Result, ok, err, panic, Error, invalid,
}
use matter_rs.Base.Exec.{Exec, modify, pure, fail, on_fst, on_snd, some_or_fail, ◌>>=◌, ◌>>◌}
use matter_rs.Base.Bytes.{LittleEndian}
use matter_rs.Base.Flags.{Bitflags}
use matter_rs.WriteBuf
use matter_rs.Transport.Packet.{Packet}
use matter_rs.Transport.Packet
use matter_rs.Transport.ProtoHdr

pub record Clock : Type 0 where
  pub now : ℕ
  pub last : ℕ

abbrev pub mrp_standalone_ack_timeout : ℕ
mrp_standalone_ack_timeout = 200

-- `SystemTime::checked_add`.
abbrev pub checked_add : Clock → ℕ → Option ℕ
checked_add c ms = if leb (c.now + ms) c.last then some (c.now + ms) else none

pub record RetransEntry : Type 0 where
  pub msg_ctr : ℕ

pub record AckEntry : Type 0 where
  pub msg_ctr : ℕ
  pub ack_timeout : ℕ

unfoldable pub new_ack : Clock → ℕ → Result AckEntry
new_ack c ctr = elim (checked_add c mrp_standalone_ack_timeout) [
  | some t ↦ ok (record { msg_ctr = ctr; ack_timeout = t })
  | none ↦ err invalid
]

-- The comparison is that of the source.
unfoldable pub has_timed_out : Clock → AckEntry → Bool
has_timed_out c e = ltb c.now e.ack_timeout

pub record ReliableMessage : Type 0 where
  pub retrans : Option RetransEntry
  pub ack : Option AckEntry

unfoldable pub new : ReliableMessage
new = record { retrans = none; ack = none }

unfoldable pub is_empty : ReliableMessage → Bool
is_empty m = is_none m.retrans && is_none m.ack

unfoldable pub is_ack_ready : Clock → ReliableMessage → Bool
unfolding has_timed_out
is_ack_ready c m = elim m.ack [ some e ↦ has_timed_out c e | none ↦ false ]

module _ ⦃bf : Bitflags⦄ where
  -- A pending acknowledgement is put into the message, and is pending no more.
  unfoldable pub attach_ack : ReliableMessage × Packet → ReliableMessage × Packet
  attach_ack (m, p) = elim m.ack [
    | some e ↦ (record m { ack = none }, record p { proto = ProtoHdr.set_ack e.msg_ctr p.proto })
    | none ↦ (m, p)
  ]

  -- A reliable message is remembered for retransmission; there may be one at a time.
  unfoldable pub note_retrans : Exec (ReliableMessage × Packet) (Unit {0})
  note_retrans (m, p) =
      if Packet.is_reliable p
      then elim m.retrans [
        | some e ↦ (err invalid, (m, p))
        | none ↦ (ok tt, (record m { retrans = some (record { msg_ctr = p.plain.ctr }) }, p))
      ]
      else (ok tt, (m, p))

  unfoldable pub pre_send : Exec (ReliableMessage × Packet) (Unit {0})
  unfolding attach_ack note_retrans
  pre_send s = note_retrans (attach_ack s)

  -- A received acknowledgement ends the wait for one, whatever counter it names.
  unfoldable pub recv_ack : Packet → Exec ReliableMessage (Unit {0})
  recv_ack p m =
      if ProtoHdr.is_ack p.proto
      then elim (ProtoHdr.get_ack_msg_ctr p.proto) [
        | none ↦ (err invalid, m)
        | some ctr ↦ (ok tt, record m { retrans = none })
      ]
      else (ok tt, m)

  -- A reliable message is to be acknowledged; one such message may be pending at a time.
  unfoldable pub recv_reliable : Clock → Packet → Exec ReliableMessage (Unit {0})
  unfolding new_ack
  recv_reliable c p m =
      if ProtoHdr.is_reliable p.proto
      then elim m.ack [
        | some e ↦ (err invalid, m)
        | none ↦ elim (new_ack c p.plain.ctr) [
          | ok e ↦ (ok tt, record m { ack = some e })
          | err x ↦ (err x, m)
          | panic ↦ (panic, m)
        ]
      ]
      else (ok tt, m)

  unfoldable pub recv : Clock → Packet → Exec ReliableMessage (Unit {0})
  unfolding ◌>>=◌ recv_ack recv_reliable
  recv c p = do recv_ack p; recv_reliable c p

  abbrev pub proto_id_secure_channel : ℕ
  proto_id_secure_channel = 0x00

  -- `OpCode::MRPStandAloneAck`.
  unfoldable pub create_mrp_standalone_ack : Packet → Packet
  create_mrp_standalone_ack p =
      Packet.unset_reliable (Packet.set_proto_opcode 0x10 (Packet.set_proto_id 0x00 p))
