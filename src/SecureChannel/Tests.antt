-- ===== src/SecureChannel/Tests.antt =====
-- A status report at a concrete input.
use matter_rs.Base.{◌≡◌, arith, [], ◌∷◌, replicate, none, ok}
use matter_rs.Base.Bytes.{reference_le}
use matter_rs.Base.Flags.{reference_flags}
use matter_rs.WriteBuf.{WriteBuf}
use matter_rs.WriteBuf.Laws.{contents}
use matter_rs.Transport.SessionTests.{outgoing}
use matter_rs.Transport.Packet.{Packet, tx}
use matter_rs.SecureChannel.Status.{create_sc_status_report, close_session}
use matter_rs.SecureChannel.Status.Laws.{create_sc_status_report_lem}

abbrev empty_buf : WriteBuf
empty_buf = record { buf = replicate 10 0; start = 2; end = 2 }

-- A message that would be sent reliably.
abbrev reliable_packet : Packet
reliable_packet = record outgoing { proto = record (outgoing.proto) { exch_flags = 5 } }

create_sc_status_report_example :
    (w' : WriteBuf) × (create_sc_status_report close_session none
        (record reliable_packet { direction = tx empty_buf })
      ≡ (
        ok tt,
        record outgoing {
          proto = record (outgoing.proto) { proto_id = 0; proto_opcode = 0x40; exch_flags = 1 };
          direction = tx w';
        },
      ))
    × (contents w' ≡ 0 ∷ 0 ∷ 0 ∷ 0 ∷ 0 ∷ 0 ∷ 3 ∷ 0 ∷ [])
unfolding reference_le
create_sc_status_report_example =
    (create_sc_status_report_lem close_session none reliable_packet empty_buf (omega arith)).0
      (omega arith)
