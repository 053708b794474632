-- ===== src/SecureChannel/Status/Laws.antt =====
-- matter/src/secure_channel/status_report.rs: what a status report holds.
use matter_rs.Base.{
  ℕ, ◌+◌, ◌<◌, ◌≡◌, refl, ap, subst, ◌∙◌, List, [], ◌++◌, Option, some, none, length, Result, ok,
  err, no_space,
}
use matter_rs.Base.Bytes.{LittleEndian}
use matter_rs.Base.Flags.{Bitflags}
use matter_rs.WriteBuf.{WriteBuf}
use matter_rs.WriteBuf.Laws.{
  Writes, IsValid, contents, extend, Fits, contents-extend, >>-Writes, pure-Writes,
  copy_from_slice-Writes, le_u16-Writes, le_u32-Writes,
}
use matter_rs.Transport.Packet.{Packet, tx, with_writebuf}
use matter_rs.Transport.Packet
use matter_rs.Transport.ProtoHdr
use matter_rs.SecureChannel.Status.{
  GeneralCode, ScStatusCodes, session_establishment_success, no_shared_trust_roots,
  invalid_parameter, close_session, sc_busy, session_not_found, general_number, general_code,
  status_number, proto_id_secure_channel, labelled, reliability, write_data, write_report,
  create_status_report, create_sc_status_report,
}

-- The data behind the codes.
abbrev pub data_bytes : Option (List ℕ) → List ℕ
data_bytes none = []
data_bytes (some bytes) = bytes

module _ ⦃le : LittleEndian⦄ where
  -- A report on the wire.
  abbrev pub report : GeneralCode → ℕ → ℕ → Option (List ℕ) → List ℕ
  report general proto_id proto_code proto_data =
      le.write 2 (general_number general)
      ++ (le.write 4 proto_id ++ (le.write 2 proto_code ++ data_bytes proto_data))

  write_data-Writes : (o : Option (List ℕ)) → Writes (write_data o) (data_bytes o)
  write_data-Writes none = pure-Writes
  write_data-Writes (some bytes) = copy_from_slice-Writes bytes

  write_report-Writes :
      (general : GeneralCode) (proto_id proto_code : ℕ) (o : Option (List ℕ))
      → Writes (write_report general proto_id proto_code o) (report general proto_id proto_code o)
  unfolding write_report
  write_report-Writes general proto_id proto_code o =
      >>-Writes (le_u16-Writes (general_number general)) (
        >>-Writes (le_u32-Writes proto_id)
          (>>-Writes (le_u16-Writes proto_code) (write_data-Writes o)))

module _ ⦃le : LittleEndian⦄ ⦃bf : Bitflags⦄ where
  -- The numbers of a report in the protocol: the general code, 0 for a success and 1 for a failure, and
  -- the code of the secure channel.
  abbrev pub codes : ScStatusCodes → ℕ × ℕ
  codes session_establishment_success = (0, 0)
  codes no_shared_trust_roots = (1, 1)
  codes invalid_parameter = (1, 2)
  codes close_session = (0, 3)
  codes sc_busy = (1, 4)
  codes session_not_found = (1, 5)

  -- The bytes of a secure channel's report, whose protocol is number 0.
  abbrev pub sc_report : ScStatusCodes → Option (List ℕ) → List ℕ
  sc_report code o =
      le.write 2 (codes code).0 ++ (le.write 4 0 ++ (le.write 2 (codes code).1 ++ data_bytes o))

  same_report :
      (code : ScStatusCodes) (o : Option (List ℕ))
      → report (general_code code) proto_id_secure_channel (status_number code) o ≡ sc_report code o
  same_report session_establishment_success o = refl
  same_report no_shared_trust_roots o = refl
  same_report invalid_parameter o = refl
  same_report close_session o = refl
  same_report sc_busy o = refl
  same_report session_not_found o = refl

  -- The flags of the report: 4, for a reliable message, is taken out for the close of a session.
  abbrev pub report_flags : ScStatusCodes → ℕ → ℕ
  report_flags close_session flags = bf.difference flags 4
  report_flags _ flags = flags

  -- The packet of a report: opcode 0x40 of protocol 0, and else what it was.
  abbrev pub report_packet : ScStatusCodes → Packet → WriteBuf → Packet
  report_packet code p w = record p {
    proto = record (p.proto) {
      proto_id = 0;
      proto_opcode = 0x40;
      exch_flags = report_flags code p.proto.exch_flags;
    };
    direction = tx w;
  }

  labelled_tx :
      (code : ScStatusCodes) (p : Packet) (w : WriteBuf)
      → labelled (reliability code (record p { direction = tx w })) ≡ report_packet code p w
  unfolding Packet.set_proto_opcode Packet.set_proto_id Packet.unset_reliable
      ProtoHdr.unset_reliable
  labelled_tx session_establishment_success p w = refl
  labelled_tx no_shared_trust_roots p w = refl
  labelled_tx invalid_parameter p w = refl
  labelled_tx close_session p w = refl
  labelled_tx sc_busy p w = refl
  labelled_tx session_not_found p w = refl

  sc_report-Writes :
      (code : ScStatusCodes) (o : Option (List ℕ))
      → Writes
          (write_report (general_code code) proto_id_secure_channel (status_number code) o)
          (sc_report code o)
  sc_report-Writes code o =
      subst
        (Writes (write_report (general_code code) proto_id_secure_channel (status_number code) o))
        (same_report code o)
        (write_report-Writes (general_code code) proto_id_secure_channel (status_number code) o)

  -- A report is written on the packet with the headers of a report.
  written_on :
      (code : ScStatusCodes) (o : Option (List ℕ)) (p : Packet) (w : WriteBuf)
      (r : Result (Unit {0})) (w' : WriteBuf)
      → write_report (general_code code) proto_id_secure_channel (status_number code) o w ≡ (r, w')
      → create_sc_status_report code o (record p { direction = tx w })
        ≡ (r, report_packet code p w')
  unfolding create_sc_status_report create_status_report with_writebuf
  written_on code o p w r w' e =
      let report_on =
        with_writebuf
          (write_report (general_code code) proto_id_secure_channel (status_number code) o) in
      ap report_on (labelled_tx code p w) ∙ ap (λ x. (x.0, report_packet code p x.1)) e

  -- On a packet to be sent. Where the report fits, it stands behind what the packet holds: the general
  -- code, 0 for an established or closed session and 1 otherwise, in two bytes, the protocol 0 in
  -- four, the code in two, and the data. The header names opcode 0x40 of protocol 0, its flags lose
  -- RELIABLE where a session is closed, and the rest of the packet stays. Where the report does not
  -- fit, the error is `NoSpace`.
  pub create_sc_status_report_lem :
      (code : ScStatusCodes) (o : Option (List ℕ)) (p : Packet) (w : WriteBuf)
      → IsValid w
      → (Fits w (sc_report code o)
          → (w' : WriteBuf) × (create_sc_status_report code o (record p { direction = tx w })
              ≡ (ok tt, report_packet code p w'))
            × (contents w' ≡ contents w ++ sc_report code o))
        × (length w.buf < w.end + length (sc_report code o)
            → (create_sc_status_report code o (record p { direction = tx w })).0 ≡ err no_space)
  create_sc_status_report_lem code o p w v =
      let writer = sc_report-Writes code o in
      (
        λ fits. (
          extend w (sc_report code o),
          written_on code o p w (ok tt) (extend w (sc_report code o)) (writer.writes w fits),
          contents-extend w (sc_report code o) v fits,
        ),
        λ short. ap (λ x. x.0) (written_on code o p w _ _ refl) ∙ writer.refuses w v.within short,
      )
