-- ===== src/SecureChannel/Status.antt =====
-- matter/src/secure_channel/status_report.rs and matter/src/secure_channel/common.rs: the payload
-- that ends the establishment of a session, or the session.
pub mod Laws
use matter_rs.Base.{ℕ, List, Option, some, none}
use matter_rs.Base.Exec.{Exec, pure, ◌>>=◌, ◌>>◌}
use matter_rs.Base.Bytes.{LittleEndian}
use matter_rs.Base.Flags.{Bitflags}
use matter_rs.WriteBuf.{WriteBuf}
use matter_rs.WriteBuf
use matter_rs.Transport.Packet.{Packet}
use matter_rs.Transport.Packet

abbrev pub proto_id_secure_channel : ℕ
proto_id_secure_channel = 0

pub data GeneralCode : Type 0 where
  success failure bad_precondition out_of_range bad_request unsupported : GeneralCode
  unexpected resource_exhausted busy timeout continue aborted invalid_argument : GeneralCode
  not_found already_exists permission_denied data_loss : GeneralCode

-- `general_code as u16`.
abbrev pub general_number : GeneralCode → ℕ
general_number success = 0
general_number failure = 1
general_number bad_precondition = 2
general_number out_of_range = 3
general_number bad_request = 4
general_number unsupported = 5
general_number unexpected = 6
general_number resource_exhausted = 7
general_number busy = 8
general_number timeout = 9
general_number continue = 10
general_number aborted = 11
general_number invalid_argument = 12
general_number not_found = 13
general_number already_exists = 14
general_number permission_denied = 15
general_number data_loss = 16

pub data OpCode : Type 0 where
  msg_counter_sync_req msg_counter_sync_resp mrp_stand_alone_ack : OpCode
  pbkdf_param_request pbkdf_param_response : OpCode
  pase_pake1 pase_pake2 pase_pake3 : OpCode
  case_sigma1 case_sigma2 case_sigma3 case_sigma2_resume : OpCode
  status_report : OpCode

-- `OpCode::… as u8`.
abbrev pub op_number : OpCode → ℕ
op_number msg_counter_sync_req = 0x00
op_number msg_counter_sync_resp = 0x01
op_number mrp_stand_alone_ack = 0x10
op_number pbkdf_param_request = 0x20
op_number pbkdf_param_response = 0x21
op_number pase_pake1 = 0x22
op_number pase_pake2 = 0x23
op_number pase_pake3 = 0x24
op_number case_sigma1 = 0x30
op_number case_sigma2 = 0x31
op_number case_sigma3 = 0x32
op_number case_sigma2_resume = 0x33
op_number status_report = 0x40

pub data ScStatusCodes : Type 0 where
  session_establishment_success no_shared_trust_roots invalid_parameter : ScStatusCodes
  close_session sc_busy session_not_found : ScStatusCodes

-- `status_code as u16`.
abbrev pub status_number : ScStatusCodes → ℕ
status_number session_establishment_success = 0
status_number no_shared_trust_roots = 1
status_number invalid_parameter = 2
status_number close_session = 3
status_number sc_busy = 4
status_number session_not_found = 5

abbrev pub general_code : ScStatusCodes → GeneralCode
general_code session_establishment_success = success
general_code close_session = success
general_code sc_busy = failure
general_code invalid_parameter = failure
general_code no_shared_trust_roots = failure
general_code session_not_found = failure

-- The headers' protocol and opcode are set before anything is written.
abbrev pub labelled : Packet → Packet
labelled p =
    Packet.set_proto_opcode (op_number status_report)
      (Packet.set_proto_id proto_id_secure_channel p)

abbrev pub write_data : Option (List ℕ) → Exec WriteBuf (Unit {0})
write_data none = pure tt
write_data (some bytes) = WriteBuf.copy_from_slice bytes

module _ ⦃le : LittleEndian⦄ where
  unfoldable pub write_report : GeneralCode → ℕ → ℕ → Option (List ℕ) → Exec WriteBuf (Unit {0})
  write_report general proto_id proto_code proto_data = do
    WriteBuf.le_u16 (general_number general)
    WriteBuf.le_u32 proto_id
    WriteBuf.le_u16 proto_code
    write_data proto_data

  unfoldable pub create_status_report :
      GeneralCode → ℕ → ℕ → Option (List ℕ) → Exec Packet (Unit {0})
  unfolding write_report
  create_status_report general proto_id proto_code proto_data p =
      Packet.with_writebuf (write_report general proto_id proto_code proto_data) (labelled p)

module _ ⦃le : LittleEndian⦄ ⦃bf : Bitflags⦄ where
  -- No reliable delivery for the close of a session.
  abbrev pub reliability : ScStatusCodes → Packet → Packet
  reliability close_session p = Packet.unset_reliable p
  reliability _ p = p

  unfoldable pub create_sc_status_report : ScStatusCodes → Option (List ℕ) → Exec Packet (Unit {0})
  unfolding create_status_report
  create_sc_status_report code proto_data p =
      create_status_report (general_code code) proto_id_secure_channel (status_number code)
        proto_data (reliability code p)
