-- ===== src/DataModel/CommandTests.antt =====
-- The theorems of requests and commands at concrete inputs.
use matter_rs.Base.{ℕ, ◌+◌, ◌≡◌, false, List, [], ◌∷◌, ◌++◌, some, none, replicate}
use matter_rs.Base.Bytes.{reference_le}
use matter_rs.Base.Flags.{reference_flags}
use matter_rs.WriteBuf.{WriteBuf}
use matter_rs.WriteBuf
use matter_rs.InteractionModel.Status.{done}
use matter_rs.InteractionModel.Messages.{EncodeValue, AttrResp, value}
use matter_rs.InteractionModel.Commands.{CommandReq, InvResp, new_transaction}
use matter_rs.DataModel.Cluster.{Cluster, basic}
use matter_rs.DataModel.Node.Pointwise.{SameNode}
use matter_rs.DataModel.Node.Changing.{Change}
use matter_rs.DataModel.NodeTests.{one_entry, house, concrete, turn_on, request, lamp}
use matter_rs.DataModel.Reading.Requests.{ReadReq, consume_read_attr}
use matter_rs.DataModel.Reading.Requests.Laws.{owed_array, consume_read_attr_lem}
use matter_rs.DataModel.Commands.{handle_command_path}
use matter_rs.DataModel.Commands.Laws.{MayHandle, handle_command_path-MayHandle}
use matter_rs.DataModel.FailSafe.{armed, add_noc_recvd}
use matter_rs.DataModel.GeneralCommissioning.{GenCommCluster}
use matter_rs.DataModel.Attribute
use matter_rs.DataModel.Attribute.{uint8}
use matter_rs.Transport.SessionTests.{session}

abbrev buffer : WriteBuf
buffer = record { buf = replicate 10 0; start = 2; end = 2 }

-- A report takes up one byte here.
abbrev emit_report : AttrResp → WriteBuf → WriteBuf
emit_report r w = (WriteBuf.le_u8 1 w).1

abbrev read_request : ReadReq
read_request = record {
  attr_requests = some (request.path ∷ []);
  fabric_filtered = false;
  dataver_filters = none;
}

consume_read_attr_example :
    consume_read_attr emit_report basic one_entry house session read_request buffer
    ≡ owed_array basic one_entry house emit_report session read_request
        (some (request.path ∷ []))
        buffer
consume_read_attr_example =
    consume_read_attr_lem basic one_entry house emit_report session read_request buffer

abbrev emit_answer : InvResp → List InvResp → List InvResp
emit_answer r rs = rs ++ r ∷ []

-- A command that counts the data version up.
abbrev count_up : Change Cluster (CommandReq (List InvResp))
count_up c req = (done tt, (record c { data_ver = c.data_ver + 1 }, req))

abbrev command : CommandReq (List InvResp)
command = record { cmd = concrete; payload = turn_on; resp = []; trans = new_transaction session }

handle_command_path_example :
    SameNode
      (MayHandle emit_answer basic count_up concrete)
      0
      house
      (handle_command_path emit_answer basic count_up command house).1.0
handle_command_path_example = handle_command_path-MayHandle emit_answer basic count_up command house

-- A device whose fail-safe has seen the NOC of fabric 1.
abbrev commissioning : GenCommCluster
commissioning = record {
  expiry_len = 120;
  failsafe =
      armed (record { session_mode = session.mode; timeout = 60; noc_state = add_noc_recvd 1 });
  base = lamp;
}

abbrev code_only : ℕ → EncodeValue
code_only code = value (λ tag. Attribute.to_tlv tag (uint8 code))
