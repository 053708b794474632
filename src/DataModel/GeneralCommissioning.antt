-- ===== src/DataModel/GeneralCommissioning.antt =====
-- matter/src/data_model/sdm/general_commissioning.rs: the commands of the cluster over the fail-safe. The
-- derived `FailSafeParams::from_tlv` is the argument `params`; what is written of a response is its
-- error code.
pub mod Laws
use matter_rs.Base.{
  ℕ, ◌==◌, Bool, true, false, if◌then◌else◌, Option, some, none, is_none, is_ok, Result, ok, err,
  panic, and_then,
}
use matter_rs.Base.Exec.{Exec, ◌>>=◌, ◌>>◌}
use matter_rs.Base.Bytes.{LittleEndian}
use matter_rs.Tlv.Element.{TlvElement, get_slice}
use matter_rs.Tlv.Parser.Container.{find_tag}
use matter_rs.InteractionModel.Status.{
  ImStatusCode, unsupported_command, invalid_command, busy, ImResult, done, refused, crashed,
  or_status, converted, im_then,
}
use matter_rs.InteractionModel.Messages.{EncodeValue}
use matter_rs.InteractionModel.Commands.{CommandReq, InvResp, cmd_new, Transaction, complete}
use matter_rs.DataModel.Attribute.{Attribute, uint8, uint64, custom, no_quality, fixed, rv}
use matter_rs.DataModel.Cluster
use matter_rs.DataModel.Cluster.{Cluster, add_attribute}
use matter_rs.DataModel.FailSafe.{State}
use matter_rs.DataModel.FailSafe
use matter_rs.DataModel.Node.Changing.{Change}
use matter_rs.Transport.Session.{get_local_fabric_idx}

abbrev pub id : ℕ
id = 0x0030

abbrev pub error_ok : ℕ
error_ok = 0

abbrev pub err_invalid_auth : ℕ
err_invalid_auth = 2

-- The numbers of the commands.
abbrev pub arm_failsafe : ℕ
arm_failsafe = 0

abbrev pub arm_failsafe_resp : ℕ
arm_failsafe_resp = 1

abbrev pub set_regulatory_config : ℕ
set_regulatory_config = 2

abbrev pub set_regulatory_config_resp : ℕ
set_regulatory_config_resp = 3

abbrev pub commissioning_complete : ℕ
commissioning_complete = 4

abbrev pub commissioning_complete_resp : ℕ
commissioning_complete_resp = 5

pub record FailSafeParams : Type 0 where
  pub expiry_len : ℕ
  pub bread_crumb : ℕ

pub record GenCommCluster : Type 0 where
  pub expiry_len : ℕ
  pub failsafe : State
  pub base : Cluster

-- The attributes that `new` adds, by number, value, access and quality.
abbrev attr_bread_crumb : Attribute
attr_bread_crumb = record { id = 0; value = uint64 0; quality = no_quality; access = 0x0038 }

-- `RegLocationType::IndoorOutdoor` is 2.
abbrev attr_reg_config : Attribute
attr_reg_config = record { id = 2; value = uint8 2; quality = no_quality; access = rv }

abbrev attr_location_capability : Attribute
attr_location_capability = record { id = 3; value = uint8 2; quality = fixed; access = rv }

abbrev attr_comm_info : Attribute
attr_comm_info = record { id = 1; value = custom; quality = fixed; access = rv }

abbrev add_attributes : Exec Cluster (Unit {0})
add_attributes =
    add_attribute attr_bread_crumb
    >> add_attribute attr_reg_config
    >> add_attribute attr_location_capability
    >> add_attribute attr_comm_info

unfoldable pub new : ℕ → ℕ → Result GenCommCluster
unfolding Cluster.new add_attribute FailSafe.new ◌>>=◌
new capacity data_ver = and_then (Cluster.new id capacity data_ver) (λ base.
    let (r, base') = add_attributes base in
    and_then r (λ _. ok (record { expiry_len = 120; failsafe = FailSafe.new; base = base' })))

module _ {W : Type 0} (emit : InvResp → W → W) (common_response : ℕ → EncodeValue) where
  -- The answer of a command, `CommonResponse` with an error code and no text; the transaction is done.
  abbrev pub respond : ℕ → ℕ → CommandReq W → CommandReq W
  respond command code req = record req {
    resp = emit (cmd_new 0 id command (common_response code)) req.resp;
    trans = complete req.trans;
  }

  -- What `arm` makes of the fail-safe, and the answer.
  abbrev pub answer_arm : Result (Unit {0}) × State → Change GenCommCluster (CommandReq W)
  answer_arm (ok a, failsafe) c req =
      (done tt, (record c { failsafe = failsafe }, respond arm_failsafe_resp error_ok req))
  answer_arm (err e, failsafe) c req = (refused busy, (record c { failsafe = failsafe }, req))
  answer_arm (panic, failsafe) c req = (crashed, (record c { failsafe = failsafe }, req))

  -- What `disarm` makes of the fail-safe, and the answer, with the status that was found before.
  abbrev pub answer_disarm : ℕ → Result (Unit {0}) × State → Change GenCommCluster (CommandReq W)
  answer_disarm status (ok a, failsafe) c req =
      (done tt, (record c { failsafe = failsafe }, respond commissioning_complete_resp status req))
  answer_disarm status (err e, failsafe) c req = (
    done tt,
    (record c { failsafe = failsafe }, respond commissioning_complete_resp err_invalid_auth req),
  )
  answer_disarm status (panic, failsafe) c req = (crashed, (record c { failsafe = failsafe }, req))

  unfoldable pub handle_command_armfailsafe :
      (TlvElement → Result FailSafeParams) → Change GenCommCluster (CommandReq W)
  unfolding FailSafe.arm cmd_new complete
  handle_command_armfailsafe params c req = elim (params req.payload) [
    | err e ↦ (converted (err e), (c, req))
    | panic ↦ (crashed, (c, req))
    | ok p ↦ answer_arm (FailSafe.arm p.expiry_len req.trans.session.mode c.failsafe) c req
  ]

  unfoldable pub handle_command_commissioningcomplete : Change GenCommCluster (CommandReq W)
  unfolding FailSafe.disarm get_local_fabric_idx cmd_new complete
  handle_command_commissioningcomplete c req =
      let session = req.trans.session in
      let status = if is_none (get_local_fabric_idx session) then err_invalid_auth else error_ok in
      answer_disarm status (FailSafe.disarm session.mode c.failsafe) c req

module _ ⦃le : LittleEndian⦄ {W : Type 0} (emit : InvResp → W → W)
    (common_response : ℕ → EncodeValue) where
  unfoldable pub handle_command_setregulatoryconfig : Change GenCommCluster (CommandReq W)
  unfolding find_tag get_slice cmd_new complete
  handle_command_setregulatoryconfig c req =
      elim (im_then (or_status invalid_command (find_tag 1 req.payload))
        (λ t. or_status invalid_command (get_slice t))) [
          | done country_code ↦
              (done tt, (c, respond emit common_response set_regulatory_config_resp 0 req))
          | refused e ↦ (refused e, (c, req))
          | crashed ↦ (crashed, (c, req))
        ]

  -- The match on the number of the command.
  abbrev pub dispatch :
      (TlvElement → Result FailSafeParams) → ℕ → Change GenCommCluster (CommandReq W)
  dispatch params command c req =
      if command == arm_failsafe
      then handle_command_armfailsafe emit common_response params c req
      else if command == set_regulatory_config
      then handle_command_setregulatoryconfig c req
      else if command == commissioning_complete
      then handle_command_commissioningcomplete emit common_response c req
      else (refused unsupported_command, (c, req))

  unfoldable pub handle_command :
      (TlvElement → Result FailSafeParams) → Change GenCommCluster (CommandReq W)
  unfolding handle_command_armfailsafe handle_command_setregulatoryconfig
      handle_command_commissioningcomplete
  handle_command params c req = elim req.cmd.leaf [
    | none ↦ (refused unsupported_command, (c, req))
    | some command ↦ dispatch params command c req
  ]
