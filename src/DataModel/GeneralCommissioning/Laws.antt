-- ===== src/DataModel/GeneralCommissioning/Laws.antt =====
-- matter/src/data_model/sdm/general_commissioning.rs: the commands and the fail-safe.
use matter_rs.Base.{ℕ, ◌≡◌}
use matter_rs.InteractionModel.Status.{done}
use matter_rs.InteractionModel.Messages.{EncodeValue}
use matter_rs.InteractionModel.Commands.{CommandReq, InvResp}
use matter_rs.DataModel.FailSafe.{State}
use matter_rs.DataModel.GeneralCommissioning.{
  GenCommCluster, respond, commissioning_complete_resp, handle_command_commissioningcomplete,
}

module _ {W : Type 0} (emit : InvResp → W → W) (common_response : ℕ → EncodeValue)
    (c : GenCommCluster) (req : CommandReq W) where
  -- The command is answered with this code, and leaves the fail-safe in this state.
  abbrev pub Answered : ℕ → State → Type 0
  Answered code failsafe = handle_command_commissioningcomplete emit common_response c req ≡ (
    done tt,
    (
      record c { failsafe = failsafe },
      respond emit common_response commissioning_complete_resp code req,
    ),
  )
