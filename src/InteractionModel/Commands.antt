-- ===== src/InteractionModel/Commands.antt =====
-- matter/src/interaction_model/messages.rs, mod.rs, core.rs and command.rs: commands, their answers, and
-- the transaction that they are part of. What a transaction keeps in `data` is opaque, and left out.
use matter_rs.Base.{
  ℕ, Bool, true, false, Option, some, none, Result, ok, err, panic, command_not_found,
}
use matter_rs.Tlv.Element.{TlvElement}
use matter_rs.Acl.Entry.{GenericPath}
use matter_rs.InteractionModel.Status.{ImStatusCode}
use matter_rs.InteractionModel.Messages.{EncodeValue, Status}
use matter_rs.Transport.Session.{Session}

pub data TransactionState : Type 0 where
  ongoing complete_ : TransactionState

pub record Transaction : Type 0 where
  pub state : TransactionState
  pub session : Session

unfoldable pub new_transaction : Session → Transaction
new_transaction session = record { state = ongoing; session = session }

unfoldable pub complete : Transaction → Transaction
complete t = record t { state = complete_ }

unfoldable pub is_complete : Transaction → Bool
is_complete t = elim t.state [ ongoing ↦ false | complete_ ↦ true ]

-- `CmdPath` holds a generic path and nothing else.
abbrev pub CmdPath : Type 0
CmdPath = GenericPath

unfoldable pub new_cmd_path : Option ℕ → Option ℕ → Option ℕ → CmdPath
new_cmd_path endpoint cluster command = record {
  endpoint = endpoint;
  cluster = cluster;
  leaf = command;
}

-- `CmdPath::from_tlv`, from what the derived `GenericPath::from_tlv` answers.
unfoldable pub cmd_path_of : Result GenericPath → Result CmdPath
cmd_path_of (ok path) = elim path.leaf [ none ↦ err command_not_found | some l ↦ ok path ]
cmd_path_of (err e) = err e
cmd_path_of panic = panic

pub record CmdStatus : Type 0 where
  pub path : CmdPath
  pub status : Status

pub record CmdData : Type 0 where
  pub path : CmdPath
  pub payload : EncodeValue

pub data InvResp : Type 0 where
  cmd : CmdData → InvResp
  cmd_status : CmdStatus → InvResp

unfoldable pub cmd_new : ℕ → ℕ → ℕ → EncodeValue → InvResp
unfolding new_cmd_path
cmd_new endpoint cluster command v =
    cmd (record { path = new_cmd_path (some endpoint) (some cluster) (some command); payload = v })

unfoldable pub status_new : CmdPath → ImStatusCode → ℕ → InvResp
status_new path status cluster_status =
    cmd_status
      (record { path = path; status = record { status = status; cluster_status = cluster_status } })

module _ (W : Type 0) where
  pub record CommandReq : Type 0 where
    pub cmd : CmdPath
    pub payload : TlvElement
    pub resp : W
    pub trans : Transaction
