-- ===== src/DataModel/Commands.antt =====
-- matter/src/data_model/core.rs: commands, on what their path names. What the derive macro generates to
-- write an answer is the argument `emit`; `handle_command` is the method of the cluster type.
pub mod Laws
use matter_rs.Base.{
  Bool, true, false, not, ◌&&◌, if◌then◌else◌, List, [], ◌∷◌, Option, some, none, Result, ok, panic,
}
use matter_rs.Acl.Entry.{GenericPath}
use matter_rs.InteractionModel.Status.{
  ImStatusCode, unsupported_command, status_eq, ImResult, done, refused, crashed,
}
use matter_rs.InteractionModel.Messages.{EncodeValue, unwrap_tlv, is_wildcard}
use matter_rs.InteractionModel.Commands.{CmdData, CommandReq, Transaction, InvResp, status_new}
use matter_rs.DataModel.Cluster.{ClusterType}
use matter_rs.DataModel.Node.{Node}
use matter_rs.DataModel.Node.Changing.{Change, for_each_cluster_mut}

module _ {W : Type 0} (emit : InvResp → W → W) where
  -- The status of a command, written as its answer.
  unfoldable pub answer_status : ImStatusCode → CommandReq W → CommandReq W
  unfolding status_new
  answer_status e req = record req { resp = emit (status_new req.cmd e 0) req.resp }

  -- An error of a cluster is answered, but for a command that a wildcard need not find.
  abbrev pub answer_command :
      Bool → ImResult (Unit {0}) → CommandReq W → ImResult (Unit {0}) × CommandReq W
  answer_command wildcard (done a) req = (done tt, req)
  answer_command wildcard (refused e) req =
      (done tt, if wildcard && status_eq e unsupported_command then req else answer_status e req)
  answer_command wildcard crashed req = (crashed, req)

  abbrev pub answer_missing :
      Bool → ImResult (Unit {0}) → CommandReq W → Result (Unit {0}) × CommandReq W
  answer_missing wildcard (done a) req = (ok tt, req)
  answer_missing wildcard (refused e) req =
      (ok tt, if not wildcard then answer_status e req else req)
  answer_missing wildcard crashed req = (panic, req)

  module _ {T : Type 0} (methods : ClusterType T) (handle_command : Change T (CommandReq W)) where
    -- The closure of `handle_command_path`.
    unfoldable pub run_command : Bool → GenericPath → Change T (CommandReq W)
    run_command wildcard path c req =
        let (r, (c', req')) = handle_command c (record req { cmd = path }) in
        let (r', req'') = answer_command wildcard r req' in (r', (c', req''))

    unfoldable pub handle_command_path :
        CommandReq W → Node T → Result (Unit {0}) × (Node T × CommandReq W)
    unfolding run_command for_each_cluster_mut is_wildcard answer_status status_eq
    handle_command_path req node =
        let wildcard = is_wildcard req.cmd in
        let (r, (node', req')) =
          for_each_cluster_mut methods (run_command wildcard) req.cmd node req in
        let (r', req'') = answer_missing wildcard r req' in (r', (node', req''))
