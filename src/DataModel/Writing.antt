-- ===== src/DataModel/Writing.antt =====
-- matter/src/data_model/core.rs: the answer to a request to write what a path names. What the derive
-- macro generates to write a status is the argument `emit`.
pub mod Confined
use matter_rs.Base.{
  ℕ, ◌^◌, ◌%◌, Bool, true, false, not, ◌&&◌, if◌then◌else◌, List, Option, some, none, is_some,
  is_none, opt_eq, Result, ok, panic,
}
use matter_rs.Base.Flags.{Bitflags}
use matter_rs.Tlv.Tag.{TagType, anonymous}
use matter_rs.Tlv.Element.{TlvElement}
use matter_rs.Acl.Privilege.{write}
use matter_rs.Acl.Entry.{Accessor, GenericPath, new_req}
use matter_rs.Acl.Manager.{Entries}
use matter_rs.InteractionModel.Status.{
  ImStatusCode, success, unsupported_cluster, unsupported_attribute, data_version_mismatch,
  status_eq, ImResult, done, refused, crashed,
}
use matter_rs.InteractionModel.Messages.{
  AttrData, AttrStatus, new_attr_status, to_gp, is_wildcard, EncodeValue, tlv, closure, value,
}
use matter_rs.DataModel.Cluster.{ClusterType, AttrDetails, write_attribute}
use matter_rs.DataModel.Node.{Node}
use matter_rs.DataModel.Node.Changing.{Change, for_each_cluster_mut}
use matter_rs.Transport.Session.{or_zero}

module _ (W : Type 0) where
  pub record AttrWriteEncoder : Type 0 where
    pub tw : W
    pub tag : TagType
    pub path : GenericPath
    pub skip_error : Bool

module _ {W : Type 0} (emit : AttrStatus → TagType → W → W) where
  unfoldable pub new_encoder : W → TagType → AttrWriteEncoder W
  new_encoder tw tag = record {
    tw = tw;
    tag = tag;
    path = record { endpoint = none; cluster = none; leaf = none };
    skip_error = false;
  }

  unfoldable pub encode_status : ImStatusCode → ℕ → AttrWriteEncoder W → AttrWriteEncoder W
  unfolding new_attr_status status_eq
  encode_status status cluster_status enc =
      if enc.skip_error && not (status_eq status success)
      then enc
      else record enc { tw = emit (new_attr_status enc.path status cluster_status) enc.tag enc.tw }

  -- What the closure of `handle_write_attr_path` captures.
  abbrev pub Captured : Type 0
  Captured = AttrWriteEncoder W × AttrDetails

  -- The status of the write is encoded, and the loop goes on.
  abbrev pub answer_write : ImResult (Unit {0}) → Captured → ImResult (Unit {0}) × Captured
  answer_write (done a) (enc, attr) = (done tt, (encode_status success 0 enc, attr))
  answer_write (refused e) (enc, attr) = (done tt, (encode_status e 0 enc, attr))
  answer_write crashed s = (crashed, s)

  -- `if let Err(e) = result`.
  abbrev pub answer_error : ImResult (Unit {0}) → Captured → Result (Unit {0}) × W
  answer_error (done a) (enc, attr) = (ok tt, enc.tw)
  answer_error (refused e) (enc, attr) = (ok tt, (encode_status e 0 enc).tw)
  answer_error crashed (enc, attr) = (panic, enc.tw)

  module _ ⦃bf : Bitflags⦄ {T : Type 0} (methods : ClusterType T) (acl : Entries)
      (accessor : Accessor) where
    -- The closure of `handle_write_attr_path`.
    unfoldable pub write_place : Option ℕ → TlvElement → GenericPath → Change T Captured
    unfolding new_req write_attribute encode_status
    write_place data_ver t path c (enc, attr) =
        let attr' = record attr { attr_id = or_zero path.leaf % 2 ^ 16 } in
        let (r, c') = write_attribute methods acl (new_req accessor path write) t attr' c in
        let (r', s') = answer_write r (record enc { path = path }, attr') in
        if is_some data_ver && not (opt_eq (some ((methods.base c).data_ver)) data_ver)
        then (done tt, (c, (encode_status data_version_mismatch 0 enc, attr)))
        else (r', (c', s'))

    -- `handle_write_attr_path` behind its early returns.
    unfoldable pub write_places :
        AttrData → TlvElement → AttrWriteEncoder W → Node T → Result (Unit {0}) × (Node T × W)
    unfolding for_each_cluster_mut write_place to_gp is_wildcard
    write_places req t enc node =
        let path = to_gp req.path in
        let enc' = if is_wildcard path then record enc { skip_error = true } else enc in
        let attr : AttrDetails = record {
          attr_id = 0;
          list_index = req.path.list_index;
          fab_filter = false;
          fab_idx = accessor.fab_idx;
        } in
        let (r, (node', s)) =
          for_each_cluster_mut methods (write_place req.data_ver t) path node (enc', attr) in
        let (r', tw') = answer_error r s in (r', (node', tw'))

    -- `match &attr_data.data`.
    unfoldable pub write_payload :
        AttrData → AttrWriteEncoder W → Node T → EncodeValue → Result (Unit {0}) × (Node T × W)
    unfolding write_places
    write_payload req enc node (closure f) = (ok tt, (node, enc.tw))
    write_payload req enc node (value v) = (ok tt, (node, enc.tw))
    write_payload req enc node (tlv t) = write_places req t enc node

    unfoldable pub handle_write_attr_path : AttrData → Node T × W → Result (Unit {0}) × (Node T × W)
    unfolding write_payload new_encoder encode_status to_gp
    handle_write_attr_path req (node, tw) =
        let enc = record (new_encoder tw anonymous) { path = to_gp req.path } in
        if is_none req.path.cluster
        then (ok tt, (node, (encode_status unsupported_cluster 0 enc).tw))
        else if is_none req.path.attr
        then (ok tt, (node, (encode_status unsupported_attribute 0 enc).tw))
        else write_payload req enc node req.payload
