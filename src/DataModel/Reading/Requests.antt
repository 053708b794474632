-- ===== src/DataModel/Reading/Requests.antt =====
-- matter/src/data_model/core.rs: the answer to a read request, path by path. The request's arrays are
-- the lists of what their iterators yield.
pub mod Laws
use matter_rs.Base.{
  ℕ, ◌≡◌, refl, sym, ap, ◌∙◌, Bool, true, false, List, [], ◌∷◌, ◌++◌, Option, some, none, Result,
  ok, err, panic,
}
use matter_rs.Base.Exec.{Exec, modify, ◌>>=◌, ◌>>◌}
use matter_rs.Base.Bytes.{LittleEndian}
use matter_rs.Base.Flags.{Bitflags}
use matter_rs.WriteBuf.{WriteBuf}
use matter_rs.Tlv.Tag.{context}
use matter_rs.Tlv.Writer
use matter_rs.Acl.Entry.{Accessor, GenericPath}
use matter_rs.Acl.Manager.{Entries}
use matter_rs.InteractionModel.Messages.{AttrPath, AttrResp, to_gp, DataVersionFilter}
use matter_rs.DataModel.Cluster.{ClusterType, AttrDetails}
use matter_rs.DataModel.Node.{Node}
use matter_rs.DataModel.Node.Places.{places, pass}
use matter_rs.DataModel.Reading.{
  AttrReadEncoder, Captured, handle_read_attr_path, sess_to_accessor, read_place,
}
use matter_rs.DataModel.Reading.Reports.{owed, handle_read_attr_path_lem, IsLike, read_place_lem}
use matter_rs.Transport.Session.{Session}

-- The tag of `AttributeReports`.
abbrev pub attribute_reports : ℕ
attribute_reports = 1

pub record ReadReq : Type 0 where
  pub attr_requests : Option (List AttrPath)
  pub fabric_filtered : Bool
  pub dataver_filters : Option (List DataVersionFilter)

-- `AttrReadEncoder::new`, with the filters set.
unfoldable pub new_encoder : {W : Type 0} → Option (List DataVersionFilter) → W → AttrReadEncoder W
new_encoder filters tw = record {
  tw = tw;
  data_ver = 0;
  path = record { endpoint = none; cluster = none; leaf = none };
  skip_error = false;
  data_ver_filters = filters;
}

module _ {W : Type 0} (emit : AttrResp → W → W) ⦃le : LittleEndian⦄ ⦃bf : Bitflags⦄ {T : Type 0}
    (methods : ClusterType T) (acl : Entries) (accessor : Accessor) (node : Node T) where
  -- The loop over the paths.
  unfoldable pub read_paths : List AttrPath → Exec (Captured emit) (Unit {0})
  unfolding handle_read_attr_path to_gp ◌>>=◌
  read_paths [] s = (ok tt, s)
  read_paths (p ∷ ps) (enc, details) =
      let enc' = record enc { path = to_gp p } in
      let details' = record details { list_index = p.list_index; fab_idx = accessor.fab_idx } in
      (handle_read_attr_path emit methods acl accessor node >> read_paths ps) (enc', details')

module _ (emit : AttrResp → WriteBuf → WriteBuf) ⦃le : LittleEndian⦄ ⦃bf : Bitflags⦄ {T : Type 0}
    (methods : ClusterType T) (acl : Entries) (node : Node T) where
  -- The encoder holds the writer until the loop is done.
  unfoldable pub encode_paths : Session → ReadReq → List AttrPath → Exec WriteBuf (Unit {0})
  unfolding read_paths new_encoder sess_to_accessor
  encode_paths session req ps tw =
      let details : AttrDetails = record {
        attr_id = 0;
        list_index = none;
        fab_idx = 0;
        fab_filter = req.fabric_filtered;
      } in
      let (r, (enc, _)) =
        read_paths emit methods acl (sess_to_accessor session) node ps
          (new_encoder req.dataver_filters tw, details) in
      (r, enc.tw)

  unfoldable pub consume_paths :
      Session → ReadReq → Option (List AttrPath) → Exec WriteBuf (Unit {0})
  unfolding encode_paths Writer.start_array Writer.end_container
  consume_paths session req none tw = (ok tt, tw)
  consume_paths session req (some ps) tw =
      (Writer.start_array (context attribute_reports)
          >> encode_paths session req ps
          >> Writer.end_container)
        tw

  unfoldable pub consume_read_attr : Session → ReadReq → Exec WriteBuf (Unit {0})
  unfolding consume_paths
  consume_read_attr session req = consume_paths session req req.attr_requests
