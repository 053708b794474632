-- ===== src/DataModel/Reading/Requests/Laws.antt =====
-- matter/src/data_model/core.rs: what a read request is answered with.
use matter_rs.Base.{
  ◌≡◌, refl, sym, ap, ◌∙◌, Bool, true, false, List, [], ◌∷◌, ◌++◌, Option, some, none, ok,
}
use matter_rs.Base.Exec.{Exec, modify, ◌>>◌, bind_then}
use matter_rs.Base.Bytes.{LittleEndian}
use matter_rs.Base.Flags.{Bitflags}
use matter_rs.WriteBuf.{WriteBuf}
use matter_rs.Tlv.Tag.{context}
use matter_rs.Tlv.Writer
use matter_rs.Acl.Entry.{Accessor, GenericPath}
use matter_rs.Acl.Manager.{Entries}
use matter_rs.InteractionModel.Status.{ImStatusCode, ImResult, done, refused, crashed}
use matter_rs.InteractionModel.Messages.{AttrPath, AttrResp, to_gp, is_wildcard, DataVersionFilter}
use matter_rs.DataModel.Cluster.{ClusterType, AttrDetails}
use matter_rs.DataModel.Node.{Node}
use matter_rs.DataModel.Node.Places.{
  pass-append, places, pass, IsFound, after_search, for_each_attribute_lem,
}
use matter_rs.DataModel.Reading.{
  AttrReadEncoder, Captured, handle_read_attr_path, sess_to_accessor, read_place, answer_error,
  encode_status,
}
use matter_rs.DataModel.Reading.Reports.{owed, handle_read_attr_path_lem, read_place_lem}
use matter_rs.DataModel.Reading.Requests.{
  ReadReq, attribute_reports, new_encoder, read_paths, encode_paths, consume_paths,
  consume_read_attr,
}
use matter_rs.Transport.Session.{Session}

module _ ⦃le : LittleEndian⦄ ⦃bf : Bitflags⦄ {T : Type 0} (methods : ClusterType T) (acl : Entries)
    (accessor : Accessor) (node : Node T) (filters : Option (List DataVersionFilter))
    (fab_filter : Bool) where
  -- What is handed to the clusters with each path.
  abbrev pub details_of : AttrPath → AttrDetails
  details_of p = record {
    attr_id = 0;
    list_index = p.list_index;
    fab_idx = accessor.fab_idx;
    fab_filter = fab_filter;
  }

  -- What a read of several paths is owed.
  abbrev pub all_owed : List AttrPath → List AttrResp
  all_owed [] = []
  all_owed (p ∷ ps) =
      owed methods acl accessor filters (details_of p) (to_gp p) (places methods (to_gp p) node)
      ++ all_owed ps

  module _ {W : Type 0} (emit : AttrResp → W → W) where
    -- The encoder has the request's filters, and the details its fabric filter.
    abbrev Fits : Captured emit → Type 0
    Fits (enc, d) = (enc.data_ver_filters ≡ filters) × (d.fab_filter ≡ fab_filter)

    pass-Fits :
        (ps : List (GenericPath × T)) (s : Captured emit)
        → Fits s
        → Fits (pass (read_place emit methods acl accessor) ps s)
    unfolding pass
    pass-Fits [] s h = h
    pass-Fits (p ∷ ps) (enc, d) h =
        let (_, like) = read_place_lem emit methods acl accessor p enc d in
        pass-Fits ps (read_place emit methods acl accessor p (enc, d))
          (like.same_filters ∙ h.0, ap (λ x. x.fab_filter) (like.same_details 0) ∙ h.1)

    status-Fits :
        (skip : Bool) (e : ImStatusCode) (enc : AttrReadEncoder W)
        → (encode_status emit e 0 (record enc { skip_error = skip })).data_ver_filters
          ≡ enc.data_ver_filters
    unfolding encode_status
    status-Fits true e enc = refl
    status-Fits false e enc = refl

    answered-Fits :
        (r : ImResult (List (GenericPath × T))) (enc : AttrReadEncoder W) (d : AttrDetails)
        → IsFound r
        → Fits (enc, d)
        → (let end =
              after_search
                (read_place emit methods acl accessor)
                r
                (record enc { skip_error = is_wildcard enc.path }, d) in
            Fits (answer_error emit end.0 end.1).1)
    answered-Fits (done ps) enc d found h =
        pass-Fits ps (record enc { skip_error = is_wildcard enc.path }, d) h
    answered-Fits (refused e) enc d found h = (status-Fits (is_wildcard enc.path) e enc ∙ h.0, h.1)
    answered-Fits crashed enc d found h = elim found [ ]

    handle-Fits :
        (s : Captured emit)
        → Fits s
        → Fits (handle_read_attr_path emit methods acl accessor node s).1
    unfolding handle_read_attr_path
    handle-Fits (enc, d) h =
        let (run, found) =
          for_each_attribute_lem methods (read_place emit methods acl accessor) enc.path node
            (record enc { skip_error = is_wildcard enc.path }, d) in
        let end = answered-Fits (places methods enc.path node) enc d found h in
        (
          ap (λ t. (answer_error emit t.0 t.1).1.0.data_ver_filters) run ∙ end.0,
          ap (λ t. (answer_error emit t.0 t.1).1.1.fab_filter) run ∙ end.1,
        )

    -- One path after the other.
    read_paths_lem :
        (ps : List AttrPath) (enc : AttrReadEncoder W) (d : AttrDetails)
        → Fits (enc, d)
        → ((read_paths emit methods acl accessor node ps (enc, d)).0 ≡ ok tt)
          × ((read_paths emit methods acl accessor node ps (enc, d)).1.0.tw
              ≡ pass emit (all_owed ps) enc.tw)
    unfolding read_paths pass
    read_paths_lem [] enc d h = (refl, refl)
    read_paths_lem (p ∷ ps) enc d h =
        let enc' = record enc { path = to_gp p } in
        let d' = record d { list_index = p.list_index; fab_idx = accessor.fab_idx } in
        let handle = handle_read_attr_path emit methods acl accessor node in
        let (done', written) = handle_read_attr_path_lem emit methods acl accessor node enc' d' in
        let next = (handle (enc', d')).1 in
        let step =
          bind_then handle (λ _. read_paths emit methods acl accessor node ps) (enc', d') tt
            done' in
        let (rest, all) = read_paths_lem ps next.0 next.1 (handle-Fits (enc', d') h) in
        let first =
          owed methods acl accessor filters (details_of p) (to_gp p)
            (places methods (to_gp p) node) in
        let right =
          ap
            (λ fs.
              pass emit (owed methods acl accessor fs d' (to_gp p) (places methods (to_gp p) node))
                enc.tw)
            h.0
          ∙ ap
              (λ b.
                pass emit
                  (owed methods acl accessor filters (record d' { fab_filter = b }) (to_gp p)
                    (places methods (to_gp p) node))
                  enc.tw)
              h.1 in
        (
          ap (λ t. t.0) step ∙ rest,
          ap (λ t. t.1.0.tw) step
              ∙ all
              ∙ ap (pass emit (all_owed ps)) (written ∙ right)
              ∙ sym (pass-append emit first (all_owed ps) enc.tw),
        )

module _ ⦃le : LittleEndian⦄ ⦃bf : Bitflags⦄ {T : Type 0} (methods : ClusterType T) (acl : Entries)
    (node : Node T) (emit : AttrResp → WriteBuf → WriteBuf) where
  -- The array of reports that a session is owed, or nothing where it asks for no attributes.
  abbrev pub owed_array : Session → ReadReq → Option (List AttrPath) → Exec WriteBuf (Unit {0})
  owed_array session req none tw = (ok tt, tw)
  owed_array session req (some ps) tw =
      (Writer.start_array (context attribute_reports)
          >> modify (
              pass emit (
                all_owed methods acl (sess_to_accessor session) node req.dataver_filters
                  req.fabric_filtered ps))
          >> Writer.end_container)
        tw

  encode_paths_lem :
      (session : Session) (req : ReadReq) (ps : List AttrPath) (tw : WriteBuf)
      → encode_paths emit methods acl node session req ps tw ≡ (
        ok tt,
        pass emit
            (all_owed methods acl
              (sess_to_accessor session)
              node
              req.dataver_filters
              req.fabric_filtered
              ps)
            tw,
      )
  unfolding encode_paths new_encoder
  encode_paths_lem session req ps tw =
      let (done', written) =
        read_paths_lem methods acl (sess_to_accessor session) node req.dataver_filters
          req.fabric_filtered emit ps (new_encoder req.dataver_filters tw)
          (record { attr_id = 0; list_index = none; fab_idx = 0; fab_filter = req.fabric_filtered })
          (refl, refl) in
      λ i. (done' i, written i)

  consume_paths_lem :
      (session : Session) (req : ReadReq) (ps : Option (List AttrPath)) (tw : WriteBuf)
      → consume_paths emit methods acl node session req ps tw ≡ owed_array session req ps tw
  unfolding consume_paths
  consume_paths_lem session req none tw = refl
  consume_paths_lem session req (some ps) tw =
      ap
        (λ (body : Exec WriteBuf (Unit {0})).
          (Writer.start_array (context attribute_reports) >> body >> Writer.end_container) tw)
        (λ i w. encode_paths_lem session req ps w i)

  -- A read request is answered with the array of exactly the reports that its paths are owed, in
  -- their order, for the accessor of the session; it fails only where the array does not begin or end
  -- for want of room. Without attribute requests nothing is written.
  pub consume_read_attr_lem :
      (session : Session) (req : ReadReq) (tw : WriteBuf)
      → consume_read_attr emit methods acl node session req tw
        ≡ owed_array session req req.attr_requests tw
  unfolding consume_read_attr
  consume_read_attr_lem session req tw = consume_paths_lem session req req.attr_requests tw
