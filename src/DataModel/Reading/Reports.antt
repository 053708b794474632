-- ===== src/DataModel/Reading/Reports.antt =====
-- matter/src/data_model/core.rs: `handle_read_attr_path` and the reports that a read is owed.
use matter_rs.Base.{
  ℕ, ◌^◌, ◌%◌, ◌≡◌, refl, sym, ap, ◌∙◌, Bool, true, false, if◌then◌else◌, List, [], ◌∷◌, ◌++◌,
  Option, some, ok, Bool-cases, inl, inr,
}
use matter_rs.Base.Bytes.{LittleEndian}
use matter_rs.Base.Flags.{Bitflags}
use matter_rs.Acl.Privilege.{read}
use matter_rs.Acl.Entry.{Accessor, GenericPath, new_req}
use matter_rs.Acl.Manager.{Entries}
use matter_rs.InteractionModel.Status.{ImStatusCode, ImResult, done, refused, crashed}
use matter_rs.InteractionModel.Messages.{
  AttrResp, status_resp, data_resp, new_attr_path, new_attr_status, is_wildcard, DataVersionFilter,
}
use matter_rs.DataModel.Cluster.{
  ClusterType, AttrDetails, EncoderCall, encodes, encodes_status, run_calls, read_attribute,
}
use matter_rs.DataModel.Node.{Node}
use matter_rs.DataModel.Node.Places.{
  pass-append, pass, places, IsFound, after_search, for_each_attribute_lem,
}
use matter_rs.DataModel.Reading.{
  data_filter_matches, AttrReadEncoder, encode, encode_status, answer_error, read_encoder,
  read_place, handle_read_attr_path,
}
use matter_rs.Transport.Session.{or_zero}

-- What a call on the encoder is answered with; errors are left out where the path is a wildcard.
abbrev pub answer : Bool → GenericPath → ℕ → EncoderCall → List AttrResp
answer skip path data_ver (encodes v) =
    data_resp (record { data_ver = some data_ver; path = new_attr_path path; payload = v }) ∷ []
answer true path data_ver (encodes_status s n) = []
answer false path data_ver (encodes_status s n) = status_resp (new_attr_status path s n) ∷ []

abbrev pub answers : Bool → GenericPath → ℕ → List EncoderCall → List AttrResp
answers skip path data_ver [] = []
answers skip path data_ver (c ∷ cs) = answer skip path data_ver c ++ answers skip path data_ver cs

module _ ⦃le : LittleEndian⦄ ⦃bf : Bitflags⦄ {T : Type 0} (methods : ClusterType T) (acl : Entries)
    (accessor : Accessor) (filters : Option (List DataVersionFilter)) (details : AttrDetails) where
  -- What one place is answered with.
  abbrev pub report : Bool → GenericPath × T → List AttrResp
  report skip (path, c) =
      if data_filter_matches filters path (methods.base c).data_ver
      then []
      else answers skip path (methods.base c).data_ver (
          read_attribute methods acl c (new_req accessor path read)
            (record details { attr_id = or_zero path.leaf % 2 ^ 16 }))

  abbrev pub reports : Bool → List (GenericPath × T) → List AttrResp
  reports skip [] = []
  reports skip (p ∷ ps) = report skip p ++ reports skip ps

  -- What a read of a path is owed.
  abbrev pub owed : GenericPath → ImResult (List (GenericPath × T)) → List AttrResp
  owed path (done ps) = reports (is_wildcard path) ps
  owed path (refused status) = answer (is_wildcard path) path 0 (encodes_status status 0)
  owed path crashed = []

module _ {W : Type 0} (emit : AttrResp → W → W) where
  -- An encoder by its parts, to split on `skip_error`.
  abbrev encoder : W → ℕ → GenericPath → Bool → Option (List DataVersionFilter) → AttrReadEncoder W
  encoder w data_ver path skip filters = record {
    tw = w;
    data_ver = data_ver;
    path = path;
    skip_error = skip;
    data_ver_filters = filters;
  }

  status_answered :
      (s : ImStatusCode) (n : ℕ) (cs : List EncoderCall) (w : W) (data_ver : ℕ) (path : GenericPath)
      (skip : Bool) (filters : Option (List DataVersionFilter))
      → (let enc = encode_status emit s n (encoder w data_ver path skip filters) in
          record enc { tw = pass emit (answers enc.skip_error enc.path enc.data_ver cs) enc.tw })
        ≡ encoder
            (pass emit (answers skip path data_ver (encodes_status s n ∷ cs)) w)
            data_ver
            path
            skip
            filters
  unfolding pass encode_status
  status_answered s n cs w data_ver path true filters = refl
  status_answered s n cs w data_ver path false filters = refl

  run_calls_lem :
      (cs : List EncoderCall) (enc : AttrReadEncoder W)
      → run_calls (read_encoder emit) cs enc
        ≡ record enc { tw = pass emit (answers enc.skip_error enc.path enc.data_ver cs) enc.tw }
  unfolding run_calls pass encode
  run_calls_lem [] enc = refl
  run_calls_lem (encodes v ∷ cs) enc = run_calls_lem cs (encode emit v enc)
  run_calls_lem (encodes_status s n ∷ cs) enc =
      run_calls_lem cs (encode_status emit s n enc)
      ∙ status_answered s n cs enc.tw enc.data_ver enc.path enc.skip_error enc.data_ver_filters

  module _ ⦃le : LittleEndian⦄ ⦃bf : Bitflags⦄ {T : Type 0} (methods : ClusterType T)
      (acl : Entries) (accessor : Accessor) where
    -- What a pass leaves alone.
    pub record IsLike (enc enc' : AttrReadEncoder W) (d d' : AttrDetails) : Type 0 where
      pub same_skip : enc'.skip_error ≡ enc.skip_error
      pub same_filters : enc'.data_ver_filters ≡ enc.data_ver_filters
      pub same_details : (n : ℕ) → record d' { attr_id = n } ≡ record d { attr_id = n }

    pub read_place_lem :
        (p : GenericPath × T) (enc : AttrReadEncoder W) (d : AttrDetails)
        → ((read_place emit methods acl accessor p (enc, d)).0.tw
            ≡ pass emit
                (report methods acl accessor enc.data_ver_filters d enc.skip_error p)
                enc.tw)
          × IsLike enc
              (read_place emit methods acl accessor p (enc, d)).0
              d
              (read_place emit methods acl accessor p (enc, d)).1
    unfolding read_place pass
    read_place_lem (path, c) enc d =
        let data_ver = (methods.base c).data_ver in
        let attr = record d { attr_id = or_zero path.leaf % 2 ^ 16 } in
        let calls = read_attribute methods acl c (new_req accessor path read) attr in
        let done' = run_calls_lem calls (record enc { path = path; data_ver = data_ver }) in
        elim (Bool-cases (data_filter_matches enc.data_ver_filters path data_ver)) [
          | inl same ↦
              rw same
                (refl, record { same_skip = refl; same_filters = refl; same_details = λ n. refl })
          | inr new ↦ rw new (
            ap (λ e. e.tw) done',
            record {
              same_skip = ap (λ e. e.skip_error) done';
              same_filters = ap (λ e. e.data_ver_filters) done';
              same_details = λ n. refl;
            },
          )
        ]

    IsLike-report :
        (enc enc' : AttrReadEncoder W) (d d' : AttrDetails) (p : GenericPath × T)
        → IsLike enc enc' d d'
        → report methods acl accessor enc'.data_ver_filters d' enc'.skip_error p
          ≡ report methods acl accessor enc.data_ver_filters d enc.skip_error p
    IsLike-report enc enc' d d' (path, c) like =
        let n = or_zero path.leaf % 2 ^ 16 in
        let req = new_req accessor path read in
        let data_ver = (methods.base c).data_ver in
        ap
          (λ fs.
            if data_filter_matches fs path data_ver
            then []
            else answers enc'.skip_error path data_ver
                (read_attribute methods acl c req (record d' { attr_id = n })))
          like.same_filters
        ∙ ap
            (λ skip.
              if data_filter_matches enc.data_ver_filters path data_ver
              then []
              else answers skip path data_ver
                  (read_attribute methods acl c req (record d' { attr_id = n })))
            like.same_skip
        ∙ ap
            (λ attr.
              if data_filter_matches enc.data_ver_filters path data_ver
              then []
              else answers enc.skip_error path data_ver (read_attribute methods acl c req attr))
            (like.same_details n)

    IsLike-reports :
        (enc enc' : AttrReadEncoder W) (d d' : AttrDetails) (ps : List (GenericPath × T))
        → IsLike enc enc' d d'
        → reports methods acl accessor enc'.data_ver_filters d' enc'.skip_error ps
          ≡ reports methods acl accessor enc.data_ver_filters d enc.skip_error ps
    IsLike-reports enc enc' d d' [] like = refl
    IsLike-reports enc enc' d d' (p ∷ ps) like =
        ap (λ rs. rs ++ reports methods acl accessor enc'.data_ver_filters d' enc'.skip_error ps)
          (IsLike-report enc enc' d d' p like)
        ∙ ap (λ rs. report methods acl accessor enc.data_ver_filters d enc.skip_error p ++ rs)
            (IsLike-reports enc enc' d d' ps like)

    -- The pass over the places writes their reports.
    read_places_lem :
        (ps : List (GenericPath × T)) (enc : AttrReadEncoder W) (d : AttrDetails)
        → (pass (read_place emit methods acl accessor) ps (enc, d)).0.tw
          ≡ pass emit (reports methods acl accessor enc.data_ver_filters d enc.skip_error ps) enc.tw
    unfolding pass
    read_places_lem [] enc d = refl
    read_places_lem (p ∷ ps) enc d =
        let (enc', d') = read_place emit methods acl accessor p (enc, d) in
        let (written, like) = read_place_lem p enc d in
        let first = report methods acl accessor enc.data_ver_filters d enc.skip_error p in
        let rest = reports methods acl accessor enc.data_ver_filters d enc.skip_error ps in
        read_places_lem ps enc' d'
        ∙ ap (λ rs. pass emit rs enc'.tw) (IsLike-reports enc enc' d d' ps like)
        ∙ ap (pass emit rest) written
        ∙ sym (pass-append emit first rest enc.tw)

    answered :
        (r : ImResult (List (GenericPath × T))) (enc : AttrReadEncoder W) (details : AttrDetails)
        → IsFound r
        → (let enc' = record enc { skip_error = is_wildcard enc.path } in
            let end = after_search (read_place emit methods acl accessor) r (enc', details) in
            ((answer_error emit end.0 end.1).0 ≡ ok tt)
            × ((answer_error emit end.0 end.1).1.0.tw
                ≡ pass emit
                    (owed methods acl accessor enc.data_ver_filters details enc.path r)
                    enc.tw))
    unfolding encode_status pass
    answered (done ps) enc details h =
        (refl, read_places_lem ps (record enc { skip_error = is_wildcard enc.path }) details)
    answered (refused e) enc details h = (refl, error_answered (is_wildcard enc.path) e enc)
      where
        error_answered :
            (skip : Bool) (e : ImStatusCode) (enc : AttrReadEncoder W)
            → (encode_status emit e 0 (record enc { skip_error = skip })).tw
              ≡ pass emit (answer skip enc.path 0 (encodes_status e 0)) enc.tw
        error_answered true e enc = refl
        error_answered false e enc = refl
    answered crashed enc details h = elim h [ ]

    -- A read of any path, wildcard or not, ends without a panic, and writes exactly the reports that
    -- it is owed: for each place that the path names, in their order, what reading it is answered
    -- with, but for places whose data version the filters know; and where there is no such place, the
    -- status of the search, but for wildcards.
    pub handle_read_attr_path_lem :
        (node : Node T) (enc : AttrReadEncoder W) (details : AttrDetails)
        → ((handle_read_attr_path emit methods acl accessor node (enc, details)).0 ≡ ok tt)
          × ((handle_read_attr_path emit methods acl accessor node (enc, details)).1.0.tw
              ≡ pass emit
                  (owed methods acl accessor enc.data_ver_filters details enc.path
                    (places methods enc.path node))
                  enc.tw)
    unfolding handle_read_attr_path
    handle_read_attr_path_lem node enc details =
        let enc' = record enc { skip_error = is_wildcard enc.path } in
        let (run, found) =
          for_each_attribute_lem methods (read_place emit methods acl accessor) enc.path node
            (enc', details) in
        let (done', written) = answered (places methods enc.path node) enc details found in
        (
          ap (λ t. (answer_error emit t.0 t.1).0) run ∙ done',
          ap (λ t. (answer_error emit t.0 t.1).1.0.tw) run ∙ written,
        )
