-- ===== src/DataModel/Reading/Allowed.antt =====
-- matter/src/data_model/core.rs and objects/cluster.rs: what a read may report.
use matter_rs.Base.{
  ℕ, zero, suc, ◌^◌, ◌%◌, ◌≡◌, refl, sym, subst, ◌⊎◌, inl, inr, Bool, true, false, List, [], ◌∷◌,
  Option, some, Option-cases, Bool-cases,
}
use matter_rs.Base.Bytes.{LittleEndian}
use matter_rs.Base.Flags.{Bitflags}
use matter_rs.Acl.Privilege.{read}
use matter_rs.Acl.Entry.{Accessor, AccessReq, GenericPath, new_req, set_target_perms}
use matter_rs.Acl.Manager.{Entries, allow}
use matter_rs.InteractionModel.Status.{
  ImStatusCode, success, unsupported_access, unsupported_read, ImResult, done, refused, crashed,
}
use matter_rs.InteractionModel.Messages.{
  EncodeValue, AttrData, AttrResp, status_resp, data_resp, new_attr_path, new_attr_status,
  is_wildcard, DataVersionFilter,
}
use matter_rs.DataModel.Attribute.{Attribute}
use matter_rs.DataModel.Cluster.{
  ClusterType, Cluster, AttrDetails, EncoderCall, encodes, encodes_status, get_attribute,
  read_error, read_attribute,
}
use matter_rs.DataModel.Node.{Node}
use matter_rs.DataModel.Node.Places.{places}
use matter_rs.DataModel.Node.Named.{In, In-append, IsNamed, places-IsNamed}
use matter_rs.DataModel.Reading.{data_filter_matches}
use matter_rs.DataModel.Reading.Reports.{answer, answers, report, reports, owed}
use matter_rs.Transport.Session.{or_zero}

module _ ⦃bf : Bitflags⦄ (acl : Entries) where
  -- The attribute is in the cluster, it can be read, and the list allows to read it.
  pub record MayRead (c : Cluster) (req : AccessReq) (attr_id : ℕ) : Type 0 where
    pub attribute : Attribute
    pub found : get_attribute attr_id c ≡ some attribute
    pub readable : bf.contains attribute.access read ≡ true
    pub allowed : allow (set_target_perms attribute.access req) acl ≡ true

  read_error-cases :
      (req : AccessReq) (a : Attribute)
      → ((read_error acl req a ≡ success)
          × (bf.contains a.access read ≡ true)
          × (allow (set_target_perms a.access req) acl ≡ true))
        ⊎ ((read_error acl req a ≡ unsupported_access) ⊎ (read_error acl req a ≡ unsupported_read))
  unfolding read_error
  read_error-cases req a = elim (Bool-cases (allow (set_target_perms a.access req) acl)) [
    | inl yes' ↦ elim (Bool-cases (bf.contains a.access read)) [
      | inl readable ↦ inl (rw (yes', read_error) (rw readable refl), readable, yes')
      | inr not_readable ↦ inr (inr (rw (yes', read_error) (rw not_readable refl)))
    ]
    | inr no' ↦ inr (inl (rw (no', read_error) refl))
  ]

module _ ⦃le : LittleEndian⦄ ⦃bf : Bitflags⦄ {T : Type 0} (methods : ClusterType T)
    (acl : Entries) where
  status_only : (s : ImStatusCode) (v : EncodeValue) → In (encodes v) (encodes_status s 0 ∷ []) → ⊥
  status_only s v (zero, e) = cc
  status_only s v (suc i, e) = cc

  -- A value is encoded only where it may be read.
  pub read_attribute-MayRead :
      (c : T) (req : AccessReq) (attr : AttrDetails) (v : EncodeValue)
      → In (encodes v) (read_attribute methods acl c req attr)
      → MayRead acl (methods.base c) req attr.attr_id
  unfolding read_attribute
  read_attribute-MayRead c req attr v m =
      elim (Option-cases (get_attribute attr.attr_id (methods.base c))) [
        | inl e ↦ absurd (status_only _ v (rw (e, read_attribute) at m))
        | inr (a, e) ↦ elim (read_error-cases acl req a) [
          | inl (_, readable, allowed) ↦ record {
            attribute = a;
            found = e;
            readable = readable;
            allowed = allowed;
          }
          | inr (inl r) ↦ absurd (status_only _ v (rw (e, r, read_attribute) at m))
          | inr (inr r) ↦ absurd (status_only _ v (rw (e, r, read_attribute) at m))
        ]
      ]

  module _ (accessor : Accessor) (filters : Option (List DataVersionFilter)) (details : AttrDetails)
      (path : GenericPath) (node : Node T) where
    -- A value is reported of a place that the path names, under its concrete path, where it may be
    -- read and no filter knows its version. An error is reported only where there is no wildcard.
    abbrev pub IsJustified : AttrResp → Type 0
    IsJustified (data_resp d) =
        (p : GenericPath) × (c : T) × IsNamed methods path node (p, c)
        × (d.path ≡ new_attr_path p)
        × (data_filter_matches filters p (methods.base c).data_ver ≡ false)
        × MayRead acl (methods.base c) (new_req accessor p read) (or_zero p.leaf % 2 ^ 16)
    IsJustified (status_resp s) = is_wildcard path ≡ false

    answer-origin :
        (skip : Bool) (p : GenericPath) (n : ℕ) (calls : List EncoderCall) (resp : AttrResp)
        → In resp (answers skip p n calls)
        → (call : EncoderCall) × In call calls × In resp (answer skip p n call)
    answer-origin skip p n [] resp (i, e) = absurd cc
    answer-origin skip p n (c ∷ cs) resp m =
        elim (In-append (answer skip p n c) (answers skip p n cs) resp m) [
          | inl here ↦ (c, (0, refl), here)
          | inr later ↦
              let (call, (i, at), from) = answer-origin skip p n cs resp later in
              (call, (suc i, at), from)
        ]

    status-origin :
        (skip : Bool) (p : GenericPath) (n : ℕ) (s : ImStatusCode) (k : ℕ) (resp : AttrResp)
        → skip ≡ is_wildcard path
        → In resp (answer skip p n (encodes_status s k))
        → IsJustified resp
    status-origin true p n s k resp w (i, e) = absurd cc
    status-origin false p n s k resp w (zero, e) =
        let is : status_resp (new_attr_status p s k) ≡ resp = cc e in subst IsJustified is (sym w)
    status-origin false p n s k resp w (suc i, e) = absurd cc

    report-IsJustified :
        (skip : Bool) (p : GenericPath × T) (resp : AttrResp)
        → skip ≡ is_wildcard path
        → IsNamed methods path node p
        → In resp (report methods acl accessor filters details skip p)
        → IsJustified resp
    report-IsJustified skip (p, c) resp w named m =
        elim (Bool-cases (data_filter_matches filters p (methods.base c).data_ver)) [
          | inl same ↦ absurd (nothing (rw same at m))
          | inr new ↦ by_call (answer-origin skip p _ _ resp (rw new at m)) new
        ]
      where
        nothing : In resp [] → ⊥
        nothing (i, e) = cc

        by_call :
            ((call : EncoderCall) × In call (
                read_attribute methods acl c
                  (new_req accessor p read)
                  (record details { attr_id = or_zero p.leaf % 2 ^ 16 }))
              × In resp (answer skip p (methods.base c).data_ver call))
            → data_filter_matches filters p (methods.base c).data_ver ≡ false
            → IsJustified resp
        by_call (encodes v, made, (zero, e)) new =
            let reported : AttrData = record {
              data_ver = some ((methods.base c).data_ver);
              path = new_attr_path p;
              payload = v;
            } in
            let is : data_resp reported ≡ resp = cc e in
            subst IsJustified is
              (p, c, named, refl, new, read_attribute-MayRead c (new_req accessor p read) _ v made)
        by_call (encodes v, made, (suc i, e)) new = absurd cc
        by_call (encodes_status s k, made, at) new = status-origin skip p _ s k resp w at

    reports-IsJustified :
        (skip : Bool) (ps : List (GenericPath × T)) (resp : AttrResp)
        → skip ≡ is_wildcard path
        → ((p : GenericPath × T) → In p ps → IsNamed methods path node p)
        → In resp (reports methods acl accessor filters details skip ps)
        → IsJustified resp
    reports-IsJustified skip [] resp w named (i, e) = absurd cc
    reports-IsJustified skip (p ∷ ps) resp w named m =
        elim (In-append (report methods acl accessor filters details skip p) _ resp m) [
          | inl here ↦ report-IsJustified skip p resp w (named p (0, refl)) here
          | inr later ↦ reports-IsJustified skip ps resp w (λ q (k, at). named q (suc k, at)) later
        ]

    -- Every response that a read is owed is justified.
    pub owed-IsJustified :
        (resp : AttrResp)
        → In resp (owed methods acl accessor filters details path (places methods path node))
        → IsJustified resp
    owed-IsJustified resp m = by_places (places methods path node) refl m
      where
        by_places :
            (r : ImResult (List (GenericPath × T)))
            → places methods path node ≡ r
            → In resp (owed methods acl accessor filters details path r)
            → IsJustified resp
        by_places (done ps) e m =
            reports-IsJustified (is_wildcard path) ps resp refl
              (λ p at. places-IsNamed methods path node ps p e at) m
        by_places (refused s) e m = status-origin (is_wildcard path) path 0 s 0 resp refl m
        by_places crashed e (i, at) = absurd cc
