-- ===== src/DataModel/Reading.antt =====
-- matter/src/data_model/core.rs: the answer to a request to read what a path names. What the derive
-- macro generates to write a response is the argument `emit`; the lock around the node is never
-- poisoned.
pub mod Reports
pub mod Allowed
pub mod Requests
use matter_rs.Base.{
  ℕ, ◌^◌, ◌%◌, ◌==◌, Bool, true, false, ◌&&◌, if◌then◌else◌, List, [], ◌∷◌, Option, some, none,
  opt_eq, Result, ok, panic,
}
use matter_rs.Base.Bytes.{LittleEndian}
use matter_rs.Base.Flags.{Bitflags}
use matter_rs.Acl.Privilege.{read}
use matter_rs.Acl.Entry.{Accessor, GenericPath, pase, case_, invalid_mode, new_req}
use matter_rs.Acl.Entry
use matter_rs.Acl.Manager.{Entries}
use matter_rs.InteractionModel.Status.{ImStatusCode, ImResult, done, refused, crashed, ImExec}
use matter_rs.InteractionModel.Messages.{
  EncodeValue, AttrResp, status_resp, data_resp, new_attr_path, new_attr_status, is_wildcard,
  DataVersionFilter,
}
use matter_rs.DataModel.Cluster.{ClusterType, AttrDetails, Encoder, run_calls, read_attribute}
use matter_rs.DataModel.Node.{Node, for_each_attribute}
use matter_rs.Transport.SessionMode.{SessionMode, case_mode, plain_text}
use matter_rs.Transport.SessionMode
use matter_rs.Transport.Session.{Session, or_zero}

-- The accessor's handle of the list is the list that the checks are called on.
unfoldable pub sess_to_accessor : Session → Accessor
sess_to_accessor s = elim s.mode [
  | case_mode c ↦ record { fab_idx = c; id = or_zero s.peer_nodeid; auth_mode = case_ }
  | SessionMode.pase ↦ record { fab_idx = 0; id = 1; auth_mode = pase }
  | plain_text ↦ record { fab_idx = 0; id = 1; auth_mode = invalid_mode }
]

-- The test of one filter.
abbrev pub filter_matches : GenericPath → ℕ → DataVersionFilter → Bool
filter_matches path data_ver filter =
    opt_eq (some filter.path.endpoint) path.endpoint
    && opt_eq (some filter.path.cluster) path.cluster
    && filter.data_ver == data_ver

-- The loop of `data_filter_matches`.
unfoldable pub any_matches : GenericPath → ℕ → List DataVersionFilter → Bool
any_matches path data_ver [] = false
any_matches path data_ver (f ∷ fs) =
    if filter_matches path data_ver f then true else any_matches path data_ver fs

unfoldable pub data_filter_matches : Option (List DataVersionFilter) → GenericPath → ℕ → Bool
unfolding any_matches
data_filter_matches none path data_ver = false
data_filter_matches (some fs) path data_ver = any_matches path data_ver fs

module _ (W : Type 0) where
  pub record AttrReadEncoder : Type 0 where
    pub tw : W
    pub data_ver : ℕ
    pub path : GenericPath
    pub skip_error : Bool
    pub data_ver_filters : Option (List DataVersionFilter)

module _ {W : Type 0} (emit : AttrResp → W → W) where
  unfoldable pub encode : EncodeValue → AttrReadEncoder W → AttrReadEncoder W
  unfolding new_attr_path
  encode v enc =
      let resp =
        data_resp
          (record { data_ver = some enc.data_ver; path = new_attr_path enc.path; payload = v }) in
      record enc { tw = emit resp enc.tw }

  unfoldable pub encode_status : ImStatusCode → ℕ → AttrReadEncoder W → AttrReadEncoder W
  unfolding new_attr_status
  encode_status status cluster_status enc = if enc.skip_error then enc else record enc {
    tw = emit (status_resp (new_attr_status enc.path status cluster_status)) enc.tw;
  }

  abbrev pub read_encoder : Encoder (AttrReadEncoder W)
  read_encoder = record { encode = encode; encode_status = encode_status }

  -- What the closure of `handle_read_attr_path` captures.
  abbrev pub Captured : Type 0
  Captured = AttrReadEncoder W × AttrDetails

  -- `if let Err(e) = result`.
  abbrev pub answer_error : ImResult (Unit {0}) → Captured → Result (Unit {0}) × Captured
  answer_error (done a) s = (ok tt, s)
  answer_error (refused e) (enc, details) = (ok tt, (encode_status e 0 enc, details))
  answer_error crashed s = (panic, s)

  module _ ⦃le : LittleEndian⦄ ⦃bf : Bitflags⦄ {T : Type 0} (methods : ClusterType T)
      (acl : Entries) (accessor : Accessor) where
    unfoldable pub read_place : GenericPath × T → Captured → Captured
    unfolding data_filter_matches new_req read_attribute run_calls
    read_place (path, c) (enc, details) =
        let data_ver = (methods.base c).data_ver in
        let attr = record details { attr_id = or_zero path.leaf % 2 ^ 16 } in
        let calls = read_attribute methods acl c (new_req accessor path read) attr in
        let enc' = record enc { path = path; data_ver = data_ver } in
        if data_filter_matches enc.data_ver_filters path data_ver
        then (enc, details)
        else (run_calls read_encoder calls enc', attr)

    unfoldable pub handle_read_attr_path : Node T → Captured → Result (Unit {0}) × Captured
    unfolding for_each_attribute read_place is_wildcard encode_status
    handle_read_attr_path node (enc, details) =
        let enc' = record enc { skip_error = is_wildcard enc.path } in
        let (r, s) =
          for_each_attribute methods enc.path (λ path c s. (done tt, read_place (path, c) s)) node
            (enc', details) in
        answer_error r s
