-- ===== src/InteractionModel/Messages.antt =====
-- matter/src/interaction_model/messages.rs and data_model/objects/encoder.rs: paths, and what reads
-- and writes are answered with. The TLV form of these types is generated by the derive macro.
use matter_rs.Base.{
  ℕ, ◌%◌, ◌^◌, Bool, true, false, Option, some, none, Result, ok, err, panic, invalid,
}
use matter_rs.Base.Exec.{Exec}
use matter_rs.WriteBuf.{WriteBuf}
use matter_rs.Tlv.Tag.{TagType}
use matter_rs.Tlv.Element.{TlvElement}
use matter_rs.Acl.Entry.{GenericPath}
use matter_rs.InteractionModel.Status.{ImStatusCode}

unfoldable pub not_wildcard : GenericPath → Result (ℕ × ℕ × ℕ)
not_wildcard path = elim path.endpoint [
  | none ↦ err invalid
  | some e ↦ elim path.cluster [
    | none ↦ err invalid
    | some c ↦ elim path.leaf [ none ↦ err invalid | some l ↦ ok (e, c, l) ]
  ]
]

unfoldable pub is_wildcard : GenericPath → Bool
is_wildcard path = elim path.endpoint [
  | none ↦ true
  | some e ↦ elim path.cluster [
    | none ↦ true
    | some c ↦ elim path.leaf [ none ↦ true | some l ↦ false ]
  ]
]

-- A generator, an element that was received, or a value that can be written (`dyn ToTLV`).
pub data EncodeValue : Type 0 where
  closure : (TagType → WriteBuf → WriteBuf) → EncodeValue
  tlv : TlvElement → EncodeValue
  value : (TagType → Exec WriteBuf (Unit {0})) → EncodeValue

unfoldable pub unwrap_tlv : EncodeValue → Option TlvElement
unwrap_tlv (closure f) = none
unwrap_tlv (tlv t) = some t
unwrap_tlv (value v) = none

-- `to_tlv` of an `EncodeValue`.
unfoldable pub value_to_tlv : TagType → EncodeValue → Exec WriteBuf (Unit {0})
value_to_tlv tag (closure f) w = (ok tt, f tag w)
value_to_tlv tag (tlv t) w = (panic, w)
value_to_tlv tag (value v) w = v tag w

-- `Nullable<u16>` is an `Option`.
pub record AttrPath : Type 0 where
  pub tag_compression : Option Bool
  pub node : Option ℕ
  pub endpoint : Option ℕ
  pub cluster : Option ℕ
  pub attr : Option ℕ
  pub list_index : Option (Option ℕ)

-- `leaf.map(|x| x as u16)`.
abbrev pub as_u16 : Option ℕ → Option ℕ
as_u16 none = none
as_u16 (some x) = some (x % 2 ^ 16)

unfoldable pub new_attr_path : GenericPath → AttrPath
new_attr_path path = record {
  tag_compression = none;
  node = none;
  endpoint = path.endpoint;
  cluster = path.cluster;
  attr = as_u16 path.leaf;
  list_index = none;
}

unfoldable pub to_gp : AttrPath → GenericPath
to_gp p = record { endpoint = p.endpoint; cluster = p.cluster; leaf = p.attr }

pub record Status : Type 0 where
  pub status : ImStatusCode
  pub cluster_status : ℕ

pub record AttrStatus : Type 0 where
  pub path : AttrPath
  pub status : Status

unfoldable pub new_attr_status : GenericPath → ImStatusCode → ℕ → AttrStatus
unfolding new_attr_path
new_attr_status path status cluster_status = record {
  path = new_attr_path path;
  status = record { status = status; cluster_status = cluster_status };
}

pub record AttrData : Type 0 where
  pub data_ver : Option ℕ
  pub path : AttrPath
  pub payload : EncodeValue

pub data AttrResp : Type 0 where
  status_resp : AttrStatus → AttrResp
  data_resp : AttrData → AttrResp

pub record ClusterPath : Type 0 where
  pub node : Option ℕ
  pub endpoint : ℕ
  pub cluster : ℕ

pub record DataVersionFilter : Type 0 where
  pub path : ClusterPath
  pub data_ver : ℕ
