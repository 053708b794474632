-- ===== src/DataModel/NodeTests.antt =====
-- The theorems of the objects of a node at concrete inputs: one endpoint with one cluster.
use matter_rs.Base.{◌≡◌, refl, ◌↔◌, false, List, [], ◌∷◌, ◌++◌, some, none, ok}
use matter_rs.Base.Bytes.{reference_le}
use matter_rs.Base.Flags.{reference_flags}
use matter_rs.Tlv.Tag.{TagType, anonymous}
use matter_rs.Tlv.Element.{TlvElement, ElementType}
use matter_rs.Acl.Privilege.{admin}
use matter_rs.Acl.Entry.{Accessor, GenericPath, case_, new_entry, new_req}
use matter_rs.Acl.Manager.{Entries}
use matter_rs.InteractionModel.Status.{done}
use matter_rs.InteractionModel.Messages.{
  AttrData, AttrResp, AttrStatus, tlv, value, data_resp, to_gp, new_attr_path, is_wildcard,
}
use matter_rs.DataModel.Attribute.{Attribute, AttrValue, boolean}
use matter_rs.DataModel.Attribute
use matter_rs.DataModel.Cluster
use matter_rs.DataModel.Cluster.{ClusterType, Cluster, AttrDetails, basic, write_attribute_from_tlv}
use matter_rs.DataModel.Cluster.Laws.{WriteOutcome, write_attribute_from_tlv_lem}
use matter_rs.DataModel.Node.{Node}
use matter_rs.DataModel.Node.Places.{places, pass}
use matter_rs.DataModel.Node.Named.{In, IsNamed}
use matter_rs.DataModel.Node.Reached.{In-places_iff}
use matter_rs.DataModel.Node.Pointwise.{SameNode}
use matter_rs.DataModel.Reading.{AttrReadEncoder, handle_read_attr_path, data_filter_matches}
use matter_rs.DataModel.Reading.Reports.{owed, handle_read_attr_path_lem}
use matter_rs.DataModel.Reading.Allowed.{IsJustified, owed-IsJustified}
use matter_rs.DataModel.Writing.{handle_write_attr_path}
use matter_rs.DataModel.Writing.Confined.{MayChange, handle_write_attr_path-MayChange}

-- An attribute that can be read and, by an administrator, written.
abbrev switch : Attribute
switch = record { id = 0; value = boolean false; quality = 0; access = 0x0039 }

abbrev pub lamp : Cluster
lamp = record { id = 6; attributes = switch ∷ []; capacity = 8; feature_map = none; data_ver = 5 }

abbrev pub house : Node Cluster
house = some (record { clusters = lamp ∷ []; capacity = 7 }) ∷ none ∷ none ∷ []

abbrev pub concrete : GenericPath
concrete = record { endpoint = some 0; cluster = some 6; leaf = some 0 }

abbrev anything : GenericPath
anything = record { endpoint = none; cluster = none; leaf = none }

abbrev pub one_entry : Entries
one_entry = some (new_entry 1 admin case_) ∷ []

abbrev visitor : Accessor
visitor = record { fab_idx = 1; id = 7; auth_mode = case_ }

abbrev attr : AttrDetails
attr = record { attr_id = 0; list_index = none; fab_idx = 1; fab_filter = false }

abbrev pub turn_on : TlvElement
turn_on = record { tag_type = anonymous; element_type = ElementType.true_ }

abbrev log : AttrResp → List AttrResp → List AttrResp
log r rs = rs ++ r ∷ []

abbrev log_status : AttrStatus → TagType → List AttrStatus → List AttrStatus
log_status s tag rs = rs ++ s ∷ []

abbrev encoder : AttrReadEncoder (List AttrResp)
encoder = record {
  tw = [];
  data_ver = 0;
  path = concrete;
  skip_error = false;
  data_ver_filters = none;
}

abbrev pub request : AttrData
request = record {
  data_ver = some 5;
  path = record {
    tag_compression = none;
    node = none;
    endpoint = some 0;
    cluster = some 6;
    attr = some 0;
    list_index = none;
  };
  payload = tlv turn_on;
}

In-places_example :
    ((ps : List (GenericPath × Cluster)) × (places basic anything house ≡ done ps)
      × In (concrete, lamp) ps)
    ↔ IsNamed basic anything house (concrete, lamp)
In-places_example = In-places_iff basic anything house (concrete, lamp)

handle_read_attr_path_example :
    ((handle_read_attr_path log basic one_entry visitor house (encoder, attr)).0 ≡ ok tt)
    × ((handle_read_attr_path log basic one_entry visitor house (encoder, attr)).1.0.tw
        ≡ pass log
            (owed basic one_entry visitor none attr concrete (places basic concrete house))
            [])
handle_read_attr_path_example =
    handle_read_attr_path_lem log basic one_entry visitor house encoder attr

handle_write_attr_path_example :
    SameNode
      (MayChange basic one_entry visitor concrete (some 5))
      0
      house
      (handle_write_attr_path log_status basic one_entry visitor request (house, [])).1.0
unfolding to_gp
handle_write_attr_path_example =
    handle_write_attr_path-MayChange basic one_entry visitor log_status request house []

write_attribute_from_tlv_example :
    WriteOutcome 0 turn_on lamp (write_attribute_from_tlv 0 turn_on lamp)
write_attribute_from_tlv_example = write_attribute_from_tlv_lem 0 turn_on lamp

-- What a read of the switch is answered with.
abbrev reading : AttrResp
reading = data_resp (record {
  data_ver = some 5;
  path = request.path;
  payload = value (λ tag. Attribute.to_tlv tag (boolean false));
})

owed-IsJustified_example : IsJustified basic one_entry visitor none attr concrete house reading
unfolding places Cluster.read_attribute Cluster.read_error basic new_attr_path is_wildcard
    data_filter_matches new_req new_entry
owed-IsJustified_example =
    owed-IsJustified basic one_entry visitor none attr concrete house reading (0, refl)
