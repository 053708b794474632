-- ===== src/DataModel/Cluster.antt =====
-- matter/src/data_model/objects/cluster.rs and encoder.rs: the base of a cluster, the methods that
-- a cluster type has, and the reading and writing of one attribute. The capacity of the vector, which
-- is what the allocator gave, and the random data version are arguments of `new`.
pub mod Laws
use matter_rs.Base.{
  ℕ, ◌+◌, ◌^◌, ◌%◌, ◌==◌, Bool, true, false, not, ltb, if◌then◌else◌, List, [], ◌∷◌, ◌++◌, length,
  get_elem?, set, Option, some, none, is_none, Result, ok, err, panic, and_then, Error, invalid,
  no_space, attribute_not_found,
}
use matter_rs.Base.Exec.{Exec, ◌>>=◌, ◌>>◌}
use matter_rs.Base.Search.{position}
use matter_rs.Base.Bytes.{LittleEndian}
use matter_rs.Base.Flags.{Bitflags}
use matter_rs.WriteBuf.{WriteBuf}
use matter_rs.Tlv.Tag.{TagType, anonymous}
use matter_rs.Tlv.Writer
use matter_rs.Tlv.Element.{TlvElement}
use matter_rs.Acl.Privilege.{read, write}
use matter_rs.Acl.Entry.{AccessReq, set_target_perms}
use matter_rs.Acl.Manager.{Entries, allow}
use matter_rs.InteractionModel.Status.{
  ImStatusCode, success, failure, unsupported_access, unsupported_attribute, unsupported_command,
  unsupported_read, unsupported_write, ImResult, done, refused, crashed, ImExec, converted,
  or_status, im_then,
}
use matter_rs.InteractionModel.Messages.{EncodeValue, closure, value}
use matter_rs.DataModel.Attribute.{
  Attribute, AttrValue, uint32, custom, is_custom, no_quality, rv, is_system_attr, update_from_tlv,
}
use matter_rs.DataModel.Attribute

abbrev pub attrs_per_cluster : ℕ
attrs_per_cluster = 8

abbrev pub feature_map_id : ℕ
feature_map_id = 0xfffc

abbrev pub attribute_list_id : ℕ
attribute_list_id = 0xfffb

-- `Nullable<u16>` is an `Option`.
pub record AttrDetails : Type 0 where
  pub attr_id : ℕ
  pub list_index : Option (Option ℕ)
  pub fab_idx : ℕ
  pub fab_filter : Bool

pub record Cluster : Type 0 where
  pub id : ℕ
  pub attributes : List Attribute
  pub capacity : ℕ
  pub feature_map : Option ℕ
  pub data_ver : ℕ

unfoldable pub add_attribute : Attribute → Exec Cluster (Unit {0})
add_attribute attr c =
    if ltb (length c.attributes) c.capacity
    then (ok tt, record c { attributes = c.attributes ++ attr ∷ [] })
    else (err no_space, c)

unfoldable pub add_default_attributes : Exec Cluster (Unit {0})
unfolding add_attribute Attribute.new
add_default_attributes = add_attribute (Attribute.new attribute_list_id custom rv no_quality)

unfoldable pub new : ℕ → ℕ → ℕ → Result Cluster
unfolding add_default_attributes
new id capacity data_ver =
    let (r, c) = add_default_attributes (record {
      id = id;
      attributes = [];
      capacity = capacity;
      feature_map = none;
      data_ver = data_ver;
    }) in
    and_then r (λ _. ok c)

-- `get_attribute_index`.
unfoldable pub attribute_index : ℕ → List Attribute → Option ℕ
unfolding position
attribute_index attr_id attributes = position (λ a. a.id == attr_id) attributes

-- The element at an index that `position` found.
abbrev pub at_index {ℓ} : {A : Type ℓ} → List A → Option ℕ → Option A
at_index xs none = none
at_index xs (some i) = get_elem? xs i

unfoldable pub get_attribute : ℕ → Cluster → Option Attribute
unfolding attribute_index
get_attribute attr_id c = at_index c.attributes (attribute_index attr_id c.attributes)

-- One element, where there is an index, and whether the path is a wildcard.
abbrev pub wildcard_at {ℓ} :
    {A : Type ℓ} → ImStatusCode → List A → Option ℕ → ImResult (List A × Bool)
wildcard_at status xs none = refused status
wildcard_at status xs (some i) = elim (get_elem? xs i) [
  | none ↦ crashed
  | some x ↦ done (x ∷ [], false)
]

unfoldable pub get_wildcard_attribute : Option ℕ → Cluster → ImResult (List Attribute × Bool)
unfolding attribute_index
get_wildcard_attribute none c = done (c.attributes, true)
get_wildcard_attribute (some a) c =
    wildcard_at unsupported_attribute c.attributes (attribute_index a c.attributes)

unfoldable pub cluster_changed : Cluster → Cluster
cluster_changed c = record c { data_ver = (c.data_ver + 1) % 2 ^ 32 }

unfoldable pub read_attribute_raw : ℕ → Cluster → ImResult AttrValue
unfolding get_attribute
read_attribute_raw attr_id c = elim (get_attribute attr_id c) [
  | none ↦ refused unsupported_attribute
  | some a ↦ done a.value
]

module _ ⦃bf : Bitflags⦄ where
  -- `set_value` on the attribute at an index, and `cluster_changed` where it succeeds.
  abbrev pub set_at : ℕ → Attribute → AttrValue → Exec Cluster (Unit {0})
  set_at i a v c =
      let (r, a') = Attribute.set_value v a in
      elim r [
        | ok _ ↦ (ok tt, cluster_changed (record c { attributes = set c.attributes i a' }))
        | err e ↦ (err e, c)
        | panic ↦ (panic, c)
      ]

  unfoldable pub write_attribute_raw : ℕ → AttrValue → Exec Cluster (Unit {0})
  unfolding attribute_index Attribute.set_value cluster_changed
  write_attribute_raw attr_id v c = elim (attribute_index attr_id c.attributes) [
    | none ↦ (err attribute_not_found, c)
    | some i ↦ elim (get_elem? c.attributes i) [ none ↦ (panic, c) | some a ↦ set_at i a v c ]
  ]

  unfoldable pub set_feature_map : ℕ → Exec Cluster (Unit {0})
  unfolding add_attribute write_attribute_raw Attribute.new
  set_feature_map map c =
      let added = add_attribute (Attribute.new feature_map_id (uint32 map) rv no_quality) c in
      let written = write_attribute_raw feature_map_id (uint32 map) c in
      let (r, c') = if is_none c.feature_map then added else written in
      elim r [
        | ok _ ↦ (ok tt, record c' { feature_map = some map })
        | err e ↦ (err (if is_none c.feature_map then e else invalid), c')
        | panic ↦ (panic, c')
      ]

  -- The new value on the attribute at an index.
  abbrev pub update_at : ℕ → Attribute → TlvElement → ImExec Cluster (Unit {0})
  update_at i a t c =
      if not (is_custom a.value)
      then (elim (update_from_tlv t a.value) [
        | ok v ↦ let (r, c') = set_at i a v c in (or_status unsupported_write r, c')
        | err e ↦ (refused failure, c)
        | panic ↦ (crashed, c)
      ])
      else (refused unsupported_attribute, c)

  unfoldable pub write_attribute_from_tlv : ℕ → TlvElement → ImExec Cluster (Unit {0})
  unfolding attribute_index Attribute.set_value update_from_tlv cluster_changed
  write_attribute_from_tlv attr_id t c = elim (attribute_index attr_id c.attributes) [
    | none ↦ (converted (err attribute_not_found), c)
    | some i ↦ elim (get_elem? c.attributes i) [ none ↦ (crashed, c) | some a ↦ update_at i a t c ]
  ]

-- `dyn Encoder`, over the state that it encodes into.
pub record Encoder (O : Type 0) : Type 0 where
  pub encode : EncodeValue → O → O
  pub encode_status : ImStatusCode → ℕ → O → O

-- A call on an encoder. A method that is given an encoder makes a sequence of these.
pub data EncoderCall : Type 0 where
  encodes : EncodeValue → EncoderCall
  encodes_status : ImStatusCode → ℕ → EncoderCall

unfoldable pub run_calls : {O : Type 0} → Encoder O → List EncoderCall → O → O
run_calls enc [] o = o
run_calls enc (encodes v ∷ cs) o = run_calls enc cs (enc.encode v o)
run_calls enc (encodes_status s n ∷ cs) o = run_calls enc cs (enc.encode_status s n o)

-- `dyn ClusterType`, over the state of the cluster. A command's answer is its result alone: what it
-- writes and does elsewhere is not looked at here.
pub record ClusterType (T : Type 0) : Type 0 where
  pub base : T → Cluster
  pub read_custom_attribute : AttrDetails → T → List EncoderCall
  pub write_attribute : AttrDetails → TlvElement → ImExec T (Unit {0})

module _ ⦃bf : Bitflags⦄ where
  -- The methods of the trait that a cluster need not define, on a cluster that is its base alone.
  unfoldable pub basic : ClusterType Cluster
  unfolding write_attribute_from_tlv
  basic = record {
    base = λ c. c;
    read_custom_attribute = λ attr c. [];
    write_attribute = λ attr t c. write_attribute_from_tlv attr.attr_id t c;
  }

module _ ⦃le : LittleEndian⦄ where
  -- The loop of `encode_attribute_ids`: what fails is left out.
  unfoldable pub encode_ids : List Attribute → WriteBuf → WriteBuf
  unfolding Writer.u16
  encode_ids [] w = w
  encode_ids (a ∷ as') w = encode_ids as' (Writer.u16 anonymous a.id w).1

  unfoldable pub encode_attribute_ids : TagType → Cluster → WriteBuf → WriteBuf
  unfolding encode_ids Writer.start_array Writer.end_container
  encode_attribute_ids tag c w =
      (Writer.end_container (encode_ids c.attributes (Writer.start_array tag w).1)).1

  unfoldable pub read_system_attribute : Attribute → Cluster → EncoderCall
  unfolding encode_attribute_ids Writer.u32
  read_system_attribute attr c =
      if attr.id == attribute_list_id
      then encodes (closure (λ tag w. encode_attribute_ids tag c w))
      else if attr.id == feature_map_id
      then encodes (value (λ tag. Writer.u32 tag (elim c.feature_map [ some m ↦ m | none ↦ 0 ])))
      else encodes_status unsupported_attribute 0

module _ ⦃bf : Bitflags⦄ (acl : Entries) where
  -- Why an attribute may not be read.
  unfoldable pub read_error : AccessReq → Attribute → ImStatusCode
  unfolding allow set_target_perms
  read_error req a =
      if not (allow (set_target_perms a.access req) acl)
      then unsupported_access
      else if not (bf.contains a.access read)
      then unsupported_read
      else success

module _ ⦃le : LittleEndian⦄ ⦃bf : Bitflags⦄ {T : Type 0} (methods : ClusterType T)
    (acl : Entries) where
  -- The calls that `read_attribute` makes on the encoder.
  unfoldable pub read_attribute : T → AccessReq → AttrDetails → List EncoderCall
  unfolding get_attribute read_error read_system_attribute is_system_attr Attribute.to_tlv
  read_attribute c req attr = elim (get_attribute attr.attr_id (methods.base c)) [
    | none ↦ encodes_status unsupported_attribute 0 ∷ []
    | some a ↦ elim (read_error acl req a) [
      | success ↦
          if is_system_attr attr.attr_id
          then read_system_attribute a (methods.base c) ∷ []
          else if not (is_custom a.value)
          then encodes (value (λ tag. Attribute.to_tlv tag a.value)) ∷ []
          else methods.read_custom_attribute attr c
      | other ↦ encodes_status other 0 ∷ []
    ]
  ]

module _ ⦃bf : Bitflags⦄ {T : Type 0} (methods : ClusterType T) (acl : Entries) where
  unfoldable pub write_attribute : AccessReq → TlvElement → AttrDetails → ImExec T (Unit {0})
  unfolding get_attribute allow set_target_perms
  write_attribute req t attr c = elim (get_attribute attr.attr_id (methods.base c)) [
    | none ↦ (refused unsupported_attribute, c)
    | some a ↦
        if not (bf.contains a.access write)
        then (refused unsupported_write, c)
        else if not (allow (set_target_perms a.access req) acl)
        then (refused unsupported_access, c)
        else methods.write_attribute attr t c
  ]
