-- ===== src/DataModel/Writing/Confined.antt =====
-- matter/src/data_model/core.rs and objects/cluster.rs: what a write may change.
use matter_rs.Base.{
  ℕ, ◌^◌, ◌%◌, ◌≡◌, refl, ◌⊎◌, inl, inr, true, false, not, ◌&&◌, is_some, is_none, opt_eq, Option,
  some, none, Option-cases, Bool-cases,
}
use matter_rs.Base.Flags.{Bitflags}
use matter_rs.Tlv.Tag.{TagType}
use matter_rs.Tlv.Element.{TlvElement}
use matter_rs.Acl.Privilege.{write}
use matter_rs.Acl.Entry.{Accessor, AccessReq, GenericPath, new_req, set_target_perms}
use matter_rs.Acl.Manager.{Entries, allow}
use matter_rs.InteractionModel.Messages.{
  AttrData, AttrStatus, EncodeValue, tlv, closure, value, to_gp,
}
use matter_rs.DataModel.Attribute.{Attribute}
use matter_rs.DataModel.Cluster.{ClusterType, Cluster, AttrDetails, get_attribute, write_attribute}
use matter_rs.DataModel.Node.{Node}
use matter_rs.DataModel.Node.Named.{Covers}
use matter_rs.DataModel.Node.Pointwise.{SameNode, SameNode-refl, for_each_cluster_mut-SameNode}
use matter_rs.DataModel.Writing.{
  AttrWriteEncoder, Captured, write_place, write_places, write_payload, handle_write_attr_path,
}
use matter_rs.Transport.Session.{or_zero}

module _ ⦃bf : Bitflags⦄ (acl : Entries) where
  -- The attribute is in the cluster, it can be written, and the list allows to write it.
  pub record MayWrite (c : Cluster) (req : AccessReq) (attr_id : ℕ) : Type 0 where
    pub attribute : Attribute
    pub found : get_attribute attr_id c ≡ some attribute
    pub writable : bf.contains attribute.access write ≡ true
    pub allowed : allow (set_target_perms attribute.access req) acl ≡ true

-- The test of the data version, both ways.
version-cases :
    (n : ℕ) (data_ver : Option ℕ)
    → ((is_some data_ver && not (opt_eq (some n) data_ver)) ≡ true)
      ⊎ (((is_some data_ver && not (opt_eq (some n) data_ver)) ≡ false)
          × ((is_none data_ver ≡ true) ⊎ (opt_eq (some n) data_ver ≡ true)))
version-cases n none = inr (refl, inl refl)
version-cases n (some v) = elim (Bool-cases (opt_eq (some n) (some v))) [
  | inl same ↦ inr (rw same refl, inr same)
  | inr other ↦ inl (rw other refl)
]

module _ ⦃bf : Bitflags⦄ {T : Type 0} (methods : ClusterType T) (acl : Entries) where
  -- A cluster that may not be written stays as it is.
  write_attribute-MayWrite :
      (req : AccessReq) (t : TlvElement) (attr : AttrDetails) (c : T)
      → ((write_attribute methods acl req t attr c).1 ≡ c)
        ⊎ MayWrite acl (methods.base c) req attr.attr_id
  unfolding write_attribute
  write_attribute-MayWrite req t attr c =
      elim (Option-cases (get_attribute attr.attr_id (methods.base c))) [
        | inl e ↦ inl (rw (e, write_attribute) refl)
        | inr (a, e) ↦ elim (Bool-cases (bf.contains a.access write)) [
          | inr w ↦ inl (rw (e, write_attribute) (rw w refl))
          | inl w ↦ elim (Bool-cases (allow (set_target_perms a.access req) acl)) [
            | inr r ↦ inl (rw (e, write_attribute) (rw (w, r) refl))
            | inl r ↦ inr (record { attribute = a; found = e; writable = w; allowed = r })
          ]
        ]
      ]

  module _ (accessor : Accessor) (path : GenericPath) (data_ver : Option ℕ) where
    -- What a write of the path may do to a cluster of the endpoint with this number: nothing, or the
    -- path names the cluster, the version is what was asked for, and the attribute may be written.
    pub data MayChange (id : ℕ) (c c' : T) : Type 0 where
      stays : c' ≡ c → MayChange id c c'
      changes :
          Covers path.endpoint id
          → Covers path.cluster (methods.base c).id
          → (is_none data_ver ≡ true) ⊎ (opt_eq (some ((methods.base c).data_ver)) data_ver ≡ true)
          → MayWrite acl
              (methods.base c)
              (new_req accessor
                (record path {
                  endpoint = some (id % 2 ^ 16);
                  cluster = some ((methods.base c).id);
                })
                write)
              (or_zero path.leaf % 2 ^ 16)
          → MayChange id c c'

    module _ {W : Type 0} (emit : AttrStatus → TagType → W → W) where
      write_place-MayChange :
          (t : TlvElement) (id : ℕ) (c : T) (s : Captured emit)
          → Covers path.endpoint id
          → Covers path.cluster (methods.base c).id
          → MayChange id c
              (write_place emit methods acl accessor data_ver t
                (record path {
                  endpoint = some (id % 2 ^ 16);
                  cluster = some ((methods.base c).id);
                })
                c
                s).1.0
      unfolding write_place
      write_place-MayChange t id c (enc, attr) e k =
          let p = record path {
            endpoint = some (id % 2 ^ 16);
            cluster = some ((methods.base c).id);
          } in
          let attr' = record attr { attr_id = or_zero path.leaf % 2 ^ 16 } in
          elim (version-cases (methods.base c).data_ver data_ver) [
            | inl old ↦ rw (old, write_place) (stays refl)
            | inr (test, current) ↦
                elim (write_attribute-MayWrite (new_req accessor p write) t attr' c) [
                  | inl same ↦ rw (test, write_place) (stays same)
                  | inr may ↦ rw (test, write_place) (changes e k current may)
                ]
          ]

module _ ⦃bf : Bitflags⦄ {T W : Type 0} (methods : ClusterType T) (acl : Entries)
    (accessor : Accessor) (emit : AttrStatus → TagType → W → W) (req : AttrData) (node : Node T)
    (tw : W) where
  abbrev Confined : Node T → Type 0
  Confined node' =
      SameNode (MayChange methods acl accessor (to_gp req.path) req.data_ver) 0 node node'

  unchanged : Confined node
  unchanged =
      SameNode-refl (MayChange methods acl accessor (to_gp req.path) req.data_ver)
        (λ id c. stays refl) 0 node

  written :
      (t : TlvElement) (enc : AttrWriteEncoder W)
      → Confined (write_places emit methods acl accessor req t enc node).1.0
  unfolding write_places
  written t enc =
      for_each_cluster_mut-SameNode (MayChange methods acl accessor (to_gp req.path) req.data_ver)
        (λ id c. stays refl) methods (write_place emit methods acl accessor req.data_ver t)
        (to_gp req.path) node _
        (λ id c s e k.
          write_place-MayChange methods acl accessor (to_gp req.path) req.data_ver emit t id c s e
            k)

  payload_written :
      (enc : AttrWriteEncoder W) (v : EncodeValue)
      → Confined (write_payload emit methods acl accessor req enc node v).1.0
  unfolding write_payload
  payload_written enc (closure f) = unchanged
  payload_written enc (value v) = unchanged
  payload_written enc (tlv t) = written t enc

  -- Whatever a write of a path is answered with, the node has the same endpoints and as many clusters
  -- as before, and each cluster is as it was, or it is one that the path names, of the data version
  -- that was asked for, with the attribute, which can be written and which the access control list
  -- allows to write.
  pub handle_write_attr_path-MayChange :
      SameNode
        (MayChange methods acl accessor (to_gp req.path) req.data_ver)
        0
        node
        (handle_write_attr_path emit methods acl accessor req (node, tw)).1.0
  unfolding handle_write_attr_path
  handle_write_attr_path-MayChange = elim (Bool-cases (is_none req.path.cluster)) [
    | inl e ↦ rw (e, handle_write_attr_path) unchanged
    | inr e ↦ elim (Bool-cases (is_none req.path.attr)) [
      | inl f ↦ rw (e, handle_write_attr_path) (rw f unchanged)
      | inr f ↦ rw (e, handle_write_attr_path) (rw f (payload_written _ req.payload))
    ]
  ]
