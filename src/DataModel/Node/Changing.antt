-- ===== src/DataModel/Node/Changing.antt =====
-- matter/src/data_model/objects/node.rs and endpoint.rs: closures that may change the clusters they are
-- run on. A slice of one element is a call on that element.
use matter_rs.Base.{
  ℕ, ◌+◌, ◌^◌, ◌%◌, Bool, true, leb, if◌then◌else◌, List, [], ◌∷◌, length, get_elem?, set, Option,
  some, none,
}
use matter_rs.Acl.Entry.{GenericPath}
use matter_rs.InteractionModel.Status.{
  unsupported_endpoint, unsupported_cluster, ImResult, done, refused, crashed,
}
use matter_rs.DataModel.Cluster.{ClusterType}
use matter_rs.DataModel.Endpoint.{Endpoint, cluster_index}
use matter_rs.DataModel.Node.{Node, slot, tolerate}

-- A closure on something that it may change, with the state that it captures.
abbrev pub Change {ℓ κ} : Type ℓ → Type κ → Type (ℓ ⊔ κ)
Change A S = A → S → ImResult (Unit {0}) × (A × S)

module _ {ℓ} {S : Type ℓ} where
  -- One step of a loop: what is changed, and then the rest, which is left as it is after an error.
  abbrev pub step_mut {κ} :
      {A : Type κ}
      → ImResult (Unit {0})
      → A
      → List A
      → S
      → ImResult (Unit {0}) × (List A × S)
      → ImResult (Unit {0}) × (List A × S)
  step_mut (done a) x xs s rest = (rest.0, (x ∷ rest.1.0, rest.1.1))
  step_mut (refused status) x xs s rest = (refused status, (x ∷ xs, s))
  step_mut crashed x xs s rest = (crashed, (x ∷ xs, s))

  unfoldable pub visit_mut {κ} : {A : Type κ} → Bool → Change A S → Change (List A) S
  visit_mut wildcard f [] s = (done tt, ([], s))
  visit_mut wildcard f (x ∷ xs) s =
      let (r, (x', s')) = f x s in
      step_mut (tolerate wildcard r) x' xs s' (visit_mut wildcard f xs s')

  module _ {T : Type 0} where
    -- The loop of `for_each_endpoint_mut` over all slots, from the one with this number on.
    unfoldable pub visit_slots :
        GenericPath → (GenericPath → Change (Endpoint T) S) → ℕ → Change (Node T) S
    visit_slots path f id [] s = (done tt, ([], s))
    visit_slots path f id (none ∷ es) s =
        let (r, (es', s')) = visit_slots path f (id + 1) es s in (r, (none ∷ es', s'))
    visit_slots path f id (some e ∷ es) s =
        let (r, (e', s')) = f (record path { endpoint = some (id % 2 ^ 16) }) e s in
        step_mut (tolerate true r) (some e') es s' (visit_slots path f (id + 1) es s')

    -- On what `get_wildcard_endpoints_mut` answers for this component of the path.
    unfoldable pub change_endpoints :
        GenericPath → (GenericPath → Change (Endpoint T) S) → Option ℕ → Change (Node T) S
    unfolding visit_slots
    change_endpoints path f none node s = visit_slots path f 0 node s
    change_endpoints path f (some id) node s =
        if leb (length node) id
        then (refused unsupported_endpoint, (node, s))
        else (elim (slot id node) [
          | none ↦ (refused unsupported_endpoint, (node, s))
          | some e ↦
              let (r, (e', s')) = f (record path { endpoint = some (id % 2 ^ 16) }) e s in
              (r, (set node id (some e'), s'))
        ])

    unfoldable pub for_each_endpoint_mut :
        GenericPath → (GenericPath → Change (Endpoint T) S) → Change (Node T) S
    unfolding change_endpoints
    for_each_endpoint_mut path f node s = change_endpoints path f path.endpoint node s

  module _ {T : Type 0} (methods : ClusterType T) (f : GenericPath → Change T S) where
    -- What `for_each_cluster_mut` runs on one cluster.
    abbrev pub on_cluster_mut : GenericPath → Change T S
    on_cluster_mut path c s = f (record path { cluster = some ((methods.base c).id) }) c s

    -- On what `get_wildcard_clusters_mut` answers for this component of the path.
    unfoldable pub change_clusters : GenericPath → Option ℕ → Change (Endpoint T) S
    unfolding visit_mut cluster_index
    change_clusters path none e s =
        let (r, (cs, s')) = visit_mut true (on_cluster_mut path) e.clusters s in
        (r, (record e { clusters = cs }, s'))
    change_clusters path (some id) e s = elim (cluster_index methods id e.clusters) [
      | none ↦ (refused unsupported_cluster, (e, s))
      | some i ↦ elim (get_elem? e.clusters i) [
        | none ↦ (crashed, (e, s))
        | some c ↦
            let (r, (c', s')) = on_cluster_mut path c s in
            (r, (record e { clusters = set e.clusters i c' }, s'))
      ]
    ]

    -- The closure of `for_each_cluster_mut`.
    abbrev pub clusters_of_mut : GenericPath → Change (Endpoint T) S
    clusters_of_mut path e s = change_clusters path path.cluster e s

    unfoldable pub for_each_cluster_mut : GenericPath → Change (Node T) S
    unfolding for_each_endpoint_mut change_clusters
    for_each_cluster_mut path node s = for_each_endpoint_mut path clusters_of_mut node s
