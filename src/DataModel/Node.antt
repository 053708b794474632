-- ===== src/DataModel/Node.antt =====
-- matter/src/data_model/objects/node.rs: the endpoints of a node, and the closures that are run on
-- what a path names. A closure is a method on the state that it captures.
pub mod Places
pub mod Named
pub mod Reached
pub mod Changing
pub mod Pointwise
use matter_rs.Base.{
  ℕ, ◌+◌, ◌^◌, ◌%◌, ◌==◌, Bool, true, false, not, ltb, leb, if◌then◌else◌, List, [], ◌∷◌, length,
  get_elem?, set, replicate, Option, some, none, is_none, Result, ok, err, panic, Error, invalid,
  no_space, no_endpoint, endpoint_not_found,
}
use matter_rs.Base.Exec.{Exec}
use matter_rs.Base.Search.{position}
use matter_rs.Acl.Entry.{GenericPath}
use matter_rs.InteractionModel.Status.{
  ImStatusCode, unsupported_endpoint, ImResult, done, refused, crashed, ImExec,
}
use matter_rs.InteractionModel.Messages.{as_u16}
use matter_rs.DataModel.Attribute.{Attribute}
use matter_rs.DataModel.Cluster.{ClusterType, Cluster, get_wildcard_attribute}
use matter_rs.DataModel.Endpoint.{Endpoint, get_wildcard_clusters}
use matter_rs.DataModel.Endpoint

abbrev pub endpts_per_acc : ℕ
endpts_per_acc = 3

-- `.or_else(|e| if !wildcard { Err(e) } else { Ok(()) })`.
abbrev pub tolerate : Bool → ImResult (Unit {0}) → ImResult (Unit {0})
tolerate true (refused x) = done tt
tolerate wildcard r = r

module _ {ℓ} {S : Type ℓ} where
  -- `?`, and then the rest of the loop.
  abbrev pub go_on :
      ImResult (Unit {0}) → (S → ImResult (Unit {0}) × S) → S → ImResult (Unit {0}) × S
  go_on (done a) k s = k s
  go_on (refused x) k s = (refused x, s)
  go_on crashed k s = (crashed, s)

module _ {ℓ κ} {A : Type ℓ} {S : Type κ} where
  -- The loop over the clusters, or over the attributes, that a path names.
  unfoldable pub visit : Bool → (A → ImExec S (Unit {0})) → List A → ImExec S (Unit {0})
  visit wildcard f [] s = (done tt, s)
  visit wildcard f (x ∷ xs) s = go_on (tolerate wildcard (f x s).0) (visit wildcard f xs) (f x s).1

  -- The loop over what `get_wildcard_..` answers, with `?`.
  abbrev pub visit_in : (A → ImExec S (Unit {0})) → ImResult (List A × Bool) → ImExec S (Unit {0})
  visit_in f (done (xs, wildcard)) s = visit wildcard f xs s
  visit_in f (refused x) s = (refused x, s)
  visit_in f crashed s = (crashed, s)

-- Without the callback `changes_cb`, which `add_endpoint` takes as an argument.
abbrev pub Node : Type 0 → Type 0
Node T = List (Option (Endpoint T))

module _ {T : Type 0} where
  unfoldable pub new : Node T
  new = replicate endpts_per_acc none

  -- `endpoint_added` is what the callback does, where one is set.
  unfoldable pub add_endpoint : ℕ → Option (ℕ → Exec (Endpoint T) (Unit {0})) → Exec (Node T) ℕ
  unfolding position Endpoint.new
  add_endpoint capacity changes_cb node = elim (position is_none node) [
    | none ↦ (err no_space, node)
    | some index ↦ elim changes_cb [
      | none ↦ (ok index, set node index (some (Endpoint.new capacity)))
      | some cb ↦
          let (r, e) = cb (index % 2 ^ 16) (Endpoint.new capacity) in
          elim r [
            | ok _ ↦ (ok index, set node index (some e))
            | err x ↦ (err x, node)
            | panic ↦ (panic, node)
          ]
    ]
  ]

  -- The slot with this number.
  abbrev pub slot : ℕ → Node T → Option (Endpoint T)
  slot id node = elim (get_elem? node id) [ none ↦ none | some e ↦ e ]

  unfoldable pub get_endpoint : ℕ → Node T → Result (Endpoint T)
  get_endpoint id node =
      if ltb id endpts_per_acc
      then (elim (slot id node) [ none ↦ err endpoint_not_found | some e ↦ ok e ])
      else err endpoint_not_found

  unfoldable pub add_cluster : ℕ → T → Exec (Node T) (Unit {0})
  unfolding Endpoint.add_cluster
  add_cluster id c node =
      if ltb id endpts_per_acc
      then (elim (slot id node) [
        | none ↦ (err no_endpoint, node)
        | some e ↦ let (r, e') = Endpoint.add_cluster c e in (r, set node id (some e'))
      ])
      else (err invalid, node)

  -- The slots that hold an endpoint, counted from a number on.
  unfoldable pub numbered : ℕ → Node T → List (ℕ × Endpoint T)
  numbered id [] = []
  numbered id (none ∷ es) = numbered (id + 1) es
  numbered id (some e ∷ es) = (id, e) ∷ numbered (id + 1) es

  abbrev pub all_numbered :
      ImResult (List (Option (Endpoint T)) × ℕ × Bool) → ImResult (List (ℕ × Endpoint T) × Bool)
  all_numbered (done (es, id, wildcard)) = done (numbered id es, wildcard)
  all_numbered (refused x) = refused x
  all_numbered crashed = crashed

  -- The endpoints, the number of the first of them, and whether the path is a wildcard.
  unfoldable pub get_wildcard_endpoints :
      Option ℕ → Node T → ImResult (List (Option (Endpoint T)) × ℕ × Bool)
  get_wildcard_endpoints none node = done (node, 0, true)
  get_wildcard_endpoints (some e) node =
      if leb (length node) e then refused unsupported_endpoint else (elim (slot e node) [
        | none ↦ refused unsupported_endpoint
        | some x ↦ done (some x ∷ [], e, false)
      ])

  module _ {ℓ} {S : Type ℓ} where
    -- The loop of `for_each_endpoint` calls the closure with the endpoint's number in the path.
    abbrev pub on_endpoint :
        GenericPath
        → (GenericPath → Endpoint T → ImExec S (Unit {0}))
        → ℕ × Endpoint T
        → ImExec S (Unit {0})
    on_endpoint path f (id, e) = f (record path { endpoint = some (id % 2 ^ 16) }) e

    unfoldable pub for_each_endpoint :
        GenericPath
        → (GenericPath → Endpoint T → ImExec S (Unit {0}))
        → Node T
        → ImExec S (Unit {0})
    unfolding get_wildcard_endpoints visit numbered
    for_each_endpoint path f node s =
        visit_in (on_endpoint path f) (all_numbered (get_wildcard_endpoints path.endpoint node)) s

module _ {T : Type 0} (methods : ClusterType T) where
  unfoldable pub get_cluster : ℕ → ℕ → Node T → Result T
  unfolding get_endpoint Endpoint.get_cluster
  get_cluster e c node = elim (get_endpoint e node) [
    | ok x ↦ Endpoint.get_cluster methods c x
    | err x ↦ err x
    | panic ↦ panic
  ]

  module _ {ℓ} {S : Type ℓ} (f : GenericPath → T → ImExec S (Unit {0})) where
    -- What `for_each_cluster` runs on one cluster.
    abbrev pub on_cluster : GenericPath → T → ImExec S (Unit {0})
    on_cluster path c = f (record path { cluster = some ((methods.base c).id) }) c

    -- The closure of `for_each_cluster`.
    unfoldable pub clusters_of : GenericPath → Endpoint T → ImExec S (Unit {0})
    unfolding get_wildcard_clusters visit
    clusters_of path e s =
        visit_in (on_cluster path) (get_wildcard_clusters methods path.cluster e) s

    unfoldable pub for_each_cluster : GenericPath → Node T → ImExec S (Unit {0})
    unfolding for_each_endpoint clusters_of
    for_each_cluster path node s = for_each_endpoint path clusters_of node s

    -- What `for_each_attribute` runs on one attribute.
    abbrev pub on_attribute : GenericPath → T → Attribute → ImExec S (Unit {0})
    on_attribute path c a = f (record path { leaf = some a.id }) c

    -- The closure of `for_each_attribute`.
    unfoldable pub attributes_of : GenericPath → T → ImExec S (Unit {0})
    unfolding get_wildcard_attribute visit
    attributes_of path c s =
        visit_in (on_attribute path c) (get_wildcard_attribute (as_u16 path.leaf) (methods.base c))
          s

  module _ {ℓ} {S : Type ℓ} where
    unfoldable pub for_each_attribute :
        GenericPath → (GenericPath → T → ImExec S (Unit {0})) → Node T → ImExec S (Unit {0})
    unfolding for_each_cluster attributes_of
    for_each_attribute path f node s = for_each_cluster (attributes_of f) path node s
