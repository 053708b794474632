-- ===== src/DataModel/Endpoint.antt =====
-- matter/src/data_model/objects/endpoint.rs: the clusters of an endpoint. The capacity of the vector
-- is an argument of `new`.
use matter_rs.Base.{
  ℕ, ◌==◌, Bool, true, ltb, if◌then◌else◌, List, [], ◌∷◌, ◌++◌, length, get_elem?, Option, some,
  none, Result, ok, err, panic, no_space, cluster_not_found,
}
use matter_rs.Base.Exec.{Exec}
use matter_rs.Base.Search.{position}
use matter_rs.InteractionModel.Status.{ImResult, done, unsupported_cluster}
use matter_rs.DataModel.Cluster.{ClusterType, wildcard_at}

abbrev pub clusters_per_endpt : ℕ
clusters_per_endpt = 7

module _ (T : Type 0) where
  pub record Endpoint : Type 0 where
    pub clusters : List T
    pub capacity : ℕ

module _ {T : Type 0} where
  unfoldable pub new : ℕ → Endpoint T
  new capacity = record { clusters = []; capacity = capacity }

  unfoldable pub add_cluster : T → Exec (Endpoint T) (Unit {0})
  add_cluster c e =
      if ltb (length e.clusters) e.capacity
      then (ok tt, record e { clusters = e.clusters ++ c ∷ [] })
      else (err no_space, e)

module _ {T : Type 0} (methods : ClusterType T) where
  -- `get_cluster_index`.
  unfoldable pub cluster_index : ℕ → List T → Option ℕ
  unfolding position
  cluster_index id clusters = position (λ c. (methods.base c).id == id) clusters

  unfoldable pub get_cluster : ℕ → Endpoint T → Result T
  unfolding cluster_index
  get_cluster id e = elim (cluster_index id e.clusters) [
    | none ↦ err cluster_not_found
    | some i ↦ elim (get_elem? e.clusters i) [ none ↦ panic | some c ↦ ok c ]
  ]

  unfoldable pub get_wildcard_clusters : Option ℕ → Endpoint T → ImResult (List T × Bool)
  unfolding cluster_index
  get_wildcard_clusters none e = done (e.clusters, true)
  get_wildcard_clusters (some id) e =
      wildcard_at unsupported_cluster e.clusters (cluster_index id e.clusters)
