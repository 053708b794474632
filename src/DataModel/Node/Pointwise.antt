-- ===== src/DataModel/Node/Pointwise.antt =====
-- matter/src/data_model/objects/node.rs: a closure changes a node only where it is run.
use matter_rs.Base.{
  ℕ, zero, suc, ◌+◌, ◌^◌, ◌%◌, ◌≡◌, refl, sym, ap, subst, ◌∙◌, Bool, true, leb, List, [], ◌∷◌,
  length, get_elem?, set, Option, some, none, Bool-cases, Option-cases, inl, inr, arith, ◌==◌,
  ==_iff,
}
use matter_rs.Base.Search.{position, position_found}
use matter_rs.Acl.Entry.{GenericPath}
use matter_rs.InteractionModel.Status.{ImResult, done, refused, crashed}
use matter_rs.DataModel.Cluster.{ClusterType}
use matter_rs.DataModel.Endpoint.{Endpoint, cluster_index}
use matter_rs.DataModel.Node.{Node, slot, tolerate}
use matter_rs.DataModel.Node.Named.{Covers}
use matter_rs.DataModel.Node.Changing.{
  Change, step_mut, visit_mut, visit_slots, change_endpoints, for_each_endpoint_mut, on_cluster_mut,
  change_clusters, clusters_of_mut, for_each_cluster_mut,
}

-- Two lists, element by element.
abbrev pub All2 {ℓ} : {A : Type ℓ} → (A → A → Type 0) → List A → List A → Type 0
All2 R [] [] = Unit
All2 R [] (y ∷ ys) = ⊥
All2 R (x ∷ xs) [] = ⊥
All2 R (x ∷ xs) (y ∷ ys) = R x y × All2 R xs ys

module _ {ℓ} {A : Type ℓ} (R : A → A → Type 0) (same : (x : A) → R x x) where
  pub All2-refl : (xs : List A) → All2 R xs xs
  All2-refl [] = tt
  All2-refl (x ∷ xs) = (same x, All2-refl xs)

  All2-set :
      (xs : List A) (i : ℕ) (x y : A) → get_elem? xs i ≡ some x → R x y → All2 R xs (set xs i y)
  All2-set [] i x y e r = tt
  All2-set (z ∷ xs) zero x y e r = let it : x ≡ z = cc e in (subst (λ w. R w y) it r, All2-refl xs)
  All2-set (z ∷ xs) (suc i) x y e r = (same z, All2-set xs i x y e r)

  module _ {μ} {S : Type μ} where
    step_mut-All2 :
        (r : ImResult (Unit {0})) (x x' : A) (xs : List A) (s : S)
        (rest : ImResult (Unit {0}) × (List A × S))
        → R x x'
        → All2 R xs rest.1.0
        → All2 R (x ∷ xs) (step_mut r x' xs s rest).1.0
    step_mut-All2 (done a) x x' xs s rest h k = (h, k)
    step_mut-All2 (refused e) x x' xs s rest h k = (h, All2-refl xs)
    step_mut-All2 crashed x x' xs s rest h k = (h, All2-refl xs)

    visit_mut-All2 :
        (w : Bool) (f : Change A S) (xs : List A) (s : S)
        → ((x : A) (s : S) → R x (f x s).1.0)
        → All2 R xs (visit_mut w f xs s).1.0
    unfolding visit_mut
    visit_mut-All2 w f [] s h = tt
    visit_mut-All2 w f (x ∷ xs) s h =
        step_mut-All2 (tolerate w (f x s).0) x (f x s).1.0 xs (f x s).1.1 _ (h x s)
          (visit_mut-All2 w f xs (f x s).1.1 h)

module _ {T : Type 0} where
  -- Two slots, with the clusters of their endpoints related.
  abbrev pub SameSlot : (T → T → Type 0) → Option (Endpoint T) → Option (Endpoint T) → Type 0
  SameSlot R none none = Unit
  SameSlot R none (some y) = ⊥
  SameSlot R (some x) none = ⊥
  SameSlot R (some x) (some y) = (y.capacity ≡ x.capacity) × All2 R x.clusters y.clusters

  -- Two nodes, with a relation for each endpoint's number.
  abbrev pub SameNode : (ℕ → T → T → Type 0) → ℕ → Node T → Node T → Type 0
  SameNode R id [] [] = Unit
  SameNode R id [] (y ∷ ys) = ⊥
  SameNode R id (x ∷ xs) [] = ⊥
  SameNode R id (x ∷ xs) (y ∷ ys) = SameSlot (R id) x y × SameNode R (id + 1) xs ys

module _ {T : Type 0} (R : ℕ → T → T → Type 0) (same : (id : ℕ) (c : T) → R id c c) where
  slot_refl : (id : ℕ) (x : Option (Endpoint T)) → SameSlot (R id) x x
  slot_refl id none = tt
  slot_refl id (some x) = (refl, All2-refl (R id) (same id) x.clusters)

  pub SameNode-refl : (id : ℕ) (node : Node T) → SameNode R id node node
  SameNode-refl id [] = tt
  SameNode-refl id (x ∷ xs) = (slot_refl id x, SameNode-refl (id + 1) xs)

  SameNode-set :
      (start : ℕ) (node : Node T) (k : ℕ) (x y : Endpoint T)
      → slot k node ≡ some x
      → SameSlot (R (start + k)) (some x) (some y)
      → SameNode R start node (set node k (some y))
  SameNode-set start [] k x y e h = tt
  SameNode-set start (z ∷ zs) zero x y e h =
      let at : start + 0 ≡ start = omega arith in
      (
        subst (λ w. SameSlot (R start) w (some y)) (sym e)
            (subst (λ i. SameSlot (R i) (some x) (some y)) at h),
        SameNode-refl (start + 1) zs,
      )
  SameNode-set start (z ∷ zs) (suc k) x y e h =
      let at : start + suc k ≡ start + 1 + k = omega arith in
      (
        slot_refl start z,
        SameNode-set (start + 1) zs k x y e (subst (λ i. SameSlot (R i) (some x) (some y)) at h),
      )

  module _ {ℓ} {S : Type ℓ} (path : GenericPath) (f : GenericPath → Change (Endpoint T) S)
      (keeps : (id : ℕ) (e : Endpoint T) (s : S)
        → Covers path.endpoint id
        → SameSlot
            (R id)
            (some e)
            (some (f (record path { endpoint = some (id % 2 ^ 16) }) e s).1.0)) where
    step_slots :
        (r : ImResult (Unit {0})) (id : ℕ) (x y : Option (Endpoint T)) (es : Node T) (s : S)
        (rest : ImResult (Unit {0}) × (Node T × S))
        → SameSlot (R id) x y
        → SameNode R (id + 1) es rest.1.0
        → SameNode R id (x ∷ es) (step_mut r y es s rest).1.0
    step_slots (done a) id x y es s rest h k = (h, k)
    step_slots (refused e) id x y es s rest h k = (h, SameNode-refl (id + 1) es)
    step_slots crashed id x y es s rest h k = (h, SameNode-refl (id + 1) es)

    visit_slots_kept :
        path.endpoint ≡ none
        → (id : ℕ) (node : Node T) (s : S) → SameNode R id node (visit_slots path f id node s).1.0
    unfolding visit_slots
    visit_slots_kept all id [] s = tt
    visit_slots_kept all id (none ∷ es) s = (tt, visit_slots_kept all (id + 1) es s)
    visit_slots_kept all id (some e ∷ es) s =
        let at = record path { endpoint = some (id % 2 ^ 16) } in
        let s' = (f at e s).1.1 in
        step_slots (tolerate true (f at e s).0) id (some e) (some (f at e s).1.0) es s' _
          (keeps id e s (inl all)) (visit_slots_kept all (id + 1) es s')

    change_endpoints_kept :
        (endpoint : Option ℕ) (node : Node T) (s : S)
        → path.endpoint ≡ endpoint
        → SameNode R 0 node (change_endpoints path f endpoint node s).1.0
    unfolding change_endpoints
    change_endpoints_kept none node s o = visit_slots_kept o 0 node s
    change_endpoints_kept (some id) node s o = elim (Bool-cases (leb (length node) id)) [
      | inl out ↦ rw (out, change_endpoints) (SameNode-refl 0 node)
      | inr within ↦ elim (Option-cases (slot id node)) [
        | inl e ↦ rw (within, change_endpoints) (rw e (SameNode-refl 0 node))
        | inr (x, e) ↦
            let y = (f (record path { endpoint = some (id % 2 ^ 16) }) x s).1.0 in
            let at : 0 + id ≡ id = omega arith in
            rw (within, change_endpoints)
              (rw (e, slot)
                (SameNode-set 0 node id x y e
                  (subst (λ i. SameSlot (R i) (some x) (some y)) (sym at) (keeps id x s (inr o)))))
      ]
    ]

  module _ {ℓ} {S : Type ℓ} (methods : ClusterType T) (f : GenericPath → Change T S) (id : ℕ)
      (path : GenericPath)
      (keeps : (c : T) (s : S)
        → Covers path.cluster (methods.base c).id
        → R id c (f (record path { cluster = some ((methods.base c).id) }) c s).1.0) where
    change_clusters_kept :
        (cluster : Option ℕ) (e : Endpoint T) (s : S)
        → path.cluster ≡ cluster
        → SameSlot (R id) (some e) (some (change_clusters methods f path cluster e s).1.0)
    unfolding change_clusters cluster_index
    change_clusters_kept none e s o = (
      refl,
      visit_mut-All2 (R id) (same id) true (on_cluster_mut methods f path) e.clusters s
          (λ c t. keeps c t (inl o)),
    )
    change_clusters_kept (some k) e s o =
        elim (Option-cases (position (λ c. (methods.base c).id == k) e.clusters)) [
          | inl q ↦ rw (q, change_clusters, cluster_index) (slot_refl id (some e))
          | inr (i, q) ↦
              let (c, r, found) = position_found (λ c. (methods.base c).id == k) e.clusters i q in
              let named = o ∙ ap some (sym ((==_iff (methods.base c).id k).0 found)) in
              rw (q, change_clusters, cluster_index)
                (rw r (refl, All2-set (R id) (same id) e.clusters i c _ r (keeps c s (inr named))))
        ]

  -- What the closure keeps of each cluster, `for_each_cluster_mut` keeps of the node.
  pub for_each_cluster_mut-SameNode {ℓ} :
      {S : Type ℓ} (methods : ClusterType T) (f : GenericPath → Change T S) (path : GenericPath)
      (node : Node T) (s : S)
      → ((id : ℕ) (c : T) (s : S)
          → Covers path.endpoint id
          → Covers path.cluster (methods.base c).id
          → R id c
              (f
                (record path {
                  endpoint = some (id % 2 ^ 16);
                  cluster = some ((methods.base c).id);
                })
                c
                s).1.0)
      → SameNode R 0 node (for_each_cluster_mut methods f path node s).1.0
  unfolding for_each_cluster_mut for_each_endpoint_mut
  for_each_cluster_mut-SameNode methods f path node s keeps =
      change_endpoints_kept path (clusters_of_mut methods f)
        (λ id e t covered.
          change_clusters_kept methods f id (record path { endpoint = some (id % 2 ^ 16) })
            (λ c t covered'. keeps id c t covered covered') path.cluster e t refl)
        path.endpoint node s refl
