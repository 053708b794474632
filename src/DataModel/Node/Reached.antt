-- ===== src/DataModel/Node/Reached.antt =====
-- matter/src/data_model/objects/node.rs: every place that a path names is visited.
use matter_rs.Base.{
  ℕ, zero, suc, ◌+◌, ◌^◌, ◌%◌, ◌≡◌, refl, sym, ap, subst, ◌⊎◌, ◌↔◌, inl, inr, ◌==◌, Bool, true,
  false, List, [], ◌∷◌, ◌++◌, Option, some, none, arith, leb, length,
}
use matter_rs.Base.Search.{position}
use matter_rs.Acl.Entry.{GenericPath}
use matter_rs.InteractionModel.Status.{
  ImStatusCode, ImResult, done, refused, crashed, unsupported_attribute, unsupported_cluster,
}
use matter_rs.InteractionModel.Messages.{as_u16}
use matter_rs.DataModel.Attribute.{Attribute}
use matter_rs.DataModel.Cluster.{ClusterType, get_wildcard_attribute, wildcard_at, at_index}
use matter_rs.DataModel.Endpoint.{Endpoint, get_wildcard_clusters}
use matter_rs.DataModel.Node.{Node, slot, numbered, all_numbered, get_wildcard_endpoints}
use matter_rs.DataModel.Node.Places.{
  or_empty, joined, collect, search_in, attribute_places, cluster_places, places, IsFound,
  IsSelection, collect_done, attribute_places-IsFound, cluster_places-IsFound,
}
use matter_rs.DataModel.Node.Named.{In, Picks, IsNamed, places-IsNamed}

module _ {ℓ} {A : Type ℓ} where
  In_left : (xs ys : List A) (a : A) → In a xs → In a (xs ++ ys)
  In_left [] ys a (i, e) = absurd cc
  In_left (x ∷ xs) ys a (zero, e) = (0, e)
  In_left (x ∷ xs) ys a (suc i, e) = let (k, f) = In_left xs ys a (i, e) in (suc k, f)

  In_right : (xs ys : List A) (a : A) → In a ys → In a (xs ++ ys)
  In_right [] ys a m = m
  In_right (x ∷ xs) ys a m = let (k, f) = In_right xs ys a m in (suc k, f)

module _ {ℓ κ} {A : Type ℓ} {P : Type κ} (search : A → ImResult (List P)) (p : P)
    (found : (x : A) → IsFound (search x)) where
  abbrev Finds : ImResult (List P) → Type κ
  Finds r = (ps : List P) × (r ≡ done ps) × In p ps

  here :
      (r : ImResult (List P)) (rest : List P)
      → Finds r
      → Finds (joined (or_empty true r) (done rest))
  here r rest (qs, e, m) = rw e (qs ++ rest, refl, In_left qs rest p m)

  there :
      (r : ImResult (List P)) (rest : List P)
      → IsFound r
      → In p rest
      → Finds (joined (or_empty true r) (done rest))
  there (done qs) rest h m = (qs ++ rest, refl, In_right qs rest p m)
  there (refused x) rest h m = (rest, refl, m)
  there crashed rest h m = elim h [ ]

  collect-Finds :
      (xs : List A) (x : A) → In x xs → Finds (search x) → Finds (collect true search xs)
  unfolding collect
  collect-Finds [] x (i, e) h = absurd cc
  collect-Finds (y ∷ xs) x (zero, e) h =
      let (rest, f) = collect_done search found xs in
      let same : x ≡ y = cc e in rw f (here (search y) rest (subst (λ z. Finds (search z)) same h))
  collect-Finds (y ∷ xs) x (suc i, e) h =
      let (rest, f, m) = collect-Finds xs x (i, e) h in rw f (there (search y) rest (found y) m)

  one-Finds : (r : ImResult (List P)) → Finds r → Finds (joined r (done []))
  one-Finds r (qs, e, m) = rw e (qs ++ [], refl, In_left qs [] p m)

  -- What is found in an element that was selected is found.
  search_in-Finds :
      (r : ImResult (List A × Bool)) (xs : List A) (w : Bool) (x : A)
      → r ≡ done (xs, w)
      → IsSelection w xs
      → In x xs
      → Finds (search x)
      → Finds (search_in search r)
  unfolding collect
  search_in-Finds r xs true x e s m h = rw e (collect-Finds xs x m h)
  search_in-Finds r [] false x e s (i, m) h = absurd cc
  search_in-Finds r (y ∷ []) false x e s (zero, m) h =
      let same : x ≡ y = cc m in rw e (one-Finds (search y) (subst (λ z. Finds (search z)) same h))
  search_in-Finds r (y ∷ []) false x e s (suc i, m) h = absurd cc
  search_in-Finds r (y ∷ z ∷ xs) false x e s m h = elim s [ ]

-- A selection that holds an element.
abbrev Selects {ℓ} : {A : Type ℓ} → ImResult (List A × Bool) → A → Type ℓ
Selects {A} r y = (xs : List A) × (w : Bool) × (r ≡ done (xs, w)) × IsSelection w xs × In y xs

wildcard_at-Selects {ℓ} :
    {A : Type ℓ} (status : ImStatusCode) (xs : List A) (o : Option ℕ) (y : A)
    → at_index xs o ≡ some y
    → Selects (wildcard_at status xs o) y
wildcard_at-Selects status xs none y e = absurd cc
wildcard_at-Selects status xs (some i) y e =
    (y ∷ [], false, rw (e, wildcard_at) refl, tt, (0, refl))

module _ {T : Type 0} (methods : ClusterType T) where
  attribute-Selects :
      (leaf : Option ℕ) (c : T) (a : Attribute)
      → Picks (λ b. b.id) leaf (methods.base c).attributes a
      → Selects (get_wildcard_attribute leaf (methods.base c)) a
  unfolding get_wildcard_attribute
  attribute-Selects leaf c a (inl (e, m)) = rw e ((methods.base c).attributes, true, refl, tt, m)
  attribute-Selects leaf c a (inr (n, e, at)) = rw e (
      wildcard_at-Selects unsupported_attribute (methods.base c).attributes
        (position (λ b. b.id == n) (methods.base c).attributes) a at)

  cluster-Selects :
      (cluster : Option ℕ) (x : Endpoint T) (c : T)
      → Picks (λ b. (methods.base b).id) cluster x.clusters c
      → Selects (get_wildcard_clusters methods cluster x) c
  unfolding get_wildcard_clusters
  cluster-Selects cluster x c (inl (e, m)) = rw e (x.clusters, true, refl, tt, m)
  cluster-Selects cluster x c (inr (n, e, at)) = rw e (
      wildcard_at-Selects unsupported_cluster x.clusters
        (position (λ b. (methods.base b).id == n) x.clusters) c at)

  numbered-In :
      (id : ℕ) (node : Node T) (k : ℕ) (x : Endpoint T)
      → slot k node ≡ some x
      → In (id + k, x) (numbered id node)
  unfolding numbered
  numbered-In id [] k x e = absurd cc
  numbered-In id (none ∷ es) zero x e = absurd cc
  numbered-In id (none ∷ es) (suc k) x e =
      let at : id + suc k ≡ id + 1 + k = omega arith in rw at (numbered-In (id + 1) es k x e)
  numbered-In id (some y ∷ es) zero x e =
      let at : id ≡ id + 0 = omega arith in let same : y ≡ x = cc e in (0, cc (at, same))
  numbered-In id (some y ∷ es) (suc k) x e =
      let at : id + suc k ≡ id + 1 + k = omega arith in
      let (i, m) = numbered-In (id + 1) es k x e in rw at (suc i, m)

  endpoint-Selects :
      (endpoint : Option ℕ) (node : Node T) (id : ℕ) (x : Endpoint T)
      → slot id node ≡ some x
      → (endpoint ≡ none) ⊎ (endpoint ≡ some id)
      → Selects (all_numbered (get_wildcard_endpoints endpoint node)) (id, x)
  unfolding get_wildcard_endpoints numbered
  endpoint-Selects endpoint node id x e (inl o) =
      let from_zero : 0 + id ≡ id = omega arith in
      let m : In (id, x) (numbered 0 node) =
        subst (λ k. In (k, x) (numbered 0 node)) from_zero (numbered-In 0 node id x e) in
      rw o (numbered 0 node, true, refl, tt, m)
  endpoint-Selects endpoint node id x e (inr o) =
      let within : leb (length node) id ≡ false = inside id node e in
      rw o (rw within ((id, x) ∷ [], false, rw e refl, tt, (0, refl)))
    where
      inside : (id : ℕ) (node : Node T) → slot id node ≡ some x → leb (length node) id ≡ false
      inside id [] e = absurd cc
      inside zero (y ∷ ys) e = ground arith
      inside (suc id) (y ∷ ys) e = let rest = inside id ys e in ground arith

  -- The places that a path names are exactly those that the search finds, where it finds any.
  pub In-places_iff :
      (path : GenericPath) (node : Node T) (place : GenericPath × T)
      → ((ps : List (GenericPath × T)) × (places methods path node ≡ done ps) × In place ps)
        ↔ IsNamed methods path node place
  unfolding places cluster_places attribute_places
  In-places_iff path node (q, c) =
      (λ found. places-IsNamed methods path node found.0 (q, c) found.1 found.2, reached)
    where
      reached :
          IsNamed methods path node (q, c)
          → (ps : List (GenericPath × T)) × (places methods path node ≡ done ps) × In (q, c) ps
      reached n =
          let at = record path { endpoint = some (n.endpoint_id % 2 ^ 16) } in
          let inner = record at { cluster = some ((methods.base c).id) } in
          let (as', w, e, s, m) =
            attribute-Selects (as_u16 path.leaf) c n.attribute n.attribute_picked in
          let in_cluster =
            search_in-Finds _ (q, c) (λ a. tt) _ as' w n.attribute e s m
              (_, refl, (0, ap some (λ i. (sym n.concrete i, c)))) in
          let (cs, w', e', s', m') = cluster-Selects path.cluster n.endpoint c n.cluster_picked in
          let in_endpoint =
            search_in-Finds _ (q, c) (λ d. attribute_places-IsFound methods _ d) _ cs w' c e' s' m'
              in_cluster in
          let (es, w'', e'', s'', m'') =
            endpoint-Selects path.endpoint node n.endpoint_id n.endpoint n.in_node
              n.endpoint_covered in
          search_in-Finds _ (q, c) (λ x. cluster_places-IsFound methods _ x.1) _ es w''
            (n.endpoint_id, n.endpoint) e'' s'' m'' in_endpoint
