-- ===== src/DataModel/Node/Named.antt =====
-- matter/src/data_model/objects/node.rs: which places a path names.
use matter_rs.Base.{
  ℕ, zero, suc, ◌+◌, ◌^◌, ◌%◌, ◌≡◌, refl, sym, ap, subst, ◌∙◌, ◌⊎◌, inl, inr, ◌==◌, Bool, true,
  false, List, [], ◌∷◌, ◌++◌, get_elem?, Option, some, none, Option-cases, arith, leb, length,
  Bool-cases,
}
use matter_rs.Base.Search.{position, position_found}
use matter_rs.Acl.Entry.{GenericPath}
use matter_rs.InteractionModel.Status.{
  ImStatusCode, ImResult, done, refused, crashed, unsupported_attribute, unsupported_cluster,
}
use matter_rs.InteractionModel.Messages.{as_u16}
use matter_rs.DataModel.Attribute.{Attribute}
use matter_rs.DataModel.Cluster.{ClusterType, get_wildcard_attribute, wildcard_at, at_index}
use matter_rs.DataModel.Endpoint.{Endpoint, get_wildcard_clusters}
use matter_rs.DataModel.Node.{Node, slot, numbered, all_numbered, get_wildcard_endpoints}
use matter_rs.DataModel.Node.Places.{
  or_empty, joined, collect, search_in, attribute_places, cluster_places, places,
}

abbrev pub In {ℓ} : {A : Type ℓ} → A → List A → Type ℓ
In a xs = (i : ℕ) × (get_elem? xs i ≡ some a)

module _ {ℓ} {A : Type ℓ} where
  later : (x a : A) (xs : List A) → In a xs → In a (x ∷ xs)
  later x a xs (i, e) = (suc i, e)

  pub In-append : (xs ys : List A) (a : A) → In a (xs ++ ys) → In a xs ⊎ In a ys
  In-append [] ys a m = inr m
  In-append (x ∷ xs) ys a (zero, e) = inl (0, e)
  In-append (x ∷ xs) ys a (suc i, e) = elim (In-append xs ys a (i, e)) [
    | inl m ↦ inl (later x a xs m)
    | inr m ↦ inr m
  ]

module _ {ℓ κ} {A : Type ℓ} {P : Type κ} (search : A → ImResult (List P)) (p : P) where
  -- Where something that was found comes from.
  abbrev Origin : List A → Type (ℓ ⊔ κ)
  Origin xs = (x : A) × In x xs × ((qs : List P) × (search x ≡ done qs) × In p qs)

  joined-Origin :
      (wildcard : Bool) (r q : ImResult (List P)) (ps : List P)
      → joined (or_empty wildcard r) q ≡ done ps
      → In p ps
      → ((qs : List P) × (r ≡ done qs) × In p qs) ⊎ ((qs : List P) × (q ≡ done qs) × In p qs)
  joined-Origin wildcard (done qs) (done rest) ps e m =
      let all : or_empty wildcard (done qs) ≡ done qs = either wildcard in
      let split : qs ++ rest ≡ ps = cc (e, ap (λ r. joined r (done rest)) all) in
      elim (In-append qs rest p (rw split m)) [
        | inl h ↦ inl (qs, refl, h)
        | inr h ↦ inr (rest, refl, h)
      ]
    where
      either : (wildcard : Bool) → or_empty wildcard (done qs) ≡ done qs
      either true = refl
      either false = refl
  joined-Origin true (done qs) (refused x) ps e m = absurd cc
  joined-Origin false (done qs) (refused x) ps e m = absurd cc
  joined-Origin true (done qs) crashed ps e m = absurd cc
  joined-Origin false (done qs) crashed ps e m = absurd cc
  joined-Origin true (refused x) (done rest) ps e m =
      let same : rest ≡ ps = cc e in inr (rest, refl, subst (In p) (sym same) m)
  joined-Origin true (refused x) (refused y) ps e m = absurd cc
  joined-Origin true (refused x) crashed ps e m = absurd cc
  joined-Origin false (refused x) q ps e m = absurd cc
  joined-Origin true crashed q ps e m = absurd cc
  joined-Origin false crashed q ps e m = absurd cc

  collect-Origin :
      (wildcard : Bool) (xs : List A) (ps : List P)
      → collect wildcard search xs ≡ done ps
      → In p ps
      → Origin xs
  unfolding collect
  collect-Origin wildcard [] ps e (i, m) =
      let none_in : [] ≡ ps = cc e in absurd (cc (ap (λ qs. get_elem? qs i) none_in, m))
  collect-Origin wildcard (x ∷ xs) ps e m =
      elim (joined-Origin wildcard (search x) (collect wildcard search xs) ps e m) [
        | inl h ↦ (x, (0, refl), h)
        | inr (qs, f, h) ↦
            let (y, at, found) = collect-Origin wildcard xs qs f h in (y, later x y xs at, found)
      ]

  pub search_in-Origin :
      (r : ImResult (List A × Bool)) (ps : List P)
      → search_in search r ≡ done ps
      → In p ps
      → (xs : List A) × (wildcard : Bool) × (r ≡ done (xs, wildcard)) × Origin xs
  search_in-Origin (done (xs, wildcard)) ps e m =
      (xs, wildcard, refl, collect-Origin wildcard xs ps e m)
  search_in-Origin (refused x) ps e m = absurd cc
  search_in-Origin crashed ps e m = absurd cc

only {ℓ} : {A : Type ℓ} (x y : A) (k : ℕ) → get_elem? (x ∷ []) k ≡ some y → x ≡ y
only x y zero e = cc
only x y (suc k) e = absurd cc

-- A component of a path covers a number.
abbrev pub Covers : Option ℕ → ℕ → Type 0
Covers o n = (o ≡ none) ⊎ (o ≡ some n)

-- An element that a component of a path picks: any where it is open, else the first that has the
-- number.
abbrev pub Picks {ℓ} : {A : Type ℓ} → (A → ℕ) → Option ℕ → List A → A → Type ℓ
Picks number o xs y =
    ((o ≡ none) × In y xs)
    ⊎ ((n : ℕ) × (o ≡ some n) × (at_index xs (position (λ x. number x == n) xs) ≡ some y))

wildcard_at-Picks {ℓ} :
    {A : Type ℓ} (number : A → ℕ) (status : ImStatusCode) (n : ℕ) (xs ys : List A) (w : Bool)
    (y : A)
    → wildcard_at status xs (position (λ x. number x == n) xs) ≡ done (ys, w)
    → In y ys
    → Picks number (some n) xs y
wildcard_at-Picks number status n xs ys w y e (k, at) =
    elim (Option-cases (position (λ x. number x == n) xs)) [
      | inl q ↦ absurd (cc (rw q at e))
      | inr (i, q) ↦
          let (x, there, passes) = position_found (λ x. number x == n) xs i q in
          let one : x ∷ [] ≡ ys = cc (rw (q, there, wildcard_at) at e) in
          let same : x ≡ y = only x y k (ap (λ zs. get_elem? zs k) one ∙ at) in
          inr (n, refl, ap (at_index xs) q ∙ there ∙ ap some same)
    ]

module _ {T : Type 0} (methods : ClusterType T) where
  abbrev pub PicksCluster : Option ℕ → Endpoint T → T → Type 0
  PicksCluster cluster x c = Picks (λ b. (methods.base b).id) cluster x.clusters c

  abbrev pub PicksAttribute : Option ℕ → T → Attribute → Type 0
  PicksAttribute leaf c a = Picks (λ b. b.id) (as_u16 leaf) (methods.base c).attributes a

  -- A concrete path with a cluster: both are in the node, and what the path leaves open or names.
  pub record IsNamed (path : GenericPath) (node : Node T) (place : GenericPath × T) : Type 0 where
    pub endpoint_id : ℕ
    pub endpoint : Endpoint T
    pub attribute : Attribute
    pub in_node : slot endpoint_id node ≡ some endpoint
    pub concrete : place.0 ≡ record {
      endpoint = some (endpoint_id % 2 ^ 16);
      cluster = some ((methods.base place.1).id);
      leaf = some attribute.id;
    }
    pub endpoint_covered : Covers path.endpoint endpoint_id
    pub cluster_picked : PicksCluster path.cluster endpoint place.1
    pub attribute_picked : PicksAttribute path.leaf place.1 attribute

  attribute_named :
      (path : GenericPath) (c : T) (ps : List (GenericPath × T)) (p : GenericPath × T)
      → attribute_places methods path c ≡ done ps
      → In p ps
      → (a : Attribute) × PicksAttribute path.leaf c a × (p ≡ (record path { leaf = some a.id }, c))
  unfolding attribute_places get_wildcard_attribute
  attribute_named path c ps p e m =
      let (xs, w, r, (a, at, (qs, f, (k, found)))) = search_in-Origin _ p _ ps e m in
      let picked = by_leaf (as_u16 path.leaf) xs w a r at in
      let one : (record path { leaf = some a.id }, c) ∷ [] ≡ qs = cc f in
      (a, picked, sym (only _ p k (ap (λ l. get_elem? l k) one ∙ found)))
    where
      by_leaf :
          (leaf : Option ℕ) (xs : List Attribute) (w : Bool) (a : Attribute)
          → get_wildcard_attribute leaf (methods.base c) ≡ done (xs, w)
          → In a xs
          → Picks (λ b. b.id) leaf (methods.base c).attributes a
      by_leaf none xs w a e m =
          let same : (methods.base c).attributes ≡ xs = cc e in
          inl (refl, subst (In a) (sym same) m)
      by_leaf (some n) xs w a e m =
          wildcard_at-Picks (λ b. b.id) unsupported_attribute n (methods.base c).attributes xs w a e
            m

  cluster_named :
      (path : GenericPath) (x : Endpoint T) (ps : List (GenericPath × T)) (p : GenericPath × T)
      → cluster_places methods path x ≡ done ps
      → In p ps
      → PicksCluster path.cluster x p.1
        × ((a : Attribute) × PicksAttribute path.leaf p.1 a
            × (p.0 ≡ record path { cluster = some ((methods.base p.1).id); leaf = some a.id }))
  unfolding cluster_places get_wildcard_clusters
  cluster_named path x ps (q, d) e m =
      let (xs, w, r, (c, at, (qs, f, found))) = search_in-Origin _ (q, d) _ ps e m in
      let picked = by_cluster path.cluster xs w c r at in
      let (a, listed, same) = attribute_named _ c qs (q, d) f found in
      let it : c ≡ d = cc same in
      (
        subst (PicksCluster path.cluster x) it picked,
        (
          a,
          subst (λ y. PicksAttribute path.leaf y a) it listed,
          ap (λ y. y.0) same
              ∙ ap (λ y. record path { cluster = some ((methods.base y).id); leaf = some a.id }) it,
        ),
      )
    where
      by_cluster :
          (cluster : Option ℕ) (xs : List T) (w : Bool) (c : T)
          → get_wildcard_clusters methods cluster x ≡ done (xs, w)
          → In c xs
          → PicksCluster cluster x c
      by_cluster none xs w c e m =
          let same : x.clusters ≡ xs = cc e in inl (refl, subst (In c) (sym same) m)
      by_cluster (some n) xs w c e m =
          wildcard_at-Picks (λ b. (methods.base b).id) unsupported_cluster n x.clusters xs w c e m

  In-numbered :
      (id : ℕ) (node : Node T) (i : ℕ) (x : Endpoint T)
      → In (i, x) (numbered id node)
      → (k : ℕ) × (i ≡ id + k) × (slot k node ≡ some x)
  unfolding numbered
  In-numbered id [] i x (k, e) = absurd cc
  In-numbered id (none ∷ es) i x m =
      let (k, at, e) = In-numbered (id + 1) es i x m in (suc k, omega arith, e)
  In-numbered id (some y ∷ es) i x (zero, e) =
      let num : id ≡ i = cc e in let same : y ≡ x = cc e in (0, omega arith, ap some same)
  In-numbered id (some y ∷ es) i x (suc k, e) =
      let (j, at, f) = In-numbered (id + 1) es i x (k, e) in (suc j, omega arith, f)

  endpoint_named :
      (endpoint : Option ℕ) (node : Node T) (xs : List (ℕ × Endpoint T)) (w : Bool) (id : ℕ)
      (x : Endpoint T)
      → all_numbered (get_wildcard_endpoints endpoint node) ≡ done (xs, w)
      → In (id, x) xs
      → (slot id node ≡ some x) × Covers endpoint id
  unfolding get_wildcard_endpoints numbered
  endpoint_named none node xs w id x e m =
      let same : numbered 0 node ≡ xs = cc e in
      let (k, at, found) = In-numbered 0 node id x (subst (In (id, x)) (sym same) m) in
      let eq : k ≡ id = omega arith in (ap (λ j. slot j node) (sym eq) ∙ found, inl refl)
  endpoint_named (some n) node xs w id x e (k, at) = elim (Bool-cases (leb (length node) n)) [
    | inl out ↦ absurd (cc (rw out at e))
    | inr within ↦ elim (Option-cases (slot n node)) [
      | inl q ↦ absurd (cc (rw (within, q) at e))
      | inr (y, q) ↦
          let one : (n, y) ∷ [] ≡ xs = cc (rw (within, q) at e) in
          let same = only (n, y) (id, x) k (ap (λ l. get_elem? l k) one ∙ at) in
          let num : n ≡ id = cc same in
          let it : y ≡ x = cc same in
          (ap (λ j. slot j node) (sym num) ∙ q ∙ ap some it, inr (ap some num))
    ]
  ]

  -- Every place that the search finds is one that the path names.
  pub places-IsNamed :
      (path : GenericPath) (node : Node T) (ps : List (GenericPath × T)) (p : GenericPath × T)
      → places methods path node ≡ done ps
      → In p ps
      → IsNamed path node p
  unfolding places
  places-IsNamed path node ps p e m =
      let (xs, w, r, ((id, x), at, (qs, f, found))) = search_in-Origin _ p _ ps e m in
      let (there, covered) = endpoint_named path.endpoint node xs w id x r at in
      let (cluster, (a, attribute, same)) = cluster_named _ x qs p f found in
      record {
        endpoint_id = id;
        endpoint = x;
        attribute = a;
        in_node = there;
        concrete = same;
        endpoint_covered = covered;
        cluster_picked = cluster;
        attribute_picked = attribute;
      }
