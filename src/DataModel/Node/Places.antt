-- ===== src/DataModel/Node/Places.antt =====
-- matter/src/data_model/objects/node.rs: the places that a path names, and `for_each_attribute` as
-- one pass over them.
use matter_rs.Base.{
  ℕ, ◌^◌, ◌%◌, ◌≡◌, refl, sym, ap, ◌∙◌, Bool, true, false, List, [], ◌∷◌, ◌++◌, append-nil, Option,
  some, none, Option-cases, leb, length, Bool-cases, inl, inr,
}
use matter_rs.Base.Search.{position, position_found}
use matter_rs.Acl.Entry.{GenericPath}
use matter_rs.InteractionModel.Status.{
  ImStatusCode, ImResult, done, refused, crashed, ImExec, unsupported_attribute,
  unsupported_cluster,
}
use matter_rs.InteractionModel.Messages.{as_u16}
use matter_rs.DataModel.Cluster.{ClusterType, Cluster, get_wildcard_attribute, wildcard_at}
use matter_rs.DataModel.Endpoint.{Endpoint, get_wildcard_clusters}
use matter_rs.DataModel.Node.{
  Node, slot, tolerate, go_on, visit, visit_in, numbered, all_numbered, get_wildcard_endpoints,
  for_each_endpoint, clusters_of, for_each_cluster, attributes_of, for_each_attribute,
}

-- What a search of a wildcard comes to: nothing where it fails.
abbrev pub or_empty {ℓ} : {P : Type ℓ} → Bool → ImResult (List P) → ImResult (List P)
or_empty true (refused x) = done []
or_empty wildcard r = r

-- The results of a search, one behind the other.
abbrev pub joined {ℓ} : {P : Type ℓ} → ImResult (List P) → ImResult (List P) → ImResult (List P)
joined (done ps) (done qs) = done (ps ++ qs)
joined (done ps) (refused x) = refused x
joined (done ps) crashed = crashed
joined (refused x) r = refused x
joined crashed r = crashed

unfoldable pub collect {ℓ κ} :
    {A : Type ℓ} {P : Type κ} → Bool → (A → ImResult (List P)) → List A → ImResult (List P)
collect wildcard g [] = done []
collect wildcard g (x ∷ xs) = joined (or_empty wildcard (g x)) (collect wildcard g xs)

-- A pass over what was found: it never fails.
unfoldable pub pass {ℓ κ} : {S : Type ℓ} {P : Type κ} → (P → S → S) → List P → S → S
pass g [] s = s
pass g (p ∷ ps) s = pass g ps (g p s)

abbrev pub after_search {ℓ κ} :
    {S : Type ℓ} {P : Type κ} → (P → S → S) → ImResult (List P) → ImExec S (Unit {0})
after_search g (done ps) s = (done tt, pass g ps s)
after_search g (refused x) s = (refused x, s)
after_search g crashed s = (crashed, s)

-- An outcome that is no panic.
abbrev pub IsFound {ℓ} : {A : Type ℓ} → ImResult A → Type 0
IsFound (done a) = Unit
IsFound (refused x) = Unit
IsFound crashed = ⊥

-- Where there is no wildcard, at most one element is selected.
abbrev pub IsSelection {ℓ} : {A : Type ℓ} → Bool → List A → Type 0
IsSelection true xs = Unit
IsSelection false [] = Unit
IsSelection false (x ∷ []) = Unit
IsSelection false (x ∷ y ∷ xs) = ⊥

-- A selection, and a search of each of its elements.
abbrev pub search_in {ℓ κ} :
    {A : Type ℓ} {P : Type κ}
    → (A → ImResult (List P))
    → ImResult (List A × Bool)
    → ImResult (List P)
search_in g (done (xs, wildcard)) = collect wildcard g xs
search_in g (refused x) = refused x
search_in g crashed = crashed

module _ {T : Type 0} (methods : ClusterType T) where
  -- The attributes of a cluster that a path names, each with its path.
  unfoldable pub attribute_places : GenericPath → T → ImResult (List (GenericPath × T))
  unfolding collect get_wildcard_attribute
  attribute_places path c =
      search_in (λ a. done ((record path { leaf = some a.id }, c) ∷ []))
        (get_wildcard_attribute (as_u16 path.leaf) (methods.base c))

  unfoldable pub cluster_places : GenericPath → Endpoint T → ImResult (List (GenericPath × T))
  unfolding collect get_wildcard_clusters attribute_places
  cluster_places path e =
      search_in (λ c. attribute_places (record path { cluster = some ((methods.base c).id) }) c)
        (get_wildcard_clusters methods path.cluster e)

  -- What a path names in a node: concrete paths, each with its cluster.
  unfoldable pub places : GenericPath → Node T → ImResult (List (GenericPath × T))
  unfolding collect get_wildcard_endpoints cluster_places numbered
  places path node =
      search_in (λ x. cluster_places (record path { endpoint = some (x.0 % 2 ^ 16) }) x.1)
        (all_numbered (get_wildcard_endpoints path.endpoint node))

module _ {ℓ κ} {S : Type ℓ} {P : Type κ} (g : P → S → S) where
  pub pass-append : (ps qs : List P) (s : S) → pass g (ps ++ qs) s ≡ pass g qs (pass g ps s)
  unfolding pass
  pass-append [] qs s = refl
  pass-append (p ∷ ps) qs s = pass-append ps qs (g p s)

-- What was found is a selection.
abbrev pub IsSelected {ℓ} : {A : Type ℓ} → ImResult (List A × Bool) → Type 0
IsSelected (done (xs, wildcard)) = IsSelection wildcard xs
IsSelected (refused x) = Unit
IsSelected crashed = ⊥

wildcard_at-IsSelected {ℓ} :
    {A : Type ℓ} (status : ImStatusCode) (test : A → Bool) (xs : List A)
    → IsSelected (wildcard_at status xs (position test xs))
wildcard_at-IsSelected status test xs = elim (Option-cases (position test xs)) [
  | inl e ↦ rw e tt
  | inr (i, e) ↦
      let (x, at, _) = position_found test xs i e in rw e (rw (at, wildcard_at, IsSelected) tt)
]

module _ {ℓ κ} {A : Type ℓ} {P : Type κ} (search : A → ImResult (List P))
    (found : (x : A) → IsFound (search x)) where
  joined_done :
      (r : ImResult (List P)) (qs : List P)
      → IsFound r
      → (ps : List P) × (joined (or_empty true r) (done qs) ≡ done ps)
  joined_done (done ps) qs h = (ps ++ qs, refl)
  joined_done (refused x) qs h = (qs, refl)
  joined_done crashed qs h = elim h [ ]

  -- With a wildcard a search comes to something.
  pub collect_done : (xs : List A) → (ps : List P) × (collect true search xs ≡ done ps)
  unfolding collect
  collect_done [] = ([], refl)
  collect_done (x ∷ xs) =
      let (qs, e) = collect_done xs in rw e (joined_done (search x) qs (found x))

  joined-IsFound : (r : ImResult (List P)) → IsFound r → IsFound (joined r (done []))
  joined-IsFound (done ps) h = tt
  joined-IsFound (refused x) h = tt
  joined-IsFound crashed h = elim h [ ]

  search_in-IsFound : (r : ImResult (List A × Bool)) → IsSelected r → IsFound (search_in search r)
  unfolding collect
  search_in-IsFound (done (xs, true)) h = let (ps, e) = collect_done xs in rw e tt
  search_in-IsFound (done ([], false)) h = tt
  search_in-IsFound (done (x ∷ [], false)) h = joined-IsFound (search x) (found x)
  search_in-IsFound (done (x ∷ y ∷ xs, false)) h = elim h [ ]
  search_in-IsFound (refused x) h = tt
  search_in-IsFound crashed h = elim h [ ]

  module _ {μ} {S : Type μ} (g : P → S → S) (f : A → ImExec S (Unit {0}))
      (agree : (x : A) (s : S) → f x s ≡ after_search g (search x) s) where
    step_all :
        (r : ImResult (List P)) (qs : List P) (k : ImExec S (Unit {0})) (s : S)
        → IsFound r
        → ((s : S) → k s ≡ (done tt, pass g qs s))
        → go_on (tolerate true (after_search g r s).0) k (after_search g r s).1
          ≡ after_search g (joined (or_empty true r) (done qs)) s
    step_all (done ps) qs k s h rest =
        rest (pass g ps s) ∙ ap (λ t. (done tt, t)) (sym (pass-append g ps qs s))
    step_all (refused x) qs k s h rest = rest s
    step_all crashed qs k s h rest = elim h [ ]

    visit_all :
        (xs : List A) (s : S) → visit true f xs s ≡ after_search g (collect true search xs) s
    unfolding visit collect pass
    visit_all [] s = refl
    visit_all (x ∷ xs) s =
        let (qs, e) = collect_done xs in
        rw (agree x s, e)
          (step_all (search x) qs (visit true f xs) s (found x) (λ t. visit_all xs t ∙ rw e refl))

    step_one :
        (r : ImResult (List P)) (s : S)
        → go_on (after_search g r s).0 (λ t. (done tt, t)) (after_search g r s).1
          ≡ after_search g (joined r (done [])) s
    step_one (done ps) s = rw (append-nil ps) refl
    step_one (refused x) s = refl
    step_one crashed s = refl

    -- A loop whose body is a search and a pass is one search and one pass.
    visit_in_lem :
        (r : ImResult (List A × Bool)) (s : S)
        → IsSelected r
        → visit_in f r s ≡ after_search g (search_in search r) s
    unfolding visit collect pass
    visit_in_lem (done (xs, true)) s h = visit_all xs s
    visit_in_lem (done ([], false)) s h = refl
    visit_in_lem (done (x ∷ [], false)) s h = rw (agree x s) (step_one (search x) s)
    visit_in_lem (done (x ∷ y ∷ xs, false)) s h = elim h [ ]
    visit_in_lem (refused x) s h = refl
    visit_in_lem crashed s h = elim h [ ]

module _ {T : Type 0} (methods : ClusterType T) where
  attribute-IsSelected :
      (leaf : Option ℕ) (c : Cluster) → IsSelected (get_wildcard_attribute leaf c)
  unfolding get_wildcard_attribute
  attribute-IsSelected none c = tt
  attribute-IsSelected (some a) c = wildcard_at-IsSelected unsupported_attribute _ c.attributes

  cluster-IsSelected :
      (cluster : Option ℕ) (e : Endpoint T) → IsSelected (get_wildcard_clusters methods cluster e)
  unfolding get_wildcard_clusters
  cluster-IsSelected none e = tt
  cluster-IsSelected (some c) e = wildcard_at-IsSelected unsupported_cluster _ e.clusters

  endpoint-IsSelected :
      (endpoint : Option ℕ) (node : Node T)
      → IsSelected (all_numbered (get_wildcard_endpoints endpoint node))
  unfolding get_wildcard_endpoints numbered
  endpoint-IsSelected none node = tt
  endpoint-IsSelected (some e) node = elim (Bool-cases (leb (length node) e)) [
    | inl out ↦ rw out tt
    | inr within ↦
        rw within (elim (Option-cases (slot e node)) [ inl q ↦ rw q tt | inr (x, q) ↦ rw q tt ])
  ]

  pub attribute_places-IsFound :
      (path : GenericPath) (c : T) → IsFound (attribute_places methods path c)
  unfolding attribute_places
  attribute_places-IsFound path c =
      search_in-IsFound _ (λ a. tt) _ (attribute-IsSelected (as_u16 path.leaf) (methods.base c))

  pub cluster_places-IsFound :
      (path : GenericPath) (e : Endpoint T) → IsFound (cluster_places methods path e)
  unfolding cluster_places
  cluster_places-IsFound path e =
      search_in-IsFound _ (λ c. attribute_places-IsFound _ c) _ (cluster-IsSelected path.cluster e)

  module _ {ℓ} {S : Type ℓ} (g : GenericPath × T → S → S) where
    -- A closure that never fails.
    abbrev pub calm : GenericPath → T → ImExec S (Unit {0})
    calm path c s = (done tt, g (path, c) s)

    attributes_of_lem :
        (path : GenericPath) (c : T) (s : S)
        → attributes_of methods calm path c s ≡ after_search g (attribute_places methods path c) s
    unfolding attributes_of attribute_places pass
    attributes_of_lem path c s =
        visit_in_lem _ (λ a. tt) g _ (λ a t. refl) _ s
          (attribute-IsSelected (as_u16 path.leaf) (methods.base c))

    clusters_of_lem :
        (path : GenericPath) (e : Endpoint T) (s : S)
        → clusters_of methods (attributes_of methods calm) path e s
          ≡ after_search g (cluster_places methods path e) s
    unfolding clusters_of cluster_places
    clusters_of_lem path e s =
        visit_in_lem _ (λ c. attribute_places-IsFound _ c) g _ (λ c t. attributes_of_lem _ c t) _ s
          (cluster-IsSelected path.cluster e)

    -- Where its closure never fails, `for_each_attribute` answers what the search for the places that
    -- the path names answers, never a panic; it runs the closure on exactly these places, in their
    -- order, and on nothing where the search is refused.
    pub for_each_attribute_lem :
        (path : GenericPath) (node : Node T) (s : S)
        → (for_each_attribute methods path calm node s
            ≡ after_search g (places methods path node) s)
          × IsFound (places methods path node)
    unfolding for_each_attribute for_each_cluster for_each_endpoint places
    for_each_attribute_lem path node s =
        let selected = endpoint-IsSelected path.endpoint node in
        (
          visit_in_lem _ (λ x. cluster_places-IsFound _ x.1) g _ (λ x t. clusters_of_lem _ x.1 t) _
              s selected,
          search_in-IsFound _ (λ x. cluster_places-IsFound _ x.1) _ selected,
        )
