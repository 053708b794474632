-- ===== src/Fabric/Manager.antt =====
-- matter/src/fabric.rs: the table of fabrics, with the persistent store behind it. The lock is taken and
-- released within each call; the key pair that `Fabric::dummy` makes and the empty certificate are
-- arguments.
pub mod Laws
use matter_rs.Base.{
  ℕ, ◌+◌, ◌%◌, ◌^◌, ◌≡◌, Bool, true, false, List, [], ◌∷◌, replicate, set, get_elem?, Option, some,
  none, is_none, Result, ok, err, panic, and_then, no_space, not_found,
}
use matter_rs.Base.Exec.{Exec, lift, ◌>>=◌, ◌>>◌}
use matter_rs.Base.Search.{position}
use matter_rs.Fabric.{
  Psm, Backend, Fabric, store, load, match_dest_id, symm_key_len_bytes, compressed_fabric_id_len,
}

-- The indices below MAX_SUPPORTED_FABRICS.
abbrev pub indices : List ℕ
indices = 0 ∷ 1 ∷ 2 ∷ []

module _ (C K P : Type 0) where
  pub record FabricMgr : Type 0 where
    pub fabrics : List (Option (Fabric C K))
    pub psm : P

module _ {C K : Type 0} where
  -- A slot that a load from the store fills, where it succeeds.
  abbrev pub fill :
      ℕ → Result (Fabric C K) → List (Option (Fabric C K)) → Result (List (Option (Fabric C K)))
  fill i (ok f) fabrics = ok (set fabrics i (some f))
  fill i (err e) fabrics = ok fabrics
  fill i panic fabrics = panic

  -- `Fabric::dummy`.
  unfoldable pub dummy : Result K → C → Result (Fabric C K)
  dummy key_pair cert = and_then key_pair (λ k. ok (record {
    node_id = 0;
    fabric_id = 0;
    key_pair = k;
    root_ca = cert;
    icac = cert;
    noc = cert;
    ipk = record {
      epoch_key = replicate symm_key_len_bytes 0;
      op_key = replicate symm_key_len_bytes 0;
    };
    compressed_id = replicate compressed_fabric_id_len 0;
  }))

  unfoldable pub get_fabric : {P : Type 0} → ℕ → FabricMgr C K P → Result (Option (Fabric C K))
  get_fabric idx m = elim (get_elem? m.fabrics idx) [ none ↦ panic | some f ↦ ok f ]

  abbrev pub all_none : List (Option (Fabric C K)) → Bool
  all_none [] = true
  all_none (some f ∷ fs) = false
  all_none (none ∷ fs) = all_none fs

  -- The slot 0 is not looked at.
  unfoldable pub is_empty : {P : Type 0} → FabricMgr C K P → Bool
  is_empty m = elim m.fabrics [ [] ↦ true | f ∷ fs ↦ all_none fs ]

module _ {C K N P : Type 0} (backend : Backend C K N) (psm : Psm P) where
  -- The loop of `load`.
  unfoldable pub load_each :
      List ℕ → P → List (Option (Fabric C K)) → Exec N (List (Option (Fabric C K)))
  unfolding load ◌>>=◌
  load_each [] p fabrics n = (ok fabrics, n)
  load_each (i ∷ is) p fabrics n =
      let (r, n') = load backend psm i p n in (lift (fill i r fabrics) >>= load_each is p) n'

  unfoldable pub new : Result K → C → P → Exec N (FabricMgr C K P)
  unfolding load_each dummy ◌>>=◌
  new key_pair cert p = do
    f ← lift (dummy key_pair cert)
    fabrics ← load_each indices p (some f ∷ none ∷ none ∷ [])
    lift (ok (record { fabrics = fabrics; psm = p }))

  -- What storing a fabric for an index makes of the table.
  abbrev pub place : ℕ → Fabric C K → Result (Unit {0}) × P → Exec (FabricMgr C K P) ℕ
  place index f (ok a, p) m =
      (ok (index % 2 ^ 8), record { fabrics = set m.fabrics index (some f); psm = p })
  place index f (err e, p) m = (err e, record m { psm = p })
  place index f (panic, p) m = (panic, record m { psm = p })

  unfoldable pub add : Fabric C K → Exec (FabricMgr C K P) ℕ
  unfolding position store
  add f m = elim (position is_none m.fabrics) [
    | none ↦ (err no_space, m)
    | some index ↦ place index f (store backend psm index f m.psm) m
  ]

  -- The loop of `match_dest_id` from the index `i` on.
  unfoldable pub match_from : List ℕ → List ℕ → ℕ → List (Option (Fabric C K)) → Result ℕ
  unfolding match_dest_id
  match_from random target i [] = err not_found
  match_from random target i (none ∷ fs) = match_from random target (i + 1) fs
  match_from random target i (some f ∷ fs) = elim (match_dest_id backend random target f) [
    | ok _ ↦ ok i
    | err _ ↦ match_from random target (i + 1) fs
    | panic ↦ panic
  ]

  -- `FabricMgr::match_dest_id`.
  unfoldable pub find_dest_id : List ℕ → List ℕ → FabricMgr C K P → Result ℕ
  unfolding match_from
  find_dest_id random target m = match_from random target 0 m.fabrics
