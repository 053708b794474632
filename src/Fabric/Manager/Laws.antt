-- ===== src/Fabric/Manager/Laws.antt =====
-- matter/src/fabric.rs: what adding a fabric makes of the table and of the persistent store.
use matter_rs.Base.{
  ℕ, ◌%◌, ◌^◌, ◌≡◌, ◌≢◌, false, set, get_elem?, Option, some, none, is_none, Result, ok, err,
  no_space,
}
use matter_rs.Fabric.{Psm, Backend, Fabric, load}
use matter_rs.Fabric.Store.{reread}
use matter_rs.Fabric.Manager.{FabricMgr}

module _ {C K N P : Type 0} (backend : Backend C K N) (psm : Psm P) where
  -- At every index but this one, the store gives a load what it gave it before.
  abbrev pub OthersStay : ℕ → P → P → Type 0
  OthersStay i p q = (j : ℕ) (n : N) → i ≢ j → load backend psm j q n ≡ load backend psm j p n

  -- The answer to adding a fabric, and the table after it.
  pub data Outcome (f : Fabric C K) (m : FabricMgr C K P) (r : Result ℕ × FabricMgr C K P)
      : Type 0 where
    -- No slot is free, and nothing changes.
    full :
        ((j : ℕ) (o : Option (Fabric C K)) → get_elem? m.fabrics j ≡ some o → is_none o ≡ false)
        → r ≡ (err no_space, m)
        → Outcome f m r
    -- The fabric stands in a slot that was free, and a load for this slot makes it anew.
    placed :
        (i : ℕ)
        → get_elem? m.fabrics i ≡ some none
        → r.0 ≡ ok (i % 2 ^ 8)
        → r.1.fabrics ≡ set m.fabrics i (some f)
        → ((n : N) → load backend psm i r.1.psm n ≡ reread backend psm f n)
        → OthersStay i m.psm r.1.psm
        → Outcome f m r
    -- The fabric was not stored for a slot that was free, and the table stays.
    failed :
        (i : ℕ)
        → get_elem? m.fabrics i ≡ some none
        → ((a : ℕ) → r.0 ≢ ok a)
        → r.1.fabrics ≡ m.fabrics
        → OthersStay i m.psm r.1.psm
        → Outcome f m r
