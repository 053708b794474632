-- ===== src/Transport/Exchange/Manager/Cleanup.antt =====
-- matter/src/transport/exchange.rs: `purge`. What it notes down first always fits.
use matter_rs.Base.{
  ℕ, ◌+◌, ◌≤◌, ◌<◌, ◌≡◌, arith, Bool, true, false, length, Option, some, Option-cases, inl, inr,
}
use matter_rs.Base.LinearMap.{LinearMap}
use matter_rs.Transport.Exchange.{Exchange}

module _ {V : Type 0} {cap : ℕ} (lm : LinearMap V cap) where
  -- With a free place an insertion succeeds, and takes at most that place.
  pub insert_room :
      (k : ℕ) (v : V) (m : lm.Map)
      → length (lm.entries m) < cap
      → ((lm.insert k v m).0 ≡ true)
        × (length (lm.entries (lm.insert k v m).1) ≤ length (lm.entries m) + 1)
  insert_room k v m h = elim (Option-cases (lm.get k m)) [
    | inl e ↦ let (done, size) = lm.insert_new k v m e h in (done, omega arith)
    | inr (w, e) ↦ let (done, size) = lm.insert_known k v w m e in (done, omega arith)
  ]

-- The set of ids with some more ids.
abbrev pub marked : Bool → Option (Unit {0}) → Option (Unit {0})
marked true o = some tt
marked false o = o
