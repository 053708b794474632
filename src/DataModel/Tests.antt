-- ===== src/DataModel/Tests.antt =====
-- The theorems of the fail-safe at concrete inputs.
use matter_rs.Base.{ℕ, ◌≡◌, refl, [], ◌∷◌, err, invalid, true, false}
use matter_rs.Transport.SessionMode.{case_mode, pase}
use matter_rs.DataModel.FailSafe.{
  State, idle, armed, ArmedCtx, Call, arms, disarms, adds_noc, call, after, new, is_armed,
  allow_noc_change,
}
use matter_rs.DataModel.FailSafe
use matter_rs.DataModel.FailSafe.Laws.{disarm-adds_noc, one_noc, Added}

-- Armed in a PASE session for a minute.
abbrev waiting : State
waiting = armed (record { session_mode = pase; timeout = 60; noc_state = FailSafe.noc_not_recvd })

disarm-adds_noc_example :
    (idx : ℕ) × (case_mode 3 ≡ case_mode idx)
    × Added idx (arms 90 pase ∷ adds_noc 3 ∷ arms 60 pase ∷ [])
unfolding call after new FailSafe.arm FailSafe.disarm FailSafe.record_add_noc
disarm-adds_noc_example =
    disarm-adds_noc (arms 90 pase ∷ adds_noc 3 ∷ arms 60 pase ∷ []) (case_mode 3) refl

one_noc_example :
    (is_armed (after (arms 90 pase ∷ []) (call (adds_noc 3) waiting).1) ≡ true)
    × (allow_noc_change (after (arms 90 pase ∷ []) (call (adds_noc 3) waiting).1) ≡ false)
    × ((call (adds_noc 4) (after (arms 90 pase ∷ []) (call (adds_noc 3) waiting).1)).0
        ≡ err invalid)
unfolding call FailSafe.record_add_noc
one_noc_example = one_noc waiting 3 4 (arms 90 pase ∷ []) refl tt
