-- ===== src/DataModel/FailSafe/Disarming.antt =====
-- matter/src/data_model/sdm/failsafe.rs: in which session a fail-safe is disarmed.
use matter_rs.Base.{
  ℕ, ◌≡◌, ◌≢◌, refl, sym, ap, ◌∙◌, ◌⊎◌, Option, none, some, inl, inr, true, false, ok, err,
  Bool-cases, invalid,
}
use matter_rs.Transport.SessionMode.{SessionMode, case_mode, mode_eq, mode_eq→eq, mode_eq_refl}
use matter_rs.DataModel.FailSafe.{
  State, idle, armed, NocState, noc_not_recvd, add_noc_recvd, update_noc_recvd, disarm, disarm_noc,
}

abbrev noc_index : NocState → Option ℕ
noc_index noc_not_recvd = none
noc_index (add_noc_recvd i) = some i
noc_index (update_noc_recvd i) = some i

-- The fabric of the NOC that was added or updated since the fail-safe was armed.
abbrev pub noc_fabric : State → Option ℕ
noc_fabric idle = none
noc_fabric (armed c) = noc_index c.noc_state

-- The session is not one of the fabric.
abbrev pub NotOf : SessionMode → Option ℕ → Type 0
NotOf m o = (i : ℕ) → o ≡ some i → m ≢ case_mode i

noc_of :
    (m : SessionMode) (i : ℕ)
    → ((m ≡ case_mode i) × (mode_eq (case_mode i) m ≡ true))
      ⊎ ((mode_eq (case_mode i) m ≡ false) × NotOf m (some i))
noc_of m i = elim (Bool-cases (mode_eq (case_mode i) m)) [
  | inl e ↦ inl (sym (mode_eq→eq (case_mode i) m e), e)
  | inr e ↦ inr (
    e,
    λ j same mode.
        let eq : i ≡ j = cc same in
        let refused = ap (λ k. mode_eq (case_mode k) m) (sym eq) ∙ e in
        cc (refused, ap (mode_eq (case_mode j)) mode, mode_eq_refl (case_mode j)),
  )
]

noc-cases :
    (n : NocState) (m : SessionMode)
    → ((i : ℕ) × (m ≡ case_mode i) × (noc_index n ≡ some i) × (disarm_noc n m ≡ ok tt))
      ⊎ ((disarm_noc n m ≡ err invalid) × NotOf m (noc_index n))
noc-cases noc_not_recvd m = inr (refl, λ i e. absurd cc)
noc-cases (add_noc_recvd i) m = elim (noc_of m i) [
  | inl (same, e) ↦ inl (i, same, refl, rw e refl)
  | inr (e, other) ↦ inr (rw e refl, other)
]
noc-cases (update_noc_recvd i) m = elim (noc_of m i) [
  | inl (same, e) ↦ inl (i, same, refl, rw e refl)
  | inr (e, other) ↦ inr (rw e refl, other)
]

-- A fail-safe is disarmed exactly in a CASE session on the fabric of its NOC, and stays otherwise.
pub disarm-cases :
    (m : SessionMode) (s : State)
    → ((i : ℕ) × (m ≡ case_mode i) × (noc_fabric s ≡ some i) × (disarm m s ≡ (ok tt, idle)))
      ⊎ ((disarm m s ≡ (err invalid, s)) × NotOf m (noc_fabric s))
unfolding disarm
disarm-cases m idle = inr (refl, λ i e. absurd cc)
disarm-cases m (armed c) = elim (noc-cases c.noc_state m) [
  | inl (i, same, noc, e) ↦ inl (i, same, noc, rw (e, disarm) refl)
  | inr (e, other) ↦ inr (rw (e, disarm) refl, other)
]
