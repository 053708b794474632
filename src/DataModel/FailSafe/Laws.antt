-- ===== src/DataModel/FailSafe/Laws.antt =====
-- matter/src/data_model/sdm/failsafe.rs: what a history of calls can do.
use matter_rs.Base.{
  ℕ, ◌≡◌, refl, sym, ap, subst, ◌∙◌, inl, inr, true, false, List, [], ◌∷◌, Result, ok, err, panic,
  Bool-cases, Error, invalid, arith,
}
use matter_rs.Transport.SessionMode.{SessionMode, case_mode, mode_eq, mode_eq→eq}
use matter_rs.DataModel.FailSafe.{
  State, idle, armed, ArmedCtx, NocState, noc_not_recvd, add_noc_recvd, update_noc_recvd, Call,
  arms, disarms, adds_noc, call, disarm, is_armed, allow_noc_change, new, after, disarm_noc,
  is_not_recvd,
}

-- A call that fails changes nothing.
pub failed_call : (c : Call) (s : State) (e : Error) → (call c s).0 ≡ err e → (call c s).1 ≡ s
unfolding call
failed_call (arms t m) idle e h = cc
failed_call (arms t m) (armed c) e h = ground arith
failed_call (disarms m) idle e h = refl
failed_call (disarms m) (armed c) e h = ground arith
failed_call (adds_noc i) idle e h = refl
failed_call (adds_noc i) (armed c) e h = ground arith

-- In a history of calls on a new fail-safe, the latest first, the NOC of the fabric was recorded with
-- success, and the fail-safe has been armed ever since.
pub data Added (idx : ℕ) : List Call → Type 0 where
  now :
      (cs : List Call)
      → (call (adds_noc idx) (after cs new)).0 ≡ ok tt
      → Added idx (adds_noc idx ∷ cs)
  before :
      (d : Call) {cs : List Call}
      → is_armed (after (d ∷ cs) new) ≡ true
      → Added idx cs
      → Added idx (d ∷ cs)

abbrev RecordedNoc : NocState → List Call → Type 0
RecordedNoc noc_not_recvd cs = Unit {0}
RecordedNoc (add_noc_recvd i) cs = Added i cs
RecordedNoc (update_noc_recvd i) cs = ⊥

-- A recorded NOC was added in the history; none is ever recorded as updated.
abbrev Recorded : State → List Call → Type 0
Recorded idle cs = Unit {0}
Recorded (armed c) cs = RecordedNoc c.noc_state cs

RecordedNoc-cons :
    (n : NocState) (d : Call) (cs : List Call)
    → is_armed (after (d ∷ cs) new) ≡ true
    → RecordedNoc n cs
    → RecordedNoc n (d ∷ cs)
RecordedNoc-cons noc_not_recvd d cs on r = tt
RecordedNoc-cons (add_noc_recvd i) d cs on r = before d on r
RecordedNoc-cons (update_noc_recvd i) d cs on r = r

-- What a call makes of an armed fail-safe: the same NOC, idle, or a NOC that it adds with success.
data Step (c : ArmedCtx) (d : Call) (s : State) : Type 0 where
  keeps : (c' : ArmedCtx) → s ≡ armed c' → c'.noc_state ≡ c.noc_state → Step c d s
  ends : s ≡ idle → Step c d s
  records :
      (i : ℕ) (c' : ArmedCtx)
      → d ≡ adds_noc i
      → s ≡ armed c'
      → c'.noc_state ≡ add_noc_recvd i
      → (call (adds_noc i) (armed c)).0 ≡ ok tt
      → Step c d s

disarm-Step :
    (c : ArmedCtx) (m : SessionMode) (r : Result (Unit {0}))
    → disarm_noc c.noc_state m ≡ r
    → Step c (disarms m) (disarm m (armed c)).1
unfolding disarm
disarm-Step c m (ok x) e = ends (rw (e, disarm) refl)
disarm-Step c m (err x) e = keeps c (rw (e, disarm) refl) refl
disarm-Step c m panic e = keeps c (rw (e, disarm) refl) refl

call-Step : (c : ArmedCtx) (d : Call) → Step c d (call d (armed c)).1
unfolding call
call-Step c (arms t m) = elim (Bool-cases (mode_eq c.session_mode m)) [
  | inl e ↦ keeps (record c { timeout = t }) (rw e refl) refl
  | inr e ↦ keeps c (rw e refl) refl
]
call-Step c (disarms m) = disarm-Step c m (disarm_noc c.noc_state m) refl
call-Step c (adds_noc i) = elim (Bool-cases (is_not_recvd c.noc_state)) [
  | inl e ↦ records i (record c { noc_state = add_noc_recvd i }) refl (rw e refl) refl (rw e refl)
  | inr e ↦ keeps c (rw e refl) refl
]

Step-Recorded :
    (c : ArmedCtx) (d : Call) (s : State) (cs : List Call)
    → after cs new ≡ armed c
    → after (d ∷ cs) new ≡ s
    → Step c d s
    → RecordedNoc c.noc_state cs
    → Recorded s (d ∷ cs)
unfolding is_armed
Step-Recorded c d s cs was is (keeps c' e same) r =
    subst (λ x. Recorded x (d ∷ cs)) (sym e)
      (RecordedNoc-cons c'.noc_state d cs (ap is_armed (is ∙ e))
        (subst (λ n. RecordedNoc n cs) (sym same) r))
Step-Recorded c d s cs was is (ends e) r = subst (λ x. Recorded x (d ∷ cs)) (sym e) tt
Step-Recorded c d s cs was is (records i c' which e noc done) r =
    subst (λ x. Recorded x (d ∷ cs)) (sym e)
      (subst (λ n. RecordedNoc n (d ∷ cs)) (sym noc)
        (subst (λ x. Added i (x ∷ cs)) (sym which)
          (now cs (ap (λ x. (call (adds_noc i) x).0) was ∙ done))))

-- Nothing is recorded in a fail-safe that has only just been armed.
idle-Recorded : (d : Call) (cs : List Call) → Recorded (call d idle).1 (d ∷ cs)
unfolding call
idle-Recorded (arms t m) cs = tt
idle-Recorded (disarms m) cs = tt
idle-Recorded (adds_noc i) cs = tt

after-Recorded : (cs : List Call) → Recorded (after cs new) cs
unfolding after new
after-Recorded [] = tt
after-Recorded (d ∷ cs) = at (after cs new) refl (after-Recorded cs)
  where
    at : (s : State) → after cs new ≡ s → Recorded s cs → Recorded (call d s).1 (d ∷ cs)
    at idle e r = idle-Recorded d cs
    at (armed c) e r =
        Step-Recorded c d (call d (armed c)).1 cs e (ap (λ x. (call d x).1) e) (call-Step c d) r

disarm_noc-ok :
    (n : NocState) (mode : SessionMode) (cs : List Call)
    → disarm_noc n mode ≡ ok tt
    → RecordedNoc n cs
    → (idx : ℕ) × (mode ≡ case_mode idx) × Added idx cs
disarm_noc-ok noc_not_recvd mode cs h r = cc
disarm_noc-ok (add_noc_recvd i) mode cs h r =
    (i, sym (mode_eq→eq (case_mode i) mode (ground arith)), r)
disarm_noc-ok (update_noc_recvd i) mode cs h r = absurd r

disarm-ok :
    (s : State) (mode : SessionMode) (cs : List Call)
    → (call (disarms mode) s).0 ≡ ok tt
    → Recorded s cs
    → (idx : ℕ) × (mode ≡ case_mode idx) × Added idx cs
unfolding call
disarm-ok idle mode cs h r = cc
disarm-ok (armed c) mode cs h r = disarm_noc-ok c.noc_state mode cs (ground arith) r

-- After any history of calls, a fail-safe that was new at first is disarmed with success only in a
-- CASE session, and only on the fabric of a NOC that was recorded with success in the history, since
-- when the fail-safe has been armed.
pub disarm-adds_noc :
    (cs : List Call) (mode : SessionMode)
    → (call (disarms mode) (after cs new)).0 ≡ ok tt
    → (idx : ℕ) × (mode ≡ case_mode idx) × Added idx cs
disarm-adds_noc cs mode h = disarm-ok (after cs new) mode cs h (after-Recorded cs)

abbrev pub NoDisarm : List Call → Type 0
NoDisarm [] = Unit {0}
NoDisarm (arms t m ∷ cs) = NoDisarm cs
NoDisarm (disarms m ∷ cs) = ⊥
NoDisarm (adds_noc i ∷ cs) = NoDisarm cs

-- Armed, with a NOC recorded.
abbrev Locked : State → Type 0
Locked idle = ⊥
Locked (armed c) = is_not_recvd c.noc_state ≡ false

arm-Locked : (t : ℕ) (m : SessionMode) (s : State) → Locked s → Locked (call (arms t m) s).1
unfolding call
arm-Locked t m idle k = absurd k
arm-Locked t m (armed c) k = ground arith

add-Locked : (i : ℕ) (s : State) → Locked s → Locked (call (adds_noc i) s).1
unfolding call
add-Locked i idle k = absurd k
add-Locked i (armed c) k = ground arith

first-Locked :
    (i : ℕ) (s : State) → (call (adds_noc i) s).0 ≡ ok tt → Locked (call (adds_noc i) s).1
unfolding call
first-Locked i idle h = cc
first-Locked i (armed c) h = ground arith

after-Locked : (cs : List Call) (s : State) → NoDisarm cs → Locked s → Locked (after cs s)
unfolding after
after-Locked [] s n k = k
after-Locked (arms t m ∷ cs) s n k = arm-Locked t m (after cs s) (after-Locked cs s n k)
after-Locked (disarms m ∷ cs) s n k = absurd n
after-Locked (adds_noc i ∷ cs) s n k = add-Locked i (after cs s) (after-Locked cs s n k)

Locked-refuses :
    (s : State) (j : ℕ)
    → Locked s
    → (is_armed s ≡ true) × (allow_noc_change s ≡ false) × ((call (adds_noc j) s).0 ≡ err invalid)
unfolding is_armed allow_noc_change call
Locked-refuses idle j k = absurd k
Locked-refuses (armed c) j k = ground arith

-- Once a NOC is added, no other is accepted until the fail-safe is disarmed, whatever else is
-- called and however often it is armed again.
pub one_noc :
    (s : State) (i j : ℕ) (cs : List Call)
    → (call (adds_noc i) s).0 ≡ ok tt
    → NoDisarm cs
    → (is_armed (after cs (call (adds_noc i) s).1) ≡ true)
      × (allow_noc_change (after cs (call (adds_noc i) s).1) ≡ false)
      × ((call (adds_noc j) (after cs (call (adds_noc i) s).1)).0 ≡ err invalid)
one_noc s i j cs h n =
    Locked-refuses (after cs (call (adds_noc i) s).1) j
      (after-Locked cs (call (adds_noc i) s).1 n (first-Locked i s h))
