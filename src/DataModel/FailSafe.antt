-- ===== src/DataModel/FailSafe.antt =====
-- matter/src/data_model/sdm/failsafe.rs: the fail-safe context of commissioning. The lock around
-- the state is taken and released within each call, and is never poisoned.
pub mod Laws
pub mod Disarming
use matter_rs.Base.{
  ℕ, Bool, true, false, not, if◌then◌else◌, Result, ok, err, panic, Error, invalid, List, [], ◌∷◌,
}
use matter_rs.Base.Exec.{Exec, modify, pure, fail}
use matter_rs.Transport.SessionMode.{SessionMode, case_mode, mode_eq}

-- The number is the local fabric index.
pub data NocState : Type 0 where
  noc_not_recvd : NocState
  add_noc_recvd : ℕ → NocState
  update_noc_recvd : ℕ → NocState

pub record ArmedCtx : Type 0 where
  pub session_mode : SessionMode
  pub timeout : ℕ
  pub noc_state : NocState

pub data State : Type 0 where
  idle : State
  armed : ArmedCtx → State

unfoldable pub new : State
new = idle

unfoldable pub arm : ℕ → SessionMode → Exec State (Unit {0})
arm timeout mode idle =
    (ok tt, armed (record { session_mode = mode; timeout = timeout; noc_state = noc_not_recvd }))
arm timeout mode (armed c) =
    if not (mode_eq c.session_mode mode)
    then (err invalid, armed c)
    else (ok tt, armed (record c { timeout = timeout }))

-- The fabric whose NOC was added or updated must be that of the session.
abbrev disarm_noc : NocState → SessionMode → Result (Unit {0})
disarm_noc noc_not_recvd mode = err invalid
disarm_noc (add_noc_recvd idx) mode =
    if not (mode_eq (case_mode idx) mode) then err invalid else ok tt
disarm_noc (update_noc_recvd idx) mode =
    if not (mode_eq (case_mode idx) mode) then err invalid else ok tt

unfoldable pub disarm : SessionMode → Exec State (Unit {0})
disarm mode idle = (err invalid, idle)
disarm mode (armed c) = elim (disarm_noc c.noc_state mode) [
  | ok _ ↦ (ok tt, idle)
  | err e ↦ (err e, armed c)
  | panic ↦ (panic, armed c)
]

unfoldable pub is_armed : State → Bool
is_armed idle = false
is_armed (armed c) = true

abbrev is_not_recvd : NocState → Bool
is_not_recvd noc_not_recvd = true
is_not_recvd (add_noc_recvd i) = false
is_not_recvd (update_noc_recvd i) = false

unfoldable pub record_add_noc : ℕ → Exec State (Unit {0})
record_add_noc fabric_index idle = (err invalid, idle)
record_add_noc fabric_index (armed c) =
    if is_not_recvd c.noc_state
    then (ok tt, armed (record c { noc_state = add_noc_recvd fabric_index }))
    else (err invalid, armed c)

unfoldable pub allow_noc_change : State → Bool
allow_noc_change idle = false
allow_noc_change (armed c) = is_not_recvd c.noc_state

-- A call of the fail-safe.
pub data Call : Type 0 where
  arms : ℕ → SessionMode → Call
  disarms : SessionMode → Call
  adds_noc : ℕ → Call

unfoldable pub call : Call → Exec State (Unit {0})
unfolding arm disarm record_add_noc
call (arms timeout mode) s = arm timeout mode s
call (disarms mode) s = disarm mode s
call (adds_noc idx) s = record_add_noc idx s

-- The state after a history of calls, the latest call first.
unfoldable pub after : List Call → State → State
after [] s = s
after (c ∷ cs) s = (call c (after cs s)).1
