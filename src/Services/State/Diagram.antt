-- ===== src/Services/State/Diagram.antt =====
-- oresat_c3/services/state.py: the changes of state that a pass of the loop can make.
use oresat_c3_software_esi.Base.{
  ◌≡◌, ◌≢◌, ◌↔◌, ◌⊎◌, inl, inr, ap, ◌∙◌, Bool-cases, Bool, true, false, ◌&&◌, ◌||◌, ◌==◌,
  if◌then◌else◌, List, [], ◌∷◌, arith, ℕ,
}
use oresat_c3_software_esi.Services.State.{
  StateService, Env, offline, pre_deploy, deploy, standby, beacon, edl, is_state, ok, value_error,
  on_loop, on_start, run, raises_value_error, dispatch, finish_pass, store_state, on_pre_deploy,
  on_deploy, on_standby, on_beacon, on_edl, system_reset, check_tx,
}

-- The diagram of the main state machine: may a pass lead from one state to the other?
abbrev pub allowed : ℕ → ℕ → Bool
allowed a b =
    if a == offline
    then b == pre_deploy
    else if a == pre_deploy
    then b == pre_deploy || b == deploy
    else if a == deploy
    then b == deploy || b == standby
    else (a == standby || a == beacon || a == edl) && (b == standby || b == beacon || b == edl)

pub finish_pass-status :
    (s : StateService)
    → ((finish_pass s).status ≡ s.status) × ((finish_pass s).last_state ≡ s.status)
unfolding finish_pass store_state
finish_pass-status s = ground arith

on_pre_deploy-status :
    (env : Env) (s : StateService)
    → ((on_pre_deploy env s).status ≡ s.status) ⊎ ((on_pre_deploy env s).status ≡ deploy)
unfolding on_pre_deploy
on_pre_deploy-status env s = ground arith

on_deploy-status :
    (env : Env) (s : StateService)
    → ((on_deploy env s).status ≡ s.status) ⊎ ((on_deploy env s).status ≡ standby)
unfolding on_deploy
on_deploy-status env s = ground arith

pub system_reset-status : (env : Env) (s : StateService) → (system_reset env s).status ≡ s.status
unfolding system_reset
system_reset-status env s = ground arith

-- One of the three states of the active satellite.
abbrev is_active : ℕ → Bool
is_active v = v == standby || v == beacon || v == edl

on_standby-status :
    (env : Env) (s : StateService)
    → is_active s.status ≡ true
    → is_active (on_standby env s).status ≡ true
unfolding on_standby
on_standby-status env s h = ground (arith, system_reset-status env s)

on_beacon-status :
    (env : Env) (s : StateService)
    → is_active s.status ≡ true
    → is_active (on_beacon env s).status ≡ true
unfolding on_beacon
on_beacon-status env s h = ground (arith, system_reset-status env s)

on_edl-status :
    (env : Env) (s : StateService)
    → is_active s.status ≡ true
    → is_active (on_edl env s).status ≡ true
unfolding on_edl
on_edl-status env s h = ground arith

dispatch-allowed :
    (env : Env) (s : StateService)
    → is_state s.status ≡ true
    → let s' = dispatch env s in (allowed s.status s'.status ≡ true) × (s'.last_state ≡ s'.status)
unfolding dispatch
dispatch-allowed env s h = ground (
  arith,
  finish_pass-status (on_pre_deploy env s),
  finish_pass-status (on_deploy env s),
  finish_pass-status (on_standby env s),
  finish_pass-status (on_beacon env s),
  finish_pass-status (on_edl env s),
  on_pre_deploy-status env s,
  on_deploy-status env s,
  on_standby-status env s,
  on_beacon-status env s,
  on_edl-status env s,
)

pub check_tx-status :
    (env : Env) (s : StateService)
    → ((check_tx env s).status ≡ s.status) × ((check_tx env s).last_state ≡ s.last_state)
check_tx-status env s = ground arith

allowed-is_state : (a b : ℕ) → allowed a b ≡ true → is_state b ≡ true
allowed-is_state a b h = ground arith

-- A pass that does not raise follows the diagram, and records the new state as the last one.
pub on_loop-allowed :
    (env : Env) (s : StateService)
    → is_state s.status ≡ true
    → (on_loop env s).0 ≡ ok
    → let s' = (on_loop env s).1 in
      (allowed s.status s'.status ≡ true) × (s'.last_state ≡ s'.status)
unfolding on_loop
on_loop-allowed env s h e =
    let t = check_tx env s in
    let (same, last) = check_tx-status env s in
    let (step, new_last) = dispatch-allowed env t (ap is_state same ∙ h) in
    elim (Bool-cases (raises_value_error t)) [
      | inl r ↦ let e' : value_error ≡ ok = rw r at e in cc
      | inr r ↦ rw r (rw same at step, new_last)
    ]

-- A pass raises exactly if the status was changed and it, or the last state, is no state at all;
-- then the status is left as it was, and is not reset to PRE_DEPLOY.
pub on_loop-value_error :
    (env : Env) (s : StateService)
    → is_state s.last_state ≡ true
    → let (r, s') = on_loop env s in
      ((r ≡ value_error) ↔ (is_state s.status ≡ false)) × (r ≡ value_error → s'.status ≡ s.status)
unfolding on_loop
on_loop-value_error env s h =
    let t = check_tx env s in let (same, last) = check_tx-status env s in ground (arith, same, last)

-- Between two passes the last state is the status, and it is a state.
abbrev pub IsValid : StateService → Type 0
IsValid s = (is_state s.status ≡ true) × (s.last_state ≡ s.status)

on_start-IsValid :
    (env : Env) (s : StateService) → IsValid (on_start env s) × ((on_start env s).status ≢ edl)
unfolding on_start
on_start-IsValid env s = ground arith

-- A pass of a valid service does not raise, and leaves it valid.
pub on_loop-IsValid :
    (env : Env) (s : StateService)
    → IsValid s
    → ((on_loop env s).0 ≡ ok) × IsValid (on_loop env s).1
on_loop-IsValid env s (state, last) =
    let faults = on_loop-value_error env s (ap is_state last ∙ state) in
    let e : (on_loop env s).0 ≡ ok = ground (arith, faults, state) in
    let (step, new_last) = on_loop-allowed env s state e in
    (e, (allowed-is_state s.status (on_loop env s).1.status step, new_last))

run-IsValid : (envs : List Env) (s : StateService) → IsValid s → IsValid (run envs s)
unfolding run
run-IsValid [] s h = h
run-IsValid (env ∷ envs) s h = run-IsValid envs (on_loop env s).1 (on_loop-IsValid env s h).1

-- Whatever was restored from the F-RAM, the service starts in a state other than EDL, and after any
-- number of passes its status is a state and the last state is that status.
pub started-IsValid :
    (env : Env) (envs : List Env) (s : StateService)
    → ((on_start env s).status ≢ edl) × IsValid (run envs (on_start env s))
started-IsValid env envs s =
    let (v, e) = on_start-IsValid env s in (e, run-IsValid envs (on_start env s) v)
