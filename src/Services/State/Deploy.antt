-- ===== src/Services/State/Deploy.antt =====
-- oresat_c3/services/state.py: the antennas are fired a bounded number of times, and the deployment
-- comes to an end.
use oresat_c3_software_esi.Base.{
  ◌≡◌, inl, inr, refl, ap, ◌∙◌, Bool-cases, true, false, ◌&&◌, if◌then◌else◌, List, [], ◌∷◌, arith,
  ℕ, zero, suc, ◌+◌, ◌-◌, ◌*◌, ◌≤◌, ◌<◌, length,
}
use oresat_c3_software_esi.Services.State.Rules.{dispatch_rule, on_loop_rule}
use oresat_c3_software_esi.Services.State.{
  StateService, Env, Effect, deploy_antennas, stop_watchdog, hard_reset, store, deploy, standby,
  on_loop, run, has_tx_timed_out, dispatch, check_tx, finish_pass, store_state, on_pre_deploy,
  on_deploy, on_standby, on_beacon, on_edl, system_reset,
}

-- How often the antennas were fired.
abbrev pub firings : List Effect → ℕ
firings [] = 0
firings (deploy_antennas t b ∷ es) = suc (firings es)
firings (stop_watchdog ∷ es) = firings es
firings (hard_reset ∷ es) = firings es
firings (store ∷ es) = firings es

-- How often they may still be fired.
abbrev pub firings_left : StateService → ℕ
firings_left s = if s.deployed then 0 else s.attempts_obj - s.attempts

-- The firings made and left do not grow.
abbrev Spends : StateService → StateService → Type 0
Spends s s' = firings s'.effects + firings_left s' ≤ firings s.effects + firings_left s

finish_pass-Spends : (s : StateService) → Spends s (finish_pass s)
unfolding finish_pass store_state
finish_pass-Spends s = ground arith

on_pre_deploy-Spends : (env : Env) (s : StateService) → Spends s (on_pre_deploy env s)
unfolding on_pre_deploy
on_pre_deploy-Spends env s = ground arith

on_deploy-Spends : (env : Env) (s : StateService) → Spends s (on_deploy env s)
unfolding on_deploy
on_deploy-Spends env s = ground arith

system_reset-Spends : (env : Env) (s : StateService) → Spends s (system_reset env s)
unfolding system_reset
system_reset-Spends env s = ground arith

on_standby-Spends : (env : Env) (s : StateService) → Spends s (on_standby env s)
unfolding on_standby
on_standby-Spends env s = ground (arith, system_reset-Spends env s)

on_beacon-Spends : (env : Env) (s : StateService) → Spends s (on_beacon env s)
unfolding on_beacon
on_beacon-Spends env s = ground (arith, system_reset-Spends env s)

on_edl-Spends : (env : Env) (s : StateService) → Spends s (on_edl env s)
unfolding on_edl
on_edl-Spends env s = ground arith

finish-Spends : (s t : StateService) → Spends s t → Spends s (finish_pass t)
finish-Spends s t h = omega (arith, finish_pass-Spends t)

dispatch-Spends : (env : Env) (s : StateService) → Spends s (dispatch env s)
dispatch-Spends env s =
    dispatch_rule (Spends s) env s
      (λ _. finish-Spends s (on_pre_deploy env s) (on_pre_deploy-Spends env s))
      (λ _. finish-Spends s (on_deploy env s) (on_deploy-Spends env s))
      (λ _. finish-Spends s (on_standby env s) (on_standby-Spends env s))
      (λ _. finish-Spends s (on_beacon env s) (on_beacon-Spends env s))
      (λ _. finish-Spends s (on_edl env s) (on_edl-Spends env s)) (omega arith)

check_tx-Spends : (env : Env) (s : StateService) → Spends s (check_tx env s)
check_tx-Spends env s = ground arith

on_loop-Spends : (env : Env) (s : StateService) → Spends s (on_loop env s).1
on_loop-Spends env s =
    on_loop_rule (Spends s) env s (check_tx-Spends env s)
      (omega (arith, check_tx-Spends env s, dispatch-Spends env (check_tx env s)))

-- In any run the antennas are fired at most as often as attempts were left when it began: never
-- again once they are deployed.
pub run-firings :
    (envs : List Env) (s : StateService)
    → firings (run envs s).effects ≤ firings s.effects + firings_left s
unfolding run
run-firings [] s = omega arith
run-firings (env ∷ envs) s = omega (arith, run-firings envs (on_loop env s).1, on_loop-Spends env s)

-- The state in which the antennas wait to be deployed, with `n` attempts left.
pub record IsDeploying (n : ℕ) (s : StateService) : Type 0 where
  pub in_deploy : s.status ≡ deploy
  pub last_deploy : s.last_state ≡ deploy
  pub not_deployed : s.deployed ≡ false
  pub attempts_left : s.attempts + n ≡ s.attempts_obj

-- Each pass comes later than the timeout after the one before has fired.
abbrev pub IsSpaced : ℕ → ℕ → List Env → Type 0
IsSpaced timeout last [] = Unit
IsSpaced timeout last (env ∷ envs) =
    (last + timeout * 1000 < env.mono) × IsSpaced timeout env.mono_after envs

-- A pass in DEPLOY that finds no change of state to report.
deploy_pass :
    (env : Env) (s : StateService)
    → s.status ≡ deploy
    → s.last_state ≡ deploy
    → (on_loop env s).1 ≡ finish_pass (on_deploy env (check_tx env s))
unfolding on_loop dispatch
deploy_pass env s st la = elim (Bool-cases (has_tx_timed_out env.time s && s.tx_enable)) [
  | inl e ↦ rw (e, st, la) refl
  | inr e ↦ rw (e, st, la) refl
]

check_tx-keeps :
    (env : Env) (s : StateService)
    → let s' = check_tx env s in
      (s'.status ≡ s.status)
      × (s'.deployed ≡ s.deployed)
      × (s'.attempts ≡ s.attempts)
      × (s'.attempts_obj ≡ s.attempts_obj)
      × (s'.last_antennas_deploy ≡ s.last_antennas_deploy)
      × (s'.ant_reattempt_timeout ≡ s.ant_reattempt_timeout)
      × (s'.effects ≡ s.effects)
check_tx-keeps env s = ground arith

finish_pass-keeps :
    (s : StateService)
    → let s' = finish_pass s in
      (s'.status ≡ s.status)
      × (s'.last_state ≡ s.status)
      × (s'.deployed ≡ s.deployed)
      × (s'.attempts ≡ s.attempts)
      × (s'.attempts_obj ≡ s.attempts_obj)
      × (s'.last_antennas_deploy ≡ s.last_antennas_deploy)
      × (s'.ant_reattempt_timeout ≡ s.ant_reattempt_timeout)
      × (s'.control_mode ≡ s.control_mode)
      × (firings s'.effects ≡ firings s.effects)
unfolding finish_pass store_state
finish_pass-keeps s = ground arith

on_deploy_fires :
    (env : Env) (s : StateService)
    → s.deployed ≡ false
    → s.attempts < s.attempts_obj
    → s.last_antennas_deploy + s.ant_reattempt_timeout * 1000 < env.mono
    → let s' = on_deploy env s in
      (s'.status ≡ s.status)
      × (s'.deployed ≡ false)
      × (s'.attempts ≡ suc s.attempts)
      × (s'.attempts_obj ≡ s.attempts_obj)
      × (s'.last_antennas_deploy ≡ env.mono_after)
      × (s'.ant_reattempt_timeout ≡ s.ant_reattempt_timeout)
      × (firings s'.effects ≡ suc (firings s.effects))
unfolding on_deploy
on_deploy_fires env s d a t = ground arith

on_deploy_ends :
    (env : Env) (s : StateService)
    → s.attempts_obj ≤ s.attempts
    → let s' = on_deploy env s in
      (s'.status ≡ standby)
      × (s'.deployed ≡ true)
      × (s'.control_mode ≡ 3)
      × (firings s'.effects ≡ firings s.effects)
unfolding on_deploy
on_deploy_ends env s a = ground arith

-- A pass with an attempt left fires the antennas.
on_loop_fires :
    (n : ℕ) (env : Env) (s : StateService)
    → IsDeploying (suc n) s
    → s.last_antennas_deploy + s.ant_reattempt_timeout * 1000 < env.mono
    → let s' = (on_loop env s).1 in
      IsDeploying n s'
      × (s'.last_antennas_deploy ≡ env.mono_after)
      × (s'.ant_reattempt_timeout ≡ s.ant_reattempt_timeout)
      × (firings s'.effects ≡ suc (firings s.effects))
on_loop_fires n env s d later =
    let c = check_tx env s in
    let f = on_deploy env c in
    rw (deploy_pass env s d.in_deploy d.last_deploy) (
      let k = check_tx-keeps env s in
      let o =
        on_deploy_fires env c (k.1 ∙ d.not_deployed) (omega (arith, k, d.attempts_left))
          (omega (arith, k, later)) in
      let e = finish_pass-keeps f in
      (
        record {
          in_deploy = e.0 ∙ o.0 ∙ k.0 ∙ d.in_deploy;
          last_deploy = e.1 ∙ o.0 ∙ k.0 ∙ d.in_deploy;
          not_deployed = e.2 ∙ o.1;
          attempts_left = omega (arith, e, o, k, d.attempts_left);
        },
        omega (arith, e, o, k),
        omega (arith, e, o, k),
        omega (arith, e, o, ap firings k.6),
      ))

-- A pass with no attempt left ends the deployment.
on_loop_deployed :
    (env : Env) (s : StateService)
    → IsDeploying 0 s
    → let s' = (on_loop env s).1 in
      (s'.status ≡ standby)
      × (s'.deployed ≡ true)
      × (s'.control_mode ≡ 3)
      × (firings s'.effects ≡ firings s.effects)
on_loop_deployed env s d =
    let c = check_tx env s in
    rw (deploy_pass env s d.in_deploy d.last_deploy) (
      let k = check_tx-keeps env s in
      let o = on_deploy_ends env c (omega (arith, k, d.attempts_left)) in
      let e = finish_pass-keeps (on_deploy env c) in
      (e.0 ∙ o.0, e.2 ∙ o.1, omega (arith, e, o), omega (arith, e, o, ap firings k.6)))

-- With `n` attempts left, `n` passes that are far enough apart fire the antennas `n` times, and one
-- more pass ends the deployment: the satellite is in STANDBY, deployed, and set to detumble.
pub run_deploys :
    (n : ℕ) (envs : List Env) (end : Env) (s : StateService)
    → IsDeploying n s
    → length envs ≡ n
    → IsSpaced s.ant_reattempt_timeout s.last_antennas_deploy envs
    → let s' = (on_loop end (run envs s)).1 in
      (s'.status ≡ standby)
      × (s'.deployed ≡ true)
      × (s'.control_mode ≡ 3)
      × (firings s'.effects ≡ firings s.effects + n)
unfolding run
run_deploys n [] end s d e sp =
    let r = on_loop_deployed end s (rw e d) in (r.0, r.1, r.2, omega (arith, r.3, e))
run_deploys zero (env ∷ envs) end s d e sp = ground (arith, e)
run_deploys (suc n) (env ∷ envs) end s d e sp =
    let p = on_loop_fires n env s d sp.0 in
    let r = run_deploys n envs end (on_loop env s).1 p.0 (omega (arith, e)) (rw (p.1, p.2) sp.1) in
    (r.0, r.1, r.2, omega (arith, r.3, p.3))
