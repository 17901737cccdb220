-- ===== src/Services/State/Transmit.antt =====
-- oresat_c3/services/state.py: when the transmitter is on, and when the satellite beacons.
use oresat_c3_software_esi.Base.{
  ◌≡◌, ◌≢◌, refl, sym, ◌∙◌, Bool, false, not, ◌&&◌, arith, ◌+◌, ◌*◌, ◌/◌, leb,
}
use oresat_c3_software_esi.Services.State.Rules.{dispatch_rule, on_loop_rule}
use oresat_c3_software_esi.Services.State.Diagram.{
  finish_pass-status, check_tx-status, system_reset-status,
}
use oresat_c3_software_esi.Services.State.{
  StateService, Env, pre_deploy, beacon, on_loop, dispatch, check_tx, finish_pass, store_state,
  on_pre_deploy, on_deploy, on_standby, on_beacon, on_edl, system_reset, write_tx_enable,
  has_tx_timed_out, has_edl_timed_out,
}

finish_pass-tx : (s : StateService) → (finish_pass s).tx_enable ≡ s.tx_enable
unfolding finish_pass store_state
finish_pass-tx s = ground arith

on_deploy-tx : (env : Env) (s : StateService) → (on_deploy env s).tx_enable ≡ s.tx_enable
unfolding on_deploy
on_deploy-tx env s = ground arith

system_reset-tx : (env : Env) (s : StateService) → (system_reset env s).tx_enable ≡ s.tx_enable
unfolding system_reset
system_reset-tx env s = ground arith

on_standby-tx : (env : Env) (s : StateService) → (on_standby env s).tx_enable ≡ s.tx_enable
unfolding on_standby
on_standby-tx env s = ground (arith, system_reset-tx env s)

on_beacon-tx : (env : Env) (s : StateService) → (on_beacon env s).tx_enable ≡ s.tx_enable
unfolding on_beacon
on_beacon-tx env s = ground (arith, system_reset-tx env s)

on_edl-tx : (env : Env) (s : StateService) → (on_edl env s).tx_enable ≡ s.tx_enable
unfolding on_edl
on_edl-tx env s = ground arith

dispatch-tx :
    (env : Env) (s : StateService)
    → s.status ≢ pre_deploy
    → (dispatch env s).tx_enable ≡ s.tx_enable
dispatch-tx env s h =
    dispatch_rule (λ t. t.tx_enable ≡ s.tx_enable) env s (λ e. absurd (h e))
      (λ _. finish_pass-tx (on_deploy env s) ∙ on_deploy-tx env s)
      (λ _. finish_pass-tx (on_standby env s) ∙ on_standby-tx env s)
      (λ _. finish_pass-tx (on_beacon env s) ∙ on_beacon-tx env s)
      (λ _. finish_pass-tx (on_edl env s) ∙ on_edl-tx env s) refl

-- Outside PRE_DEPLOY a pass of the loop leaves the transmitter on exactly if it was on and the
-- timeout of the transmitter has not passed at the start of the pass.
pub on_loop-tx :
    (env : Env) (s : StateService)
    → s.status ≢ pre_deploy
    → (on_loop env s).1.tx_enable ≡ (s.tx_enable && not (has_tx_timed_out env.time s))
on_loop-tx env s h =
    on_loop_rule (λ t. t.tx_enable ≡ (s.tx_enable && not (has_tx_timed_out env.time s))) env s
      (ground arith)
      (ground
        (arith, dispatch-tx env (check_tx env s) (λ e. h (sym (check_tx-status env s).0 ∙ e))))

-- After the write of an SDO to the enable object, a pass outside PRE_DEPLOY leaves the transmitter
-- on exactly if the write was true and the pass begins no later than the timeout after the whole
-- second of the write.
pub on_loop-write_tx_enable :
    (before env : Env) (enable : Bool) (s : StateService)
    → s.status ≢ pre_deploy
    → (on_loop env (write_tx_enable before enable s)).1.tx_enable
      ≡ (enable && leb env.time ((before.time / 1000 + s.tx_timeout) * 1000))
unfolding write_tx_enable
on_loop-write_tx_enable before env enable s h =
    on_loop-tx env (write_tx_enable before enable s) h ∙ ground arith

-- The transmitter may send, and no EDL packet is recent.
abbrev pub MayBeacon : Env → StateService → Type 0
MayBeacon env s =
    (has_tx_timed_out env.time_then s ≡ false) × (has_edl_timed_out env.time_then s ≡ false)

on_pre_deploy-MayBeacon :
    (env : Env) (s : StateService)
    → s.status ≢ beacon
    → (on_pre_deploy env s).status ≡ beacon
    → MayBeacon env s
unfolding on_pre_deploy
on_pre_deploy-MayBeacon env s h e = ground arith

on_deploy-MayBeacon :
    (env : Env) (s : StateService)
    → s.status ≢ beacon
    → (on_deploy env s).status ≡ beacon
    → MayBeacon env s
unfolding on_deploy
on_deploy-MayBeacon env s h e = ground arith

on_standby-MayBeacon :
    (env : Env) (s : StateService)
    → s.status ≢ beacon
    → (on_standby env s).status ≡ beacon
    → MayBeacon env s
unfolding on_standby
on_standby-MayBeacon env s h e = ground (arith, system_reset-status env s)

on_edl-MayBeacon :
    (env : Env) (s : StateService)
    → s.status ≢ beacon
    → (on_edl env s).status ≡ beacon
    → MayBeacon env s
unfolding on_edl
on_edl-MayBeacon env s h e = ground arith

dispatch-MayBeacon :
    (env : Env) (s : StateService)
    → s.status ≢ beacon
    → (dispatch env s).status ≡ beacon
    → MayBeacon env s
dispatch-MayBeacon env s h =
    let done : (t : StateService) → (finish_pass t).status ≡ beacon → t.status ≡ beacon =
      λ t e. sym (finish_pass-status t).0 ∙ e in
    dispatch_rule (λ t. t.status ≡ beacon → MayBeacon env s) env s
      (λ _ e. on_pre_deploy-MayBeacon env s h (done (on_pre_deploy env s) e))
      (λ _ e. on_deploy-MayBeacon env s h (done (on_deploy env s) e))
      (λ _ e. on_standby-MayBeacon env s h (done (on_standby env s) e)) (λ b _. absurd (h b))
      (λ _ e. on_edl-MayBeacon env s h (done (on_edl env s) e)) (λ e. ground (arith, e))

-- A pass that enters BEACON found the timeout of the transmitter not passed and no recent EDL
-- packet.
pub on_loop-MayBeacon :
    (env : Env) (s : StateService)
    → s.status ≢ beacon
    → (on_loop env s).1.status ≡ beacon
    → MayBeacon env s
on_loop-MayBeacon env s h =
    let keeps = (check_tx-status env s).0 in
    on_loop_rule (λ t. t.status ≡ beacon → MayBeacon env s) env s (λ e. absurd (h (sym keeps ∙ e)))
      (λ e. ground (arith, dispatch-MayBeacon env (check_tx env s) (λ b. h (sym keeps ∙ b)) e))
