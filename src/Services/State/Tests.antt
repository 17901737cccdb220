-- ===== src/Services/State/Tests.antt =====
-- oresat_c3/services/state.py: runs at fixed values.
use oresat_c3_software_esi.Base.{
  List, map, length-replicate, replicate, ◌≡◌, refl, true, false, not, ◌&&◌, [], ◌∷◌, arith, ℕ, ◌+◌,
  ◌≤◌,
}
use oresat_c3_software_esi.Drivers.Fm24cl64b.{Fm24cl64b, size}
use oresat_c3_software_esi.Drivers.Fm24cl64b.RoundTrip.{IsReady}
use oresat_c3_software_esi.Services.State.Fram
use oresat_c3_software_esi.Services.State.Fram.{
  FramObj, domain, octet_string, encoded, restore_state, clear_state,
}
use oresat_c3_software_esi.Services.State.Fram.Held.{restart, recovered}
use oresat_c3_software_esi.Services.State.Fram.RoundTrip.{restore_state-store_state}
use oresat_c3_software_esi.Services.State.Fram.Zeroed.{zeroed}
use oresat_c3_software_esi.Services.State.Fram.Keys.{restore_state-clear_state}
use oresat_c3_software_esi.Services.State.Diagram.{allowed, on_loop-allowed}
use oresat_c3_software_esi.Services.State.Deploy.{firings, run-firings, run_deploys}
use oresat_c3_software_esi.Services.State.Transmit.{on_loop-tx}
use oresat_c3_software_esi.Services.State.{
  StateService, Env, pre_deploy, deploy, standby, beacon, on_loop, run, dispatch, finish_pass,
  store_state, on_pre_deploy, on_standby, write_tx_enable, has_tx_timed_out,
}

-- the defaults of the object dictionary that the machine reads, in the state `status`
abbrev service : ℕ → StateService
service status = record {
  status = status;
  last_state = status;
  attempts = 0;
  loops = 0;
  last_antennas_deploy = 0;
  start_time = 0;
  reset_timeout = 86400;
  attempts_obj = 2;
  deployed = false;
  pre_deploy_timeout = 2700;
  ant_attempt_timeout = 10;
  ant_attempt_between_timeout = 5;
  ant_reattempt_timeout = 300;
  tx_timeout = 3600;
  tx_enable = false;
  last_tx_enable = 0;
  last_edl = 0;
  edl_timeout = 600;
  control_mode = 0;
  flight_mode = true;
  effects = [];
}

-- a pass at this monotonic time, with the clock a day ahead
abbrev at : ℕ → Env
at mono = record {
  time = mono + 86400000;
  time_then = mono + 86400000;
  mono = mono;
  mono_after = mono + 15000;
  is_root = true;
  is_updating = false;
  watchdog_stops = true;
}

-- forty-six minutes of PRE_DEPLOY end in DEPLOY
pre_deploy_ends : (run (at 1000 ∷ at 2760000 ∷ []) (service pre_deploy)).status ≡ deploy
unfolding run on_loop dispatch on_pre_deploy finish_pass store_state
pre_deploy_ends = refl

-- a fresh transmit window leads from STANDBY to BEACON
beacon_starts :
    (on_loop (at 1000) (write_tx_enable (at 0) true (service standby))).1.status ≡ beacon
unfolding on_loop dispatch on_standby finish_pass store_state write_tx_enable
beacon_starts = refl

on_loop-allowed_example :
    let s' = (on_loop (at 2760000) (service pre_deploy)).1 in
    (allowed pre_deploy s'.status ≡ true) × (s'.last_state ≡ s'.status)
unfolding on_loop
on_loop-allowed_example = on_loop-allowed (at 2760000) (service pre_deploy) refl refl

run-firings_example :
    firings (run (at 400000 ∷ at 800000 ∷ at 1200000 ∷ []) (service deploy)).effects ≤ 2
run-firings_example = run-firings (at 400000 ∷ at 800000 ∷ at 1200000 ∷ []) (service deploy)

run_deploys_example :
    let s' = (on_loop (at 900000) (run (at 400000 ∷ at 800000 ∷ []) (service deploy))).1 in
    (s'.status ≡ standby)
    × (s'.deployed ≡ true)
    × (s'.control_mode ≡ 3)
    × (firings s'.effects ≡ 0 + 2)
run_deploys_example =
    run_deploys 2 (at 400000 ∷ at 800000 ∷ []) (at 900000) (service deploy)
      (record { in_deploy = refl; last_deploy = refl; not_deployed = refl; attempts_left = refl })
      refl (omega arith, (omega arith, tt))

on_loop-tx_example :
    (on_loop (at 4000000) (record (service standby) { tx_enable = true })).1.tx_enable
    ≡ (true && not (has_tx_timed_out 90400000 (service standby)))
on_loop-tx_example =
    on_loop-tx (at 4000000) (record (service standby) { tx_enable = true }) (omega arith)

-- an empty chip
abbrev empty_fram : Fm24cl64b
empty_fram = record { addr = 0x50; mock = false; memory = replicate size 0; bus_errors = [] }

empty_fram-IsReady : IsReady empty_fram
empty_fram-IsReady = record { full = length-replicate {A = ℕ} size 0; quiet = refl }

abbrev status_obj : FramObj
status_obj = record {
  data_type = encoded;
  is_status = true;
  is_key = false;
  value = 68 ∷ [];
  default = 66 ∷ [];
}

-- a status, a domain and a key of two bytes
abbrev fram_objs : List FramObj
fram_objs =
    status_obj
    ∷ record { data_type = domain; is_status = false; is_key = false; value = []; default = [] }
    ∷ record {
      data_type = octet_string;
      is_status = false;
      is_key = true;
      value = 7 ∷ 9 ∷ [];
      default = 0 ∷ 0 ∷ [];
    }
    ∷ []

restore_state-store_state_example :
    let (stored, fram') = Fram.store_state standby fram_objs empty_fram in
    let (restored, objs', _) = restore_state (map restart fram_objs) fram' in
    (stored ≡ true) × (restored ≡ true) × (objs' ≡ map recovered fram_objs)
restore_state-store_state_example =
    restore_state-store_state standby fram_objs empty_fram refl
      (λ _. (omega arith, refl), (λ h. cc, (λ _. (omega arith, refl), tt))) (omega arith)
      empty_fram-IsReady

restore_state-clear_state_example :
    let (cleared, fram') = clear_state fram_objs empty_fram in
    let (restored, objs', _) = restore_state (map restart fram_objs) fram' in
    (cleared ≡ true) × (restored ≡ true) × (objs' ≡ map recovered (map zeroed fram_objs))
restore_state-clear_state_example =
    restore_state-clear_state fram_objs empty_fram
      (λ _. (omega arith, refl), (λ h. cc, (λ _. (omega arith, refl), tt))) (omega arith)
      empty_fram-IsReady
