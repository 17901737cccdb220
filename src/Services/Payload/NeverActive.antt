-- ===== src/Services/Payload/NeverActive.antt =====
-- oresat_c3/services/payload.py: how far the Osiris payload comes.
use oresat_c3_software_esi.Base.{
  ℕ, zero, suc, ◌≡◌, ◌≢◌, refl, Bool, true, false, List, ◌∷◌, if◌then◌else◌, arith, replicate, ◌++◌,
  ap, ◌∙◌,
}
use oresat_c3_software_esi.Services.Payload.Osiris
use oresat_c3_software_esi.Services.Payload.PiPlasma.{NodeCall, disable}
use oresat_c3_software_esi.Services.Payload.Osiris.{Osiris, loop, run, returned, type_error}

abbrev Waits : Osiris → Type 0
Waits o = (o.timeout ≡ 0) × (o.state ≢ 3)

idle-Waits : (o : Osiris) → Waits o → Waits (Osiris.idle o)
unfolding Osiris.idle
idle-Waits o w = ground arith

startup-Waits : (o : Osiris) → Waits o → Waits (Osiris.startup o)
unfolding Osiris.startup
startup-Waits o w = ground arith

by_state-Waits : (k : ℕ) (o : Osiris) → k ≢ 3 → Waits o → Waits (Osiris.by_state k o).1
unfolding Osiris.by_state Osiris.bootup Osiris.shut_down Osiris.powersave
by_state-Waits k o n w = ground (arith, idle-Waits o w, startup-Waits o w)

acted_ne : (o : Osiris) → o.state ≢ 3 → Osiris.acted o ≢ 3
acted_ne o h = ground arith

ended-Waits : (k : ℕ) (p : Osiris.Outcome × Osiris) → Waits p.1 → Waits (Osiris.ended k p).1
ended-Waits k (returned, o) w = w
ended-Waits k (type_error, o) w = w
ended-Waits k (Osiris.scp_error, o) w = w

loop-Waits : (o : Osiris) → Waits o → Waits (loop o).1
unfolding loop
loop-Waits o w = by_mock o.mock
  where
    by_mock :
        (m : Bool)
        → Waits
            (if m
              then (returned, o)
              else Osiris.ended (Osiris.acted o) (Osiris.by_state (Osiris.acted o) o)).1
    by_mock true = w
    by_mock false =
        ended-Waits (Osiris.acted o) (Osiris.by_state (Osiris.acted o) o)
          (by_state-Waits (Osiris.acted o) o (acted_ne o w.1) w)

run-Waits : (n : ℕ) (o : Osiris) → Waits o → Waits (run n o)
unfolding run
run-Waits zero o w = w
run-Waits (suc n) o w = run-Waits n (loop o).1 (loop-Waits o w)

-- After any number of rounds of a new handler, whatever its card answers: the state is not 3, in which
-- alone the handler sends files and saves power.
pub run_never_active :
    (n state : ℕ) (file_register : List ℕ) (pwr_event mock : Bool) (readings : List ℕ)
    (scp_errors : List Bool)
    → (run n (Osiris.new state file_register pwr_event mock readings scp_errors)).state ≢ 3
run_never_active n state file_register pwr_event mock readings scp_errors =
    (run-Waits n (Osiris.new state file_register pwr_event mock readings scp_errors)
      (refl, ground arith)).1

-- The round in state 2, after the card came up, raises `TypeError` and leaves the handler as it was.
pub loop_bootup :
    (o : Osiris) → o.mock ≡ false → o.state ≡ 2 → o.timeout ≡ 0 → loop o ≡ (type_error, o)
unfolding loop Osiris.by_state Osiris.bootup
loop_bootup o live e t = ground arith

-- A handler that was told to stop (state 0) after any other state never goes idle again: every round
-- asks the node manager to disable the card once more.
repeated :
    (o : Osiris)
    → o.mock ≡ false
    → o.state ≡ 0
    → o.last_state_val ≢ 0
    → loop o ≡ (returned, record (Osiris.disable_card o) { state = 0; last_state_val = 4 })
unfolding loop Osiris.by_state Osiris.shut_down
repeated o live e l = ground arith

pub run_shutdown_repeats :
    (n : ℕ) (o : Osiris)
    → o.mock ≡ false
    → o.state ≡ 0
    → o.last_state_val ≢ 0
    → (run n o).node_calls ≡ replicate n disable ++ o.node_calls
unfolding run
run_shutdown_repeats zero o live e l = refl
run_shutdown_repeats (suc n) o live e l =
    ap (λ (p : Osiris.Outcome × Osiris). (run n p.1).node_calls) (repeated o live e l)
    ∙ run_shutdown_repeats n stopped live refl (omega arith)
    ∙ snoc n o.node_calls
  where
    stopped : Osiris
    stopped = record (Osiris.disable_card o) { state = 0; last_state_val = 4 }

    snoc :
        (n : ℕ) (cs : List NodeCall)
        → replicate n disable ++ (disable ∷ cs) ≡ disable ∷ (replicate n disable ++ cs)
    snoc zero cs = refl
    snoc (suc n) cs = ap (λ t. disable ∷ t) (snoc n cs)
