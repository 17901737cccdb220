-- ===== src/Services/Radios/Boot.antt =====
-- oresat_c3/services/radios.py: how the S-band radio boots and gives up, over any calls of it.
use oresat_c3_software_esi.Base.{
  ℕ, ◌≤◌, ◌<◌, ◌≡◌, refl, Bool, true, false, Option, none, some, List, [], ◌∷◌, ◌==◌, if◌then◌else◌,
  arith,
}
use oresat_c3_software_esi.Services.Radios.Sband
use oresat_c3_software_esi.Services.Radios.Sband.{
  SbandState, off, no_heartbeat, starting, ready, stopping, error, Command, node_enable,
  node_disable, power_on, power_off, send_cache, Outcome, returned, attribute_error, SbandRadio,
  written, sdo_fault_limit, count_fault,
}

-- How far the commands have brought the SDR, from the newest one back: 0 without power, 1 with
-- power, 2 told to start its radio.
abbrev pub progress : List Command → ℕ
progress [] = 0
progress (node_enable ∷ cs) = 1
progress (node_disable ∷ cs) = 0
progress (power_on ∷ cs) = if progress cs == 0 then 0 else 2
progress (power_off ∷ cs) = if progress cs == 0 then 0 else 1
progress (send_cache ∷ cs) = progress cs

-- What a state says of the failed SDO transfers and of the commands. The transfer that starts the
-- SDR's radio may be the fifth that failed: state 1 goes on to state 2 whatever it did.
abbrev pub Fits : SbandState → ℕ → List Command → Type 0
Fits off faults cs = (faults < sdo_fault_limit) × (progress cs ≡ 0)
Fits no_heartbeat faults cs = (faults < sdo_fault_limit) × (progress cs ≡ 1)
Fits starting faults cs = (faults ≤ sdo_fault_limit) × (progress cs ≡ 2)
Fits ready faults cs = (faults ≤ sdo_fault_limit) × (progress cs ≡ 2)
Fits stopping faults cs = ⊥
Fits error faults cs = Unit

abbrev pub IsValid : SbandRadio → Type 0
IsValid r = Fits r.state r.sdo_fault r.commands

pub data Call : Type 0 where
  enable disable send_queued_messages is_rf_ok rf_reset : Call

unfoldable pub call : Call → SbandRadio → SbandRadio
unfolding Sband.enable Sband.disable Sband.send_queued_messages
call enable r = (Sband.enable r).1
call disable r = Sband.disable r
call send_queued_messages r = (Sband.send_queued_messages r).1
call is_rf_ok r = (Sband.is_rf_ok r).1
call rf_reset r = Sband.rf_reset r

unfoldable pub run : List Call → SbandRadio → SbandRadio
run [] r = r
run (c ∷ cs) r = run cs (call c r)

written-Fits :
    (s : SbandState) (errors : List Bool) (r : SbandRadio)
    → r.state ≡ s
    → Fits s r.sdo_fault r.commands
    → IsValid (written errors r)
written-Fits s [] r e v = rw e v
written-Fits s (false ∷ errors) r e v = rw e v
written-Fits off (true ∷ errors) r e v = ground arith
written-Fits no_heartbeat (true ∷ errors) r e v = ground arith
written-Fits starting (true ∷ errors) r e v = ground arith
written-Fits ready (true ∷ errors) r e v = ground arith
written-Fits stopping (true ∷ errors) r e v = absurd v
written-Fits error (true ∷ errors) r e v = ground arith

started-Fits :
    (errors : List Bool) (r : SbandRadio)
    → r.sdo_fault < sdo_fault_limit
    → progress r.commands ≡ 2
    → Fits starting (written errors r).sdo_fault (written errors r).commands
started-Fits [] r f p = ground arith
started-Fits (false ∷ errors) r f p = ground arith
started-Fits (true ∷ errors) r f p = ground arith

on_node_status-IsValid :
    (status : ℕ) (r : SbandRadio)
    → r.state ≡ no_heartbeat
    → Fits no_heartbeat r.sdo_fault r.commands
    → IsValid (Sband.on_node_status (status, r)).1
unfolding Sband.on_node_status
on_node_status-IsValid status r e v =
    ground (arith, started-Fits r.sdo_errors (Sband.command power_on r))

on_sdr_status-IsValid :
    (val : ℕ) (r : SbandRadio)
    → r.state ≡ starting
    → Fits starting r.sdo_fault r.commands
    → IsValid (Sband.on_sdr_status (val, r)).1
unfolding Sband.on_sdr_status
on_sdr_status-IsValid val r e v =
    ground (arith, written-Fits starting r.sdo_errors (Sband.command power_on r))

-- The transfer that failed is counted before the start command is sent again.
retried-IsValid :
    (r : SbandRadio)
    → r.state ≡ starting
    → Fits starting r.sdo_fault r.commands
    → IsValid (Sband.on_sdr_status (0, count_fault r)).1
unfolding Sband.on_sdr_status
retried-IsValid r e v = ground (
  arith,
  written-Fits starting r.sdo_errors (Sband.command power_on (count_fault r)),
  written-Fits error r.sdo_errors (Sband.command power_on (count_fault r)),
)

read-IsValid :
    (readings : List (Option ℕ)) (r : SbandRadio)
    → r.state ≡ starting
    → Fits starting r.sdo_fault r.commands
    → IsValid (Sband.on_sdr_status (Sband.read_sdr readings r)).1
read-IsValid [] r e v = on_sdr_status-IsValid 0 r e v
read-IsValid (some val ∷ readings) r e v =
    on_sdr_status-IsValid val (record r { sdr_readings = readings }) e v
read-IsValid (none ∷ readings) r e v = retried-IsValid (record r { sdr_readings = readings }) e v

polled-IsValid :
    (readings : List ℕ) (r : SbandRadio)
    → r.state ≡ no_heartbeat
    → Fits no_heartbeat r.sdo_fault r.commands
    → IsValid (Sband.on_node_status (Sband.read_node readings r)).1
polled-IsValid [] r e v = on_node_status-IsValid 0 r e v
polled-IsValid (status ∷ readings) r e v =
    on_node_status-IsValid status (record r { node_readings = readings }) e v

enable_from-IsValid :
    (s : SbandState) (r : SbandRadio)
    → r.state ≡ s
    → Fits s r.sdo_fault r.commands
    → IsValid (Sband.enable_from s r).1
unfolding Sband.enable_from
enable_from-IsValid off r e v = omega arith
enable_from-IsValid no_heartbeat r e v = polled-IsValid r.node_readings r e v
enable_from-IsValid starting r e v = read-IsValid r.sdr_readings r e v
enable_from-IsValid ready r e v = tt
enable_from-IsValid stopping r e v = tt
enable_from-IsValid error r e v = tt

disable-IsValid : (r : SbandRadio) → IsValid (Sband.disable r)
unfolding Sband.disable Sband.sdo_write
disable-IsValid r =
    stopped r.sdo_errors
      (Sband.command power_off (record r { state = stopping; has_sdo_fault = true; sdo_fault = 0 }))
      refl
  where
    stopped :
        (errors : List Bool) (r : SbandRadio)
        → r.sdo_fault ≡ 0
        → ((written errors r).sdo_fault < sdo_fault_limit) × (◌≡◌ {A = ℕ} 0 0)
    stopped [] r e = omega arith
    stopped (false ∷ errors) r e = omega arith
    stopped (true ∷ errors) r e = omega arith

cached-IsValid :
    (s : SbandState) (r : SbandRadio)
    → r.state ≡ s
    → Fits s r.sdo_fault r.commands
    → Fits s r.sdo_fault (send_cache ∷ r.commands)
cached-IsValid off r e v = v
cached-IsValid no_heartbeat r e v = v
cached-IsValid starting r e v = v
cached-IsValid ready r e v = v
cached-IsValid stopping r e v = v
cached-IsValid error r e v = v

uncounted-IsValid :
    (errors : List Bool) (r : SbandRadio) → IsValid r → IsValid (Sband.uncounted errors r).1
uncounted-IsValid [] r v = v
uncounted-IsValid (false ∷ errors) r v = v
uncounted-IsValid (true ∷ errors) r v = v

call-IsValid : (c : Call) (r : SbandRadio) → IsValid r → IsValid (call c r)
unfolding call Sband.sdo_write Sband.send_queued_messages
call-IsValid enable r v = enable_from-IsValid r.state r refl v
call-IsValid disable r v = disable-IsValid r
call-IsValid send_queued_messages r v =
    let cached = cached-IsValid r.state r refl v in
    sent r.has_sdo_fault
      (written-Fits r.state r.sdo_errors (Sband.command send_cache r) refl cached)
      (uncounted-IsValid r.sdo_errors (Sband.command send_cache r) cached)
  where
    sent :
        (counts : Bool)
        → IsValid (written r.sdo_errors (Sband.command send_cache r))
        → IsValid (Sband.uncounted r.sdo_errors (Sband.command send_cache r)).1
        → IsValid
            (if counts
              then (returned, written r.sdo_errors (Sband.command send_cache r))
              else Sband.uncounted r.sdo_errors (Sband.command send_cache r)).1
    sent true h k = h
    sent false h k = k
call-IsValid is_rf_ok r v = v
call-IsValid rf_reset r v = v

-- After any calls of a new radio, whatever the node manager and the SDR answer: in state 0 the last
-- command to the SDR's power was off (or there was none); in state 1 it has been powered and not yet
-- told to start; in states 2 and 3 it has been powered and then told to start, and neither undone;
-- the radio is never left in state 4. And with five failed SDO transfers counted since the last
-- `enable` in state 0 or `disable` it is in state 2 or 3, or has given up (state 255); with more it
-- has given up. A call that raises leaves the radio as the raise finds it.
pub run-IsValid :
    (calls : List Call) (node_readings : List ℕ) (sdo_errors : List Bool)
    (sdr_readings : List (Option ℕ))
    → IsValid (run calls (Sband.new node_readings sdo_errors sdr_readings))
unfolding run
run-IsValid calls node_readings sdo_errors sdr_readings =
    any calls (Sband.new node_readings sdo_errors sdr_readings) (omega arith)
  where
    any : (calls : List Call) (r : SbandRadio) → IsValid r → IsValid (run calls r)
    any [] r v = v
    any (c ∷ cs) r v = any cs (call c r) (call-IsValid c r v)
