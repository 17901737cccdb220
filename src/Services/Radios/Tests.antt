-- ===== src/Services/Radios/Tests.antt =====
-- Inputs, and the theorems that have hypotheses at some of them.
use oresat_c3_software_esi.Base.{
  ◌+◌, ◌≡◌, refl, true, false, none, some, [], ◌∷◌, ◌++◌, replicate, arith,
}
use oresat_c3_software_esi.Drivers.Si41xx.{ready}
use oresat_c3_software_esi.Drivers.Si41xx.Divider.{ok}
use oresat_c3_software_esi.Drivers.Si41xx.Sequence.{Sends}
use oresat_c3_software_esi.Services.Radios.Boot.{run-IsValid, IsValid, run, enable, disable}
use oresat_c3_software_esi.Services.Radios.BringUp.{enables, run_ready, run_given_up}
use oresat_c3_software_esi.Services.Radios.Deaf.{run_unsent, Raised, on_loop_deaf}
use oresat_c3_software_esi.Services.Radios.Lband
use oresat_c3_software_esi.Services.Radios.Lband.{new_lband, restart_writes, rf_reset_ready}
use oresat_c3_software_esi.Services.Radios.Link.{Radios}
use oresat_c3_software_esi.Services.Radios.Sband
use oresat_c3_software_esi.Services.Radios.Sband.{SbandRadio, starting, error}
use oresat_c3_software_esi.Services.Radios.Service
use oresat_c3_software_esi.Services.Radios.Service.{Inputs, loop, beacon}
use oresat_c3_software_esi.Services.Radios.Switched.{SwitchedOff, handle_sband_timeout}
use oresat_c3_software_esi.Services.Radios.Unsent.{NeverTransmits}

run-IsValid_example :
    IsValid (run (enable ∷ enable ∷ disable ∷ []) (Sband.new (2 ∷ []) (true ∷ []) []))
run-IsValid_example = run-IsValid (enable ∷ enable ∷ disable ∷ []) (2 ∷ []) (true ∷ []) []

run_ready_example :
    (run
      (enable ∷ (enables 2 ++ enables 2))
      (Sband.new (1 ∷ 2 ∷ []) [] (some 0 ∷ some 2 ∷ []))).state
    ≡ Sband.ready
run_ready_example =
    run_ready (1 ∷ []) (0 ∷ []) (omega arith, omega arith, tt) (omega arith, omega arith, tt)

abbrev silent : SbandRadio
silent = record (Sband.new [] [] (replicate 3 none)) { state = starting; sdo_fault = 2 }

run_given_up_example : (run (enables 3) silent).state ≡ error
run_given_up_example = run_given_up 3 silent refl refl (omega arith) (omega arith)

abbrev inputs : Inputs
inputs = record { uhf_ok = true; lband_ok = true; uplink = 7 ∷ []; rssi = none }

run_unsent_example :
    ((Service.run
        (loop inputs ∷ beacon (1 ∷ []) ∷ [])
        (Service.new (some (Sband.new [] [] [])) true true 60 5 [] [] [])).to_sdr
      ≡ [])
    × NeverTransmits
        (Service.run
          (loop inputs ∷ beacon (1 ∷ []) ∷ [])
          (Service.new (some (Sband.new [] [] [])) true true 60 5 [] [] [])).sband
run_unsent_example =
    run_unsent (loop inputs ∷ beacon (1 ∷ []) ∷ []) [] [] [] true true 60 5 [] [] []

abbrev up : SbandRadio
up = record (Sband.new [] [] []) { state = Sband.ready }

abbrev linked : Radios
linked = record (Service.new (some up) true true 60 5 (1 ∷ []) [] []) { timeout_timestamp = some 6 }

on_loop_deaf_example : Raised [] (Service.on_loop inputs linked)
on_loop_deaf_example =
    on_loop_deaf inputs 6 up linked (refl, refl, refl, tt) refl refl refl refl (omega arith)

abbrev overdue : Radios
overdue = record linked { timeout_timestamp = some 5 }

handle_sband_timeout_example : SwitchedOff (Service.handle_sband overdue)
handle_sband_timeout_example = handle_sband_timeout 5 overdue up refl refl refl refl (omega arith)

rf_reset_ready_example :
    ((Lband.rf_reset new_lband).0 ≡ ok tt)
    × ((Lband.rf_reset new_lband).1.base.rf_reset_count ≡ 0 + 1)
    × ((Lband.rf_reset new_lband).1.lband_enable ≡ false)
    × ((Lband.rf_reset new_lband).1.si41xx.state ≡ ready)
    × Sends
        (restart_writes new_lband.si41xx 1616 32)
        new_lband.si41xx
        (Lband.rf_reset new_lband).1.si41xx
rf_reset_ready_example = rf_reset_ready new_lband 1616 32 refl refl (omega arith) (omega arith)
