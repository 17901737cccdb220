-- ===== src/Subsystems/Opd/Recovery.antt =====
-- oresat_c3/subsystems/opd.py: `Opd.reset`, the loop that tries to clear a fault of the domain.
use oresat_c3_software_esi.Base.{
  ℕ, zero, suc, ◌≡◌, ◌≢◌, refl, Bool, true, false, Option, some, none, List, arith,
}
use oresat_c3_software_esi.Subsystems.Opd.System.{
  Opd, OpdState, Result, err, gpio_error, enabled, fault, dead, ok, reset_loop, give_up, reset,
  reading, readings_left,
}

-- How the next `tries` readings of the nFAULT line go: the first that raises or shows no fault
-- decides.
pub data Verdict : Type 0 where
  raised clear faulty : Verdict

abbrev pub verdict_then : Verdict → Option Bool → Verdict
verdict_then rest none = raised
verdict_then rest (some true) = clear
verdict_then rest (some false) = rest

abbrev pub verdict : ℕ → List (Option Bool) → Verdict
verdict zero rs = faulty
verdict (suc tries) rs = verdict_then (verdict tries (readings_left rs)) (reading rs)

-- What is raised by a verdict, and the status of the domain after the loop and after `reset`.
abbrev pub raised_by : Verdict → Result (Unit {0})
raised_by raised = err gpio_error
raised_by clear = ok tt
raised_by faulty = ok tt

abbrev pub after_loop : Verdict → OpdState
after_loop raised = enabled
after_loop clear = enabled
after_loop faulty = fault

abbrev pub after_reset : Verdict → OpdState
after_reset raised = enabled
after_reset clear = enabled
after_reset faulty = dead

-- The loop does not run outside `FAULT`.
reset_loop_idle : (tries : ℕ) (o : Opd) → o.status ≢ fault → reset_loop tries o ≡ (ok tt, o)
unfolding reset_loop
reset_loop_idle zero o h = refl
reset_loop_idle (suc tries) o h = ground arith

-- In any other state `reset` does nothing.
pub reset_idle : (tries : ℕ) (o : Opd) → o.status ≢ fault → reset tries o ≡ (ok tt, o)
unfolding reset give_up
reset_idle tries o h = ground (arith, reset_loop_idle tries o h)
