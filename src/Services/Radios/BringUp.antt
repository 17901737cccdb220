-- ===== src/Services/Radios/BringUp.antt =====
-- oresat_c3/services/radios.py: the S-band radio comes up when the SDR answers, and gives up when it
-- does not.
use mathlib.Core.Path.{subst}
use oresat_c3_software_esi.Base.{
  ℕ, zero, suc, ◌+◌, ◌≤◌, ◌<◌, ◌≡◌, ◌≢◌, refl, sym, ap, ◌∙◌, ◌⊎◌, inl, inr, Bool, true, false,
  Option, none, some, List, [], ◌∷◌, ◌++◌, length, map, replicate, arith, leb, Bool-cases,
}
use oresat_c3_software_esi.Services.Radios.Boot.{Call, enable, run, call}
use oresat_c3_software_esi.Services.Radios.Sband
use oresat_c3_software_esi.Services.Radios.Sband.{
  SbandRadio, off, no_heartbeat, starting, ready, error, sdo_fault_limit, count_fault, written,
}

run-append : (cs ds : List Call) (r : SbandRadio) → run (cs ++ ds) r ≡ run ds (run cs r)
unfolding run
run-append [] ds r = refl
run-append (c ∷ cs) ds r = run-append cs ds (call c r)

-- Answers that leave the radio waiting: neither 2 nor 255.
abbrev pub NotYet : List ℕ → Type 0
NotYet [] = Unit
NotYet (x ∷ xs) = (x ≢ 2) × (x ≢ 255) × NotYet xs

-- Booting in state `s`, with these answers to come, and no transfer that fails.
record Waits (s : Sband.SbandState) (nodes : List ℕ) (sdrs : List (Option ℕ)) (r : SbandRadio)
    : Type 0 where
  in_state : r.state ≡ s
  nodes_left : r.node_readings ≡ nodes
  sdrs_left : r.sdr_readings ≡ sdrs
  no_errors : r.sdo_errors ≡ []

asked_node :
    (x : ℕ) (nodes : List ℕ) (sdrs : List (Option ℕ)) (r : SbandRadio)
    → x ≢ 2
    → x ≢ 255
    → Waits no_heartbeat (x ∷ nodes) sdrs r
    → Waits no_heartbeat nodes sdrs (call enable r)
unfolding call Sband.enable_from Sband.on_node_status
asked_node x nodes sdrs r a b w = ground arith

asked_node_on :
    (nodes : List ℕ) (sdrs : List (Option ℕ)) (r : SbandRadio)
    → Waits no_heartbeat (2 ∷ nodes) sdrs r
    → Waits starting nodes sdrs (call enable r)
unfolding call Sband.enable_from Sband.on_node_status Sband.sdo_write
asked_node_on nodes sdrs r w = ground arith

asked_sdr :
    (x : ℕ) (nodes : List ℕ) (sdrs : List (Option ℕ)) (r : SbandRadio)
    → x ≢ 2
    → x ≢ 255
    → Waits starting nodes (some x ∷ sdrs) r
    → Waits starting nodes sdrs (call enable r)
unfolding call Sband.enable_from Sband.on_sdr_status Sband.sdo_write
asked_sdr x nodes sdrs r a b w = ground arith

asked_sdr_on :
    (nodes : List ℕ) (sdrs : List (Option ℕ)) (r : SbandRadio)
    → Waits starting nodes (some 2 ∷ sdrs) r
    → (call enable r).state ≡ ready
unfolding call Sband.enable_from Sband.on_sdr_status
asked_sdr_on nodes sdrs r w = ground arith

-- `k` calls of `enable`
abbrev pub enables : ℕ → List Call
enables k = replicate k enable

sdr_polls :
    (xs : List ℕ) (nodes : List ℕ) (r : SbandRadio)
    → NotYet xs
    → Waits starting nodes (map some xs ++ (some 2 ∷ [])) r
    → (run (enables (suc (length xs))) r).state ≡ ready
unfolding run
sdr_polls [] nodes r h w = asked_sdr_on nodes [] r w
sdr_polls (x ∷ xs) nodes r h w =
    sdr_polls xs nodes (call enable r) h.2 (asked_sdr x nodes _ r h.0 h.1 w)

node_polls :
    (ns xs : List ℕ) (r : SbandRadio)
    → NotYet ns
    → NotYet xs
    → Waits no_heartbeat (ns ++ (2 ∷ [])) (map some xs ++ (some 2 ∷ [])) r
    → (run (enables (suc (length ns)) ++ enables (suc (length xs))) r).state ≡ ready
unfolding run
node_polls [] xs r hn hx w = sdr_polls xs [] (call enable r) hx (asked_node_on [] _ r w)
node_polls (n ∷ ns) xs r hn hx w =
    node_polls ns xs (call enable r) hn.2 hx (asked_node n (ns ++ (2 ∷ [])) _ r hn.0 hn.1 w)

powered :
    (nodes : List ℕ) (sdrs : List (Option ℕ))
    → Waits no_heartbeat nodes sdrs (call enable (Sband.new nodes [] sdrs))
unfolding call Sband.enable_from
powered nodes sdrs = record {
  in_state = refl;
  nodes_left = refl;
  sdrs_left = refl;
  no_errors = refl;
}

-- Where the node manager reports, after answers `ns` that are neither ON (2) nor DEAD (255), that the
-- card is ON, and the SDR, after answers `xs` that are neither 2 nor 255, that its radio is on (2), and
-- no SDO transfer fails, the radio is ready to transmit after one call of `enable` for the power and
-- one for each of these answers.
pub run_ready :
    (ns xs : List ℕ)
    → NotYet ns
    → NotYet xs
    → (run
        (enable ∷ (enables (suc (length ns)) ++ enables (suc (length xs))))
        (Sband.new (ns ++ (2 ∷ [])) [] (map some xs ++ (some 2 ∷ [])))).state
      ≡ ready
unfolding run
run_ready ns xs hn hx = node_polls ns xs _ hn hx (powered _ _)

error_stays : (r : SbandRadio) → r.state ≡ error → (call enable r).state ≡ error
unfolding call Sband.enable_from
error_stays r e = ground arith

errors_stay : (n : ℕ) (r : SbandRadio) → r.state ≡ error → (run (enables n) r).state ≡ error
unfolding run
errors_stay zero r e = e
errors_stay (suc n) r e = errors_stay n (call enable r) (error_stays r e)

-- Still booting with a further fault below the limit, or given up.
abbrev Counted : ℕ → List (Option ℕ) → SbandRadio → Type 0
Counted faults readings r =
    (r.state ≡ error)
    ⊎ ((r.state ≡ starting)
        × (faults < r.sdo_fault)
        × (faults + 1 < sdo_fault_limit)
        × (r.sdr_readings ≡ readings))

resent :
    (errors : List Bool) (r : SbandRadio)
    → r.state ≡ starting
    → Counted r.sdo_fault r.sdr_readings
        (written errors (Sband.command Sband.power_on (count_fault r)))
resent errors r e = elim (Bool-cases (leb sdo_fault_limit (r.sdo_fault + 1))) [
  | inl over ↦ inl (given_up errors over)
  | inr under ↦ still errors under
]
  where
    given_up :
        (errors : List Bool)
        → leb sdo_fault_limit (r.sdo_fault + 1) ≡ true
        → (written errors (Sband.command Sband.power_on (count_fault r))).state ≡ error
    given_up [] o = ground arith
    given_up (false ∷ errors) o = ground arith
    given_up (true ∷ errors) o = ground arith

    still :
        (errors : List Bool)
        → leb sdo_fault_limit (r.sdo_fault + 1) ≡ false
        → Counted r.sdo_fault r.sdr_readings
            (written errors (Sband.command Sband.power_on (count_fault r)))
    still [] u = inr (ground arith, omega arith, ground arith, refl)
    still (false ∷ errors) u = inr (ground arith, omega arith, ground arith, refl)
    still (true ∷ errors) u = elim (Bool-cases (leb sdo_fault_limit (r.sdo_fault + 1 + 1))) [
      | inl over ↦ inl (ground arith)
      | inr under ↦ inr (ground arith, omega arith, ground arith, refl)
    ]

read_failed :
    (readings : List (Option ℕ)) (r : SbandRadio)
    → r.state ≡ starting
    → r.sdr_readings ≡ none ∷ readings
    → Counted r.sdo_fault readings (call enable r)
unfolding call Sband.enable_from Sband.on_sdr_status Sband.sdo_write Sband.get_sdr_status
read_failed readings r e f =
    subst (Counted r.sdo_fault readings) (sym polled)
      (resent r.sdo_errors (record r { sdr_readings = readings }) e)
  where
    polled : call enable r ≡ (Sband.on_sdr_status (Sband.read_sdr (none ∷ readings) r)).1
    polled =
        ap (λ s. (Sband.enable_from s r).1) e
        ∙ ap (λ q. (Sband.on_sdr_status (Sband.read_sdr q r)).1) f

-- While the SDR's radio starts: where the next `n` reads of its status all fail, and these and the
-- faults before make five, then after `n` calls of `enable` the radio has given up, whether or not
-- the start commands that it sent again went through.
pub run_given_up :
    (n : ℕ) (r : SbandRadio)
    → r.state ≡ starting
    → r.sdr_readings ≡ replicate n none
    → 0 < n
    → sdo_fault_limit ≤ r.sdo_fault + n
    → (run (enables n) r).state ≡ error
unfolding run
run_given_up zero r e f p h = absurd (omega arith)
run_given_up (suc n) r e f p h = elim (read_failed (replicate n none) r e f) [
  | inl gone ↦ errors_stay n (call enable r) gone
  | inr still ↦
      run_given_up n (call enable r) still.0 still.3 (omega (arith, still.1, still.2))
        (omega (arith, still.1, still.2))
]
