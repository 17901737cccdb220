-- ===== src/Services/Radios/Switched.antt =====
-- oresat_c3/services/radios.py: how the service switches the S-band radio off.
use mathlib.Core.Path.{subst}
use oresat_c3_software_esi.Base.{
  ℕ, ◌<◌, ◌≡◌, ◌≢◌, refl, sym, ap, ◌∙◌, Bool, true, false, Option, none, some, List, [], ◌∷◌, ltb,
  ◌==◌, if◌then◌else◌, arith,
}
use oresat_c3_software_esi.Services.Radios.Deaf.{reading, passed-reading}
use oresat_c3_software_esi.Services.Radios.Link
use oresat_c3_software_esi.Services.Radios.Link.{Radios, Message, Action, Result, ok, err, after}
use oresat_c3_software_esi.Services.Radios.Sband
use oresat_c3_software_esi.Services.Radios.Sband.{SbandRadio, SbandState, code, off, ready, error}
use oresat_c3_software_esi.Services.Radios.Service

-- It returned, the S-band radio is off, no longer wanted, and its timeout is cleared.
abbrev pub SwitchedOff : Result (Unit {0}) × Radios → Type 0
SwitchedOff p =
    (p.0 ≡ ok tt)
    × (Service.state_code p.1 ≡ 0)
    × (p.1.should_enable ≡ false)
    × (p.1.timeout_timestamp ≡ some 0)

there_here : (s : Radios) (r : SbandRadio) → s.sband ≡ some r → Service.has_sband s ≡ true
there_here s r there = ap here there
  where
    here : Option SbandRadio → Bool
    here o = elim o [ none ↦ false | some _ ↦ true ]

give_up-SwitchedOff :
    (s : Radios) (r : SbandRadio) → s.sband ≡ some r → SwitchedOff (Service.give_up s)
unfolding Service.give_up Service.should_enable_cb Service.cb_off Service.disable_sband
    Sband.disable
give_up-SwitchedOff s r there =
    subst SwitchedOff
      (sym (
        ap (λ b. if b then Service.cb false unwanted else (ok tt, unwanted))
          (there_here unwanted r there)))
      (refl, ap stopped_code there, refl, refl)
  where
    unwanted : Radios
    unwanted = record s { should_enable = false }

    stopped_code : Option SbandRadio → ℕ
    stopped_code o = elim (Link.when_sband (λ r. (tt, Sband.disable r)) tt o).1 [
      | none ↦ 0
      | some r' ↦ code r'.state
    ]

-- A handled S-band that is still wanted.
handle_enabled :
    (s : Radios) (r : SbandRadio)
    → s.sband ≡ some r
    → s.should_enable ≡ true
    → Service.handle_sband s
      ≡ Service.handle_by_ok
          (Sband.is_ready r.state)
          (record s { sband = some (record r { od_status = r.state }) })
unfolding Service.handle_sband
handle_enabled s r there enabled =
    ap (λ b. if b then Service.handle_by s.should_enable s else (ok tt, s)) (there_here s r there)
    ∙ ap (λ b. Service.handle_by b s) enabled
    ∙ ap asked there
  where
    asked : Option SbandRadio → Result (Unit {0}) × Radios
    asked o =
        let (rf_ok, o') = Link.when_sband Sband.is_rf_ok false o in
        after Service.handle_by_ok (ok rf_ok, record s { sband = o' })

timed_out :
    (t : ℕ) (s : Radios) (r : SbandRadio)
    → s.sband ≡ some r
    → s.timeout_timestamp ≡ some t
    → t < reading s.clock s.ticks
    → SwitchedOff (Service.check_timeout s)
unfolding Service.check_timeout
timed_out t s r there e h =
    subst (λ o. SwitchedOff (after Service.timeout_at (Link.attribute o, s))) (sym e)
      (subst (λ b. SwitchedOff (Service.timeout_by b moved)) (sym over)
        (give_up-SwitchedOff moved r (kept s.ticks ∙ there)))
  where
    moved : Radios
    moved = (Link.passed s.ticks s).1

    kept : (ticks : List ℕ) → (Link.passed ticks s).1.sband ≡ s.sband
    kept [] = refl
    kept (x ∷ xs) = refl

    over : ltb t (Link.passed s.ticks s).0 ≡ true
    over = rw (passed-reading s.ticks s) (ground arith)

-- With a ready S-band radio that is wanted, the first handling after its timeout switches it off.
pub handle_sband_timeout :
    (t : ℕ) (s : Radios) (r : SbandRadio)
    → s.sband ≡ some r
    → r.state ≡ ready
    → s.should_enable ≡ true
    → s.timeout_timestamp ≡ some t
    → t < reading s.clock s.ticks
    → SwitchedOff (Service.handle_sband s)
handle_sband_timeout t s r there up enabled e h =
    subst SwitchedOff
      (sym (
        handle_enabled s r there enabled
        ∙ ap (λ q. Service.handle_by_ok (Sband.is_ready q) seen) up))
      (timed_out t seen (record r { od_status = r.state }) refl e h)
  where
    seen : Radios
    seen = record s { sband = some (record r { od_status = r.state }) }

-- With a radio that is on or has an error, and is no longer wanted, the next handling switches it off.
pub handle_sband_unwanted :
    (s : Radios) (r : SbandRadio)
    → s.sband ≡ some r
    → code r.state ≢ 0
    → s.should_enable ≡ false
    → SwitchedOff (Service.handle_sband s)
unfolding Service.handle_sband
handle_sband_unwanted s r there on unwanted =
    subst SwitchedOff
      (sym (
        ap (λ b. if b then Service.handle_by s.should_enable s else (ok tt, s))
          (there_here s r there)
        ∙ ap (λ b. Service.handle_by b s) unwanted
        ∙ ap (λ b. if b then Service.check_timeout s else Service.give_up s) is_on))
      (give_up-SwitchedOff s r there)
  where
    code_of : Option SbandRadio → ℕ
    code_of o = elim o [ none ↦ 0 | some r ↦ code r.state ]

    nonzero : (n : ℕ) → n ≢ 0 → (n == 0) ≡ false
    nonzero n h = ground arith

    is_on : (Service.state_code s == 0) ≡ false
    is_on = ap (λ o. code_of o == 0) there ∙ nonzero (code r.state) on

-- A radio that has given up is switched off by the next handling.
error_handled :
    (s : Radios) (r : SbandRadio)
    → s.sband ≡ some r
    → r.state ≡ error
    → s.should_enable ≡ true
    → SwitchedOff (Service.handle_sband s)
error_handled s r there failed enabled =
    subst SwitchedOff
      (sym (
        handle_enabled s r there enabled
        ∙ ap (λ q. Service.handle_by_ok (Sband.is_ready q) seen) failed
        ∙ ap (λ q. Service.revive_by (code q == 0xFF) seen) failed))
      (give_up-SwitchedOff seen (record r { od_status = r.state }) refl)
  where
    seen : Radios
    seen = record s { sband = some (record r { od_status = r.state }) }

enable_ready :
    (s : Radios) (r : SbandRadio)
    → s.sband ≡ some r
    → r.state ≡ ready
    → Service.should_enable_cb true s
      ≡ Service.start_timeout (record s { sband = some (record r { state = error }) })
unfolding Service.should_enable_cb Service.cb_on Service.enable_sband Sband.enable Sband.enable_from
enable_ready s r there up =
    ap (λ b. if b then Service.cb true s else (ok tt, s)) (there_here s r there)
    ∙ ap called there
    ∙ ap (λ q. finish (Sband.enable_from q r)) up
  where
    finish : Sband.Outcome × SbandRadio → Result (Unit {0}) × Radios
    finish (o, r') =
        after (λ _. Service.start_timeout) (Service.outcome o (record s { sband = some r' }))

    called : Option SbandRadio → Result (Unit {0}) × Radios
    called o =
        let (w, o') = Link.when_sband Sband.enable Sband.returned o in
        after (λ _. Service.start_timeout) (Service.outcome w (record s { sband = o' }))

started_kept :
    (s : Radios)
    → ((Service.start_timeout s).1.sband ≡ s.sband)
      × ((Service.start_timeout s).1.should_enable ≡ s.should_enable)
started_kept s = by s.ticks
  where
    by :
        (ticks : List ℕ)
        → ((after Service.start_timeout_at (Link.returning (Link.passed ticks s))).1.sband
            ≡ s.sband)
          × ((after Service.start_timeout_at (Link.returning (Link.passed ticks s))).1.should_enable
              ≡ s.should_enable)
    by [] = (refl, refl)
    by (x ∷ xs) = (refl, refl)

-- A second write of True to `should_enable`, of a radio that is ready, makes the next handling switch
-- it off: `enable` takes the state 3 for an error.
pub handle_sband_enabled_again :
    (s : Radios) (r : SbandRadio)
    → s.sband ≡ some r
    → r.state ≡ ready
    → s.should_enable ≡ true
    → SwitchedOff (Service.handle_sband (Service.should_enable_cb true s).1)
handle_sband_enabled_again s r there up enabled =
    subst (λ p. SwitchedOff (Service.handle_sband p.1)) (sym (enable_ready s r there up))
      (error_handled (Service.start_timeout failed).1 (record r { state = error })
        (started_kept failed).0 refl ((started_kept failed).1 ∙ enabled))
  where
    failed : Radios
    failed = record s { sband = some (record r { state = error }) }
