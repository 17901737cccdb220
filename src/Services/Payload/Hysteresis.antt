-- ===== src/Services/Payload/Hysteresis.antt =====
-- oresat_c3/services/payload.py: the event of low power of PayloadService.
use oresat_c3_software_esi.Base.{
  ℕ, ◌≤◌, ◌<◌, ◌≡◌, ◌⊎◌, refl, ap, ◌∙◌, Bool, true, false, not, ◌&&◌, Option, none, some, List, [],
  ◌∷◌, ◌==◌, if◌then◌else◌, arith,
}
use oresat_c3_software_esi.Services.Payload.Service
use oresat_c3_software_esi.Services.Payload.Service.{Battery, next_event, Payload, on_loop}

-- the event after rounds with these batteries
unfoldable pub events : List Battery → Bool → Bool
unfolding next_event
events [] event = event
events (b ∷ bs) event = events bs (next_event b event)

-- One pack is not above the high level, in each round.
abbrev pub NotHigh : List Battery → Type 0
NotHigh [] = Unit
NotHigh (b ∷ bs) = ((b.vbatt_bp1 ≤ 7500) ⊎ (b.vbatt_bp2 ≤ 7500)) × NotHigh bs

abbrev pub NotLow : List Battery → Type 0
NotLow [] = Unit
NotLow (b ∷ bs) = ((6500 ≤ b.vbatt_bp1) ⊎ (6500 ≤ b.vbatt_bp2)) × NotLow bs

stays_set : (bs : List Battery) → NotHigh bs → events bs true ≡ true
unfolding events
stays_set [] h = refl
stays_set (b ∷ bs) h = ground (arith, stays_set bs h.1)

stays_clear : (bs : List Battery) → NotLow bs → events bs false ≡ false
unfolding events
stays_clear [] h = refl
stays_clear (b ∷ bs) h = ground (arith, stays_clear bs h.1)

events_low :
    (b : Battery) (bs : List Battery) (event : Bool)
    → b.vbatt_bp1 < 6500
    → b.vbatt_bp2 < 6500
    → NotHigh bs
    → events (b ∷ bs) event ≡ true
unfolding events
events_low b bs event l m h = ground (arith, stays_set bs h)

events_high :
    (b : Battery) (bs : List Battery) (event : Bool)
    → 7500 < b.vbatt_bp1
    → 7500 < b.vbatt_bp2
    → NotLow bs
    → events (b ∷ bs) event ≡ false
unfolding events
events_high b bs event l m h = ground (arith, stays_clear bs h)

module _ (H : Type 0) (run_handler : ℕ → Bool → H → Bool × ℕ × H) where
  -- the loop of the service, one battery for each round
  unfoldable pub rounds : List Battery → Payload H run_handler → Payload H run_handler
  rounds [] p = p
  rounds (b ∷ bs) p = rounds bs (on_loop H run_handler b p)

  abbrev Same : Payload H run_handler → Payload H run_handler → Type 0
  Same p q = (q.power_event ≡ p.power_event) × (q.enabled ≡ p.enabled)

  ran-Same : (r : Bool × ℕ × H) (p : Payload H run_handler) → Same p (Service.ran H run_handler r p)
  ran-Same (true, state, h) p = (refl, refl)
  ran-Same (false, state, h) p = (refl, refl)

  run_if-Same :
      (o : Option H) (p : Payload H run_handler) → Same p (Service.run_if H run_handler o p)
  run_if-Same none p = (refl, refl)
  run_if-Same (some h) p = ran-Same (run_handler p.state p.power_event h) p

  on_loop-events :
      (b : Battery) (p : Payload H run_handler)
      → p.enabled ≡ true
      → ((on_loop H run_handler b p).power_event ≡ next_event b p.power_event)
        × ((on_loop H run_handler b p).enabled ≡ true)
  unfolding on_loop
  on_loop-events b p e =
      let same = run_if-Same p.handler p in
      (
        ap (λ w. (if w then p else after).power_event) is_on ∙ ap (next_event b) same.0,
        ap (λ w. (if w then p else after).enabled) is_on ∙ same.1 ∙ e,
      )
    where
      after : Payload H run_handler
      after = Service.update_event H run_handler b (Service.run_if H run_handler p.handler p)

      is_on : (not p.enabled && p.state == 0) ≡ false
      is_on = ap (λ w. not w && p.state == 0) e

  rounds-events :
      (bs : List Battery) (p : Payload H run_handler)
      → p.enabled ≡ true
      → (rounds bs p).power_event ≡ events bs p.power_event
  unfolding rounds events
  rounds-events [] p e = refl
  rounds-events (b ∷ bs) p e =
      let f = on_loop-events b p e in
      rounds-events bs (on_loop H run_handler b p) f.1 ∙ ap (events bs) f.0

  -- With the payload enabled, whatever its handler does and whether it raises: a round with both packs
  -- below 6500 mV sets the event of low power, whatever it was, and it stays set over all further rounds
  -- in which one pack at least is at 7500 mV or below.
  pub rounds_low :
      (b : Battery) (bs : List Battery) (p : Payload H run_handler)
      → p.enabled ≡ true
      → b.vbatt_bp1 < 6500
      → b.vbatt_bp2 < 6500
      → NotHigh bs
      → (rounds (b ∷ bs) p).power_event ≡ true
  rounds_low b bs p e l m h = rounds-events (b ∷ bs) p e ∙ events_low b bs p.power_event l m h

  -- And a round with both packs above 7500 mV clears it, and it stays clear over all further rounds in
  -- which one pack at least is at 6500 mV or above.
  pub rounds_high :
      (b : Battery) (bs : List Battery) (p : Payload H run_handler)
      → p.enabled ≡ true
      → 7500 < b.vbatt_bp1
      → 7500 < b.vbatt_bp2
      → NotLow bs
      → (rounds (b ∷ bs) p).power_event ≡ false
  rounds_high b bs p e l m h = rounds-events (b ∷ bs) p e ∙ events_high b bs p.power_event l m h
