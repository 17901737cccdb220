-- ===== src/Services/Payload/Service.antt =====
-- oresat_c3/services/payload.py: class PayloadService, for whatever handler it has made. `run_handler`
-- is the handler's `loop`: whether it returns, and the state of the payload and the handler after it.
-- No handler changes the event of low power.
use oresat_c3_software_esi.Base.{
  ℕ, Bool, true, false, not, ◌&&◌, Option, none, some, ltb, ◌==◌, if◌then◌else◌,
}

abbrev pub bat_level_low : ℕ
bat_level_low = 6500

abbrev pub bat_level_high : ℕ
bat_level_high = 7500

-- the voltages of the two packs of battery 1
pub record Battery : Type 0 where
  pub vbatt_bp1 : ℕ
  pub vbatt_bp2 : ℕ

unfoldable pub power_low : Battery → Bool
power_low b = ltb b.vbatt_bp1 bat_level_low && ltb b.vbatt_bp2 bat_level_low

unfoldable pub power_high : Battery → Bool
power_high b = ltb bat_level_high b.vbatt_bp1 && ltb bat_level_high b.vbatt_bp2

-- the last lines of `on_loop`
unfoldable pub next_event : Battery → Bool → Bool
unfolding power_low power_high
next_event b event =
    if event && power_high b then false else if not event && power_low b then true else event

module _ (H : Type 0) (run_handler : ℕ → Bool → H → Bool × ℕ × H) where
  pub record Payload : Type 0 where
    pub state : ℕ
    pub enabled : Bool
    pub power_event : Bool
    pub handler : Option H

  abbrev pub ran : Bool × ℕ × H → Payload → Payload
  ran (true, state, h) p = record p { state = state; handler = some h }
  ran (false, state, h) p = record p { state = state; handler = none }

  abbrev pub run_if : Option H → Payload → Payload
  run_if none p = p
  run_if (some h) p = ran (run_handler p.state p.power_event h) p

  abbrev pub update_event : Battery → Payload → Payload
  update_event b p = record p { power_event = next_event b p.power_event }

  -- `on_loop`
  unfoldable pub on_loop : Battery → Payload → Payload
  unfolding next_event
  on_loop b p = if not p.enabled && p.state == 0 then p else update_event b (run_if p.handler p)
