-- ===== src/Subsystems/Antennas.antt =====
-- oresat_c3/subsystems/antennas.py: class AntennasC3v7, which fires the deployers of four cards.
pub mod Firing
mod Tests
use oresat_c3_software_esi.Base.{
  Option, none, some, not, ◌&&◌, testbit, ℕ, Bool, true, false, List, [], ◌∷◌, ◌++◌, if◌then◌else◌,
}
use oresat_c3_software_esi.Drivers.Max7310
use oresat_c3_software_esi.Drivers.Max7310.Bus.{after}
use oresat_c3_software_esi.Drivers.Max7310.{
  Chip, Result, ok, err, answered, configure, output_clear, set_configuration,
}

abbrev pub read_ant_pin : ℕ
read_ant_pin = 0

abbrev pub fire_ant_1_pin : ℕ
fire_ant_1_pin = 1

abbrev pub fire_ant_2_pin : ℕ
fire_ant_2_pin = 2

abbrev pub test_ant_pin : ℕ
test_ant_pin = 3

-- the directions with the firing pins as outputs, and with every pin of an antenna as an input
abbrev pub live_inputs : ℕ
live_inputs = 0b1001

abbrev pub safe_inputs : ℕ
safe_inputs = 0b1111

abbrev pub fire : ℕ
fire = 0b0110

-- the `try` of `_deploy_card`, after its first call
abbrev pub then_clear : Result (Unit {0}) × Chip → Result (Unit {0}) × Chip
then_clear = after (λ _. output_clear fire_ant_1_pin (fire_ant_2_pin ∷ []))

-- the chip during `sleep(timeout)`, none where `configure` raised
abbrev pub held : Result (Unit {0}) × Chip → Option Chip
held (ok _, c) = some c
held (err _, c) = none

-- `_deploy_card`: the chip during the timeout, and after it
unfoldable pub deploy_card : Chip → Option Chip × Chip
deploy_card c =
    let started = configure fire 0 live_inputs 1 c in
    let cleared = then_clear started in (held started, (set_configuration safe_inputs cleared.1).1)

pub data Card : Type 0 where
  pz_end mz_end mz_mid pz_mid : Card

-- what a card does for the timeout: does it drive the two firing pins high?
pub record Pulse : Type 0 where
  pub card : Card
  pub ant_1 : Bool
  pub ant_2 : Bool

-- A pin is driven high if it is an output and its latch is high.
abbrev pub drives : ℕ → Chip → Bool
drives pin c = testbit c.output_port pin && not (testbit c.configuration pin)

abbrev pub firing : Card → Chip → Pulse
firing card c = record {
  card = card;
  ant_1 = drives fire_ant_1_pin c;
  ant_2 = drives fire_ant_2_pin c;
}

abbrev pub add_firing : Card → Option Chip → List Pulse → List Pulse
add_firing card none fired = fired
add_firing card (some c) fired = fired ++ (firing card c ∷ [])

-- `fired` has what the cards drove for the timeout, in order.
pub record Antennas : Type 0 where
  pub chips : Card → Chip
  pub fired : List Pulse

abbrev pub is : Card → Card → Bool
is pz_end pz_end = true
is mz_end mz_end = true
is mz_mid mz_mid = true
is pz_mid pz_mid = true
is _ _ = false

abbrev pub set_chip : Card → Chip → (Card → Chip) → Card → Chip
set_chip card c chips other = if is other card then c else chips other

unfoldable pub attempt : Card → Antennas → Antennas
attempt card a =
    let (live, c) = deploy_card (a.chips card) in
    record { chips = set_chip card c a.chips; fired = add_firing card live a.fired }

-- `deploy`
unfoldable pub deploy : Antennas → Antennas
deploy a = attempt pz_mid (attempt mz_mid (attempt pz_end (attempt mz_end a)))

-- `probe_deployers` reads each chip: which of them answer.
unfoldable pub probe_deployers : Antennas → Card → Bool
probe_deployers a card = (Max7310.is_valid (a.chips card)).0
