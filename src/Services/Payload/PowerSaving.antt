-- ===== src/Services/Payload/PowerSaving.antt =====
-- oresat_c3/services/payload.py: what the event of low power makes of the Beecon card.
use mathlib.Core.Path.{subst}
use oresat_c3_software_esi.Base.{
  arith, not, ℕ, zero, suc, ◌≡◌, refl, ◌∙◌, ap, sym, Bool, true, false, List, [], ◌∷◌, ◌==◌,
  if◌then◌else◌, replicate,
}
use oresat_c3_software_esi.Drivers.Max7310.{Chip, is_valid, read_reg, output_status}
use oresat_c3_software_esi.Drivers.Max7310.Live.{IsValid, IsQuiet}
use oresat_c3_software_esi.Subsystems.Opd.Node
use oresat_c3_software_esi.Subsystems.Opd.Node.{is_enabled}
use oresat_c3_software_esi.Subsystems.Opd.Probe.{off, configure_quiet}
use oresat_c3_software_esi.Services.Payload.Beecon
use oresat_c3_software_esi.Services.Payload.Beecon.{Beecon, looked, turn_on, turn_off, loop}
use oresat_c3_software_esi.Services.Payload.Silence.{
  powered, Silent, IsSound, loop_in, loop_on, ensure_off_ok, ensure_on_ok,
}

-- the fields that a round leaves
abbrev Keeps : Beecon → Beecon → Type 0
Keeps b c =
    (c.failed ≡ b.failed)
    × (c.pwr_event ≡ b.pwr_event)
    × (c.ore_beacon_default ≡ b.ore_beacon_default)
    × (c.state ≡ b.state)

either : (on : Bool) (b c d : Beecon) → Keeps b c → Keeps b d → Keeps b (if on then c else d)
either true b c d h k = h
either false b c d h k = k

ensure_on-Keeps : (b : Beecon) → Keeps b (Beecon.ensure_on b)
unfolding Beecon.ensure_on
ensure_on-Keeps b = either (powered b) b _ _ (refl, refl, refl, refl) (refl, refl, refl, refl)

ensure_off-Keeps : (b : Beecon) → Keeps b (Beecon.ensure_off b)
unfolding Beecon.ensure_off
ensure_off-Keeps b = either (powered b) b _ _ (refl, refl, refl, refl) (refl, refl, refl, refl)

-- One round in state 1: powered, and in state 2 next if the power is low.
abbrev Ran : Beecon → Beecon → Type 0
Ran b c =
    IsSound c
    × (powered c ≡ true)
    × (c.state ≡ (if b.pwr_event then 2 else 1))
    × (c.failed ≡ false)
    × (c.pwr_event ≡ b.pwr_event)
    × (c.ore_beacon_default ≡ b.ore_beacon_default)

loop-Ran : (b : Beecon) → IsSound b → b.failed ≡ false → b.state ≡ 1 → Ran b (loop b)
unfolding Beecon.by_state Beecon.check_powersave
loop-Ran b s ok e =
    let on = loop_on b s ok e in
    let k = ensure_on-Keeps b in
    (
      on.0,
      on.1,
      ap (λ (c : Beecon). c.state) (loop_in 1 b ok e)
          ∙ ap (λ w. if w then 2 else (Beecon.ensure_on b).state) k.1
          ∙ ap (λ n. if b.pwr_event then 2 else n) (k.3 ∙ e),
      ap (λ (c : Beecon). c.failed) (loop_in 1 b ok e) ∙ k.0 ∙ ok,
      ap (λ (c : Beecon). c.pwr_event) (loop_in 1 b ok e) ∙ k.1,
      ap (λ (c : Beecon). c.ore_beacon_default) (loop_in 1 b ok e) ∙ k.2,
    )

-- One round in state 2: not powered, and in state 1 next if the power is good.
abbrev Saved : Beecon → Beecon → Type 0
Saved b c =
    IsSound c
    × (powered c ≡ false)
    × (c.state ≡ (if b.pwr_event then 2 else 1))
    × (c.ore_beacon ≡ (if powered b then b.ore_beacon_default else b.ore_beacon))
    × (c.failed ≡ false)
    × (c.pwr_event ≡ b.pwr_event)

loop-Saved : (b : Beecon) → IsSound b → b.failed ≡ false → b.state ≡ 2 → Saved b (loop b)
unfolding Beecon.by_state Beecon.check_powergood
loop-Saved b s ok e =
    let off = ensure_off_ok b s in
    let k = ensure_off-Keeps b in
    subst (Saved b) (sym (loop_in 2 b ok e)) (
      off.0,
      off.1,
      ap (λ w. if w then (Beecon.ensure_off b).state else 1) k.1
          ∙ ap (λ n. if b.pwr_event then n else 1) (k.3 ∙ e),
      off.2,
      k.0 ∙ ok,
      k.1,
    )

-- With the card on in state 1 and the power low, two rounds switch the card off, give the satellite's
-- beacon its own delay back, and wait in state 2.
pub loops_power_low :
    (b : Beecon)
    → IsSound b
    → b.failed ≡ false
    → b.state ≡ 1
    → b.pwr_event ≡ true
    → let b' = loop (loop b) in
      (powered b' ≡ false) × (b'.ore_beacon ≡ b.ore_beacon_default) × (b'.state ≡ 2)
loops_power_low b s ok e low =
    let r = loop-Ran b s ok e in
    let t = loop-Saved (loop b) r.0 r.3 (r.2 ∙ ap (λ w. if w then 2 else 1) low) in
    (
      t.1,
      t.3 ∙ ap (λ w. if w then (loop b).ore_beacon_default else (loop b).ore_beacon) r.1 ∙ r.5,
      t.2 ∙ ap (λ w. if w then 2 else 1) (r.4 ∙ low),
    )

-- In state 2 with the power good again, two rounds power the card, with the satellite's beacon off,
-- and the state is 1.
pub loops_power_good :
    (b : Beecon)
    → IsSound b
    → b.failed ≡ false
    → b.state ≡ 2
    → b.pwr_event ≡ false
    → let b' = loop (loop b) in (powered b' ≡ true) × (b'.ore_beacon ≡ 0) × (b'.state ≡ 1)
loops_power_good b s ok e good =
    let t = loop-Saved b s ok e in
    let r = loop-Ran (loop b) t.0 t.4 (t.2 ∙ ap (λ w. if w then 2 else 1) good) in
    (
      r.1,
      subst (λ on. Silent on (loop (loop b)).ore_beacon) r.1 r.0.3,
      r.2 ∙ ap (λ w. if w then 2 else 1) (t.5 ∙ good),
    )

-- What the other parts of the program do between two rounds.
pub data Change : Type 0 where
  round : Change
  command : ℕ → Change
  power_low : Bool → Change

unfoldable pub change : Change → Beecon → Beecon
change round b = loop b
change (command state) b = record b { state = state }
change (power_low event) b = record b { pwr_event = event }

unfoldable pub run : List Change → Beecon → Beecon
run [] b = b
run (c ∷ cs) b = run cs (change c b)

by_state-IsSound : (b : Beecon) → IsSound b → IsSound (Beecon.by_state b.state b)
unfolding Beecon.by_state Beecon.check_powersave Beecon.check_powergood
by_state-IsSound b s =
    pick (b.state == 0) _ _ (ensure_off_ok b s).0 (
      pick (b.state == 1) _ _ (ensure_on_ok b s).0
        (pick (b.state == 2) _ _ (ensure_off_ok b s).0 s))
  where
    pick : (w : Bool) (c d : Beecon) → IsSound c → IsSound d → IsSound (if w then c else d)
    pick true c d h k = h
    pick false c d h k = k

change-IsSound : (c : Change) (b : Beecon) → IsSound b → IsSound (change c b)
unfolding change loop
change-IsSound round b s = by_failed b.failed
  where
    by_failed : (f : Bool) → IsSound (if f then b else Beecon.by_state b.state b)
    by_failed true = s
    by_failed false = by_state-IsSound b s
change-IsSound (command state) b s = s
change-IsSound (power_low event) b s = s

pub run-IsSound : (cs : List Change) (b : Beecon) → IsSound b → IsSound (run cs b)
unfolding run
run-IsSound [] b s = s
run-IsSound (c ∷ cs) b s = run-IsSound cs (change c b) (change-IsSound c b s)

-- A probe without a reset finds a card that was configured, and changes nothing.
probe-off : (n : Node.Node) → Node.probe false (off n) ≡ (true, off n)
unfolding Node.probe Node.probe_reset is_valid read_reg
probe-off n = refl

-- a new handler, on a quiet bus
new_quiet :
    (state ore_beacon : ℕ) (pwr_event : Bool) (chip : Chip)
    → IsQuiet chip
    → Beecon.new state ore_beacon pwr_event chip ≡ record {
      state = state;
      ore_beacon = ore_beacon;
      ore_beacon_default = ore_beacon;
      pwr_event = pwr_event;
      beecon_node = off (Node.new Node.plain Beecon.beecon_addr chip);
      failed = false;
    }
unfolding Beecon.new Node.new
new_quiet state ore_beacon pwr_event chip q =
    let n = Node.new Node.plain Beecon.beecon_addr chip in
    ap (λ (m : Node.Node). made (Node.probe false m)) (configure_quiet n q) ∙ ap made (probe-off n)
  where
    made : Bool × Node.Node → Beecon
    made (found, node) = record {
      state = state;
      ore_beacon = ore_beacon;
      ore_beacon_default = ore_beacon;
      pwr_event = pwr_event;
      beecon_node = node;
      failed = not found;
    }

new-IsSound :
    (state ore_beacon : ℕ) (pwr_event : Bool) (chip : Chip)
    → IsValid chip
    → IsQuiet chip
    → IsSound (Beecon.new state ore_beacon pwr_event chip)
unfolding Node.new is_enabled output_status read_reg
new-IsSound state ore_beacon pwr_event chip v q = rw (new_quiet state ore_beacon pwr_event chip q) (
  record {
    input_byte = v.input_byte;
    output_byte = omega arith;
    polarity_byte = omega arith;
    configuration_byte = omega arith;
    timeout_byte = omega arith;
  },
  refl,
  cc,
  tt,
)

-- From a new handler, whose card's registers are bytes, over any rounds, commands of a state (also one
-- that is not 0, 1 or 2) and changes of the power, while the card's bus raises no error: the
-- registers stay bytes, the bus quiet and the card found, and whenever the card is powered, the
-- delay of the satellite's beacon is 0.
pub run-new-IsSound :
    (cs : List Change) (state ore_beacon : ℕ) (pwr_event : Bool) (chip : Chip)
    → IsValid chip
    → IsQuiet chip
    → IsSound (run cs (Beecon.new state ore_beacon pwr_event chip))
run-new-IsSound cs state ore_beacon pwr_event chip v q =
    run-IsSound cs (Beecon.new state ore_beacon pwr_event chip)
      (new-IsSound state ore_beacon pwr_event chip v q)

-- Where the card is not powered and the delay of the satellite's beacon is 0, as a failed `enable`
-- leaves them, the handler that is told to switch off never gives the beacon its delay back.
pub rounds_silent :
    (n : ℕ) (b : Beecon)
    → IsSound b
    → b.failed ≡ false
    → b.state ≡ 0
    → powered b ≡ false
    → b.ore_beacon ≡ 0
    → (run (replicate n round) b).ore_beacon ≡ 0
unfolding run change Beecon.by_state
rounds_silent zero b s ok e down zero_delay = zero_delay
rounds_silent (suc n) b s ok e down zero_delay =
    let off = ensure_off_ok b s in
    let k = ensure_off-Keeps b in
    subst (λ c. (run (replicate n round) c).ore_beacon ≡ 0) (sym (loop_in 0 b ok e))
      (rounds_silent n (Beecon.ensure_off b) off.0 (k.0 ∙ ok) (k.3 ∙ e) off.1
        (off.2 ∙ ap (λ w. if w then b.ore_beacon_default else b.ore_beacon) down ∙ zero_delay))
