-- ===== src/Subsystems/Antennas/Firing.antt =====
-- oresat_c3/subsystems/antennas.py: which antennas are fired, and how their pins are left.
use oresat_c3_software_esi.Base.{
  some, testbit, ◌≡◌, refl, ap, ◌∙◌, ◌⊎◌, arith, ℕ, true, List, map, [], ◌∷◌, ◌++◌, if◌then◌else◌,
}
use oresat_c3_software_esi.Drivers.Max7310.{
  Chip, Result, ok, err, answered, bus_error, configure, output_clear, set_configuration, read_reg,
  write_reg, pin_mask, add_pins,
}
use oresat_c3_software_esi.Drivers.Max7310.Live.{
  IsQuiet, configure_ok, Configures, configure-Configures,
}
use oresat_c3_software_esi.Subsystems.Antennas.{
  fire_ant_1_pin, fire_ant_2_pin, live_inputs, safe_inputs, fire, then_clear, deploy_card, Card,
  Pulse, pz_end, mz_end, mz_mid, pz_mid, Antennas, set_chip, attempt, deploy,
}

-- a chip whose firing pins are low and inputs
abbrev pub safed : Chip → Chip
safed c = record c {
  output_port = 0;
  polarity_inversion = 0;
  configuration = 0b1111;
  timeout = 1;
  bus_errors = [];
}

-- the chip while its antennas are fired
abbrev live : Chip → Chip
live c = record c {
  output_port = 0b0110;
  polarity_inversion = 0;
  configuration = 0b1001;
  timeout = 1;
  bus_errors = [];
}

deploy_card_ok : (c : Chip) → IsQuiet c → deploy_card c ≡ (some (live c), safed c)
unfolding deploy_card output_clear read_reg write_reg pin_mask add_pins set_configuration
deploy_card_ok c q =
    rw
      (
        deploy_card,
        configure_ok fire 0 live_inputs 1 c q (omega arith) (omega arith) (omega arith)
            (omega arith),
      )
      refl

-- both firing pins driven high
abbrev pub both : Card → Pulse
both card = record { card = card; ant_1 = true; ant_2 = true }

attempt_ok :
    (card : Card) (a : Antennas)
    → IsQuiet (a.chips card)
    → attempt card a ≡ record {
      chips = set_chip card (safed (a.chips card)) a.chips;
      fired = a.fired ++ (both card ∷ []);
    }
unfolding attempt testbit
attempt_ok card a q = rw (attempt, deploy_card_ok (a.chips card) q) refl

-- one attempt, and then `rest`
abbrev after_attempt : Card → Antennas → Antennas
after_attempt card a = record {
  chips = set_chip card (safed (a.chips card)) a.chips;
  fired = a.fired ++ (both card ∷ []);
}

deploy-attempts :
    (a : Antennas)
    → ((card : Card) → IsQuiet (a.chips card))
    → deploy a
      ≡ after_attempt pz_mid (after_attempt mz_mid (after_attempt pz_end (after_attempt mz_end a)))
unfolding deploy
deploy-attempts a q =
    let a1 = after_attempt mz_end a in
    let a2 = after_attempt pz_end a1 in
    let a3 = after_attempt mz_mid a2 in
    ap (λ b. attempt pz_mid (attempt mz_mid (attempt pz_end b))) (attempt_ok mz_end a (q mz_end))
    ∙ ap (λ b. attempt pz_mid (attempt mz_mid b)) (attempt_ok pz_end a1 (q pz_end))
    ∙ ap (attempt pz_mid) (attempt_ok mz_mid a2 (q mz_mid))
    ∙ attempt_ok pz_mid a3 (q pz_mid)

four :
    (fired : List Pulse)
    → (((fired ++ (both mz_end ∷ [])) ++ (both pz_end ∷ [])) ++ (both mz_mid ∷ []))
        ++ (both pz_mid ∷ [])
      ≡ fired ++ map both (mz_end ∷ pz_end ∷ mz_mid ∷ pz_mid ∷ [])
four [] = refl
four (f ∷ fired) = ap (λ l. f ∷ l) (four fired)

each :
    (card : Card) (a : Antennas)
    → (after_attempt pz_mid
          (after_attempt mz_mid (after_attempt pz_end (after_attempt mz_end a)))).chips
        card
      ≡ safed (a.chips card)
each pz_end a = refl
each mz_end a = refl
each mz_mid a = refl
each pz_mid a = refl

-- Where no transfer fails, `deploy` drives both firing pins of all four cards high for the timeout, the
-- minus z end card first, then plus z end, minus z mid and plus z mid, and leaves the pins of each low
-- and inputs.
pub deploy_ok :
    (a : Antennas)
    → ((card : Card) → IsQuiet (a.chips card))
    → ((deploy a).fired ≡ a.fired ++ map both (mz_end ∷ pz_end ∷ mz_mid ∷ pz_mid ∷ []))
      × ((card : Card) → (deploy a).chips card ≡ safed (a.chips card))
deploy_ok a q =
    let e = deploy-attempts a q in
    (ap (λ b. b.fired) e ∙ four a.fired, λ card. ap (λ b. b.chips card) e ∙ each card a)

output_clear-configuration :
    (c : Chip)
    → (output_clear fire_ant_1_pin (fire_ant_2_pin ∷ []) c).1.configuration ≡ c.configuration
unfolding output_clear read_reg write_reg pin_mask add_pins
output_clear-configuration c = ground arith

-- the directions before the last transfer
then_clear-configuration :
    (c : Chip) (out : Result (Unit {0}) × Chip)
    → Configures fire 0 live_inputs 1 c out
    → (then_clear out).1.configuration ≡ (if answered out.0 then live_inputs else c.configuration)
then_clear-configuration c (ok x, c') (o, p, g, t) = output_clear-configuration c' ∙ g
then_clear-configuration c (err x, c') g = g

set_configuration-cases :
    (c : Chip) (k : ℕ)
    → c.configuration ≡ k
    → ((set_configuration safe_inputs c).1.configuration ≡ safe_inputs)
      ⊎ (((set_configuration safe_inputs c).0 ≡ err bus_error)
          × ((set_configuration safe_inputs c).1.configuration ≡ k))
unfolding set_configuration write_reg
set_configuration-cases c k e = ground (arith, e)

-- On any bus `_deploy_card` ends with every antenna pin an input, or its last transfer raised; then
-- the firing pins are still outputs if they were driven, and the directions are as they were if not.
pub deploy_card-safe_inputs :
    (c : Chip)
    → let out = deploy_card c in
      let cleared = then_clear (configure fire 0 live_inputs 1 c) in
      (out.1.configuration ≡ safe_inputs)
      ⊎ (((set_configuration safe_inputs cleared.1).0 ≡ err bus_error)
          × (out.1.configuration ≡ (
              if answered (configure fire 0 live_inputs 1 c).0
              then live_inputs
              else c.configuration)))
unfolding deploy_card
deploy_card-safe_inputs c =
    let out = configure fire 0 live_inputs 1 c in
    set_configuration-cases (then_clear out).1
      (if answered out.0 then live_inputs else c.configuration)
      (then_clear-configuration c out (configure-Configures fire 0 live_inputs 1 c))
