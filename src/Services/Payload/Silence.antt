-- ===== src/Services/Payload/Silence.antt =====
-- oresat_c3/services/payload.py: the beacon of the satellite and the Beecon card, while the card's bus
-- raises no error.
use mathlib.Core.Path.{subst}
use oresat_c3_software_esi.Base.{
  ℕ, ◌≡◌, ◌≢◌, refl, ◌∙◌, ap, sym, Bool, true, false, [], testbit, if◌then◌else◌, arith, Bool-cases,
  inl, inr,
}
use oresat_c3_software_esi.Drivers.Max7310.Live.{IsValid, IsQuiet}
use oresat_c3_software_esi.Drivers.Max7310.Pins.{output_status-testbit}
use oresat_c3_software_esi.Services.Payload.Beecon
use oresat_c3_software_esi.Services.Payload.Beecon.{Beecon, looked, turn_on, turn_off, loop}
use oresat_c3_software_esi.Subsystems.Opd.Node.{Node, is_enabled, not_found, enable_pin}
use oresat_c3_software_esi.Subsystems.Opd.Power.{enable_ok, disable_ok}

abbrev pub powered : Beecon → Bool
powered b = (is_enabled b.beecon_node).0

-- While the card is powered the satellite's own beacon is off.
abbrev pub Silent : Bool → ℕ → Type 0
Silent true delay = delay ≡ 0
Silent false delay = Unit

abbrev pub IsSound : Beecon → Type 0
IsSound b =
    IsValid b.beecon_node.chip
    × IsQuiet b.beecon_node.chip
    × (b.beecon_node.status ≢ not_found)
    × Silent (powered b) b.ore_beacon

-- the card as a look at the enable pin leaves it
abbrev seen : Node → Node
seen n = record n { chip = record n.chip { bus_errors = [] } }

is_enabled-quiet :
    (n : Node) → IsQuiet n.chip → is_enabled n ≡ (testbit n.chip.output_port enable_pin, seen n)
unfolding is_enabled
is_enabled-quiet n q = ground (arith, output_status-testbit enable_pin n.chip)

looked-seen :
    (b : Beecon)
    → IsQuiet b.beecon_node.chip
    → looked b ≡ record b { beecon_node = seen b.beecon_node }
looked-seen b q =
    ap (λ (p : Bool × Node). record b { beecon_node = p.1 }) (is_enabled-quiet b.beecon_node q)

seen-powered : (n : Node) → IsQuiet n.chip → (is_enabled (seen n)).0 ≡ (is_enabled n).0
seen-powered n q =
    ap (λ (p : Bool × Node). p.0) (is_enabled-quiet (seen n) refl ∙ sym (is_enabled-quiet n q))

byte_chip : (n : Node) → IsValid n.chip → IsValid (seen n).chip
byte_chip n v = ground (arith, v)

looked-IsSound : (b : Beecon) → IsSound b → IsSound (looked b) × (powered (looked b) ≡ powered b)
looked-IsSound b (v, q, f, s) =
    subst (λ c. IsSound c × (powered c ≡ powered b)) (sym (looked-seen b q))
      (
        (byte_chip b.beecon_node v, refl, f, subst (λ on. Silent on b.ore_beacon) (sym again) s),
        again,
      )
  where
    again : (is_enabled (seen b.beecon_node)).0 ≡ (is_enabled b.beecon_node).0
    again = seen-powered b.beecon_node q

turn_on-IsSound : (b : Beecon) → IsSound b → IsSound (turn_on b) × (powered (turn_on b) ≡ true)
turn_on-IsSound b (v, q, f, s) =
    let (st, on, v', q') = enable_ok false b.beecon_node v q f in
    ((v', q', ground (arith, st), rw on refl), on)

turn_off-IsSound : (b : Beecon) → IsSound b → IsSound (turn_off b) × (powered (turn_off b) ≡ false)
turn_off-IsSound b (v, q, f, s) =
    let (st, on, v', q') = disable_ok b.beecon_node v q in
    ((v', q', ground (arith, st), rw on tt), on)

-- The card is not powered after it, and the satellite's beacon has its own delay again if it was.
pub ensure_off_ok :
    (b : Beecon)
    → IsSound b
    → let b' = Beecon.ensure_off b in
      IsSound b'
      × (powered b' ≡ false)
      × (b'.ore_beacon ≡ (if powered b then b.ore_beacon_default else b.ore_beacon))
unfolding Beecon.ensure_off
ensure_off_ok b s = elim (Bool-cases (powered b)) [
  | inl on ↦ rw on (stopped (looked-IsSound b s))
  | inr down ↦ rw down (untouched (looked-IsSound b s) down)
]
  where
    stopped :
        IsSound (looked b) × (powered (looked b) ≡ powered b)
        → IsSound (turn_off (looked b))
          × (powered (turn_off (looked b)) ≡ false)
          × (b.ore_beacon_default ≡ b.ore_beacon_default)
    stopped l = let t = turn_off-IsSound (looked b) l.0 in (t.0, t.1, refl)

    untouched :
        IsSound (looked b) × (powered (looked b) ≡ powered b)
        → powered b ≡ false
        → IsSound (looked b) × (powered (looked b) ≡ false) × (b.ore_beacon ≡ b.ore_beacon)
    untouched l down = (l.0, l.1 ∙ down, refl)

pub ensure_on_ok :
    (b : Beecon) → IsSound b → let b' = Beecon.ensure_on b in IsSound b' × (powered b' ≡ true)
unfolding Beecon.ensure_on
ensure_on_ok b s = elim (Bool-cases (powered b)) [
  | inl on ↦ let l = looked-IsSound b s in rw on (l.0, l.1 ∙ on)
  | inr down ↦ rw down (turn_on-IsSound (looked b) (looked-IsSound b s).0)
]

pub loop_in : (k : ℕ) (b : Beecon) → b.failed ≡ false → b.state ≡ k → loop b ≡ Beecon.by_state k b
unfolding loop
loop_in k b ok e =
    ap (λ f. if f then b else Beecon.by_state b.state b) ok ∙ ap (λ k. Beecon.by_state k b) e

-- the round that powers the card
pub loop_on :
    (b : Beecon)
    → IsSound b
    → b.failed ≡ false
    → b.state ≡ 1
    → IsSound (loop b) × (powered (loop b) ≡ true)
unfolding Beecon.by_state
loop_on b s ok e =
    subst (λ c. IsSound c × (powered c ≡ true)) (sym (loop_in 1 b ok e)) (ensure_on_ok b s)
