-- ===== src/Drivers/Max7310/Pins.antt =====
-- oresat_c3/drivers/max7310.py: what `output_set`, `output_clear` and `output_status` do to single
-- pins.
use native.Mathlib.Nat.{pow-le-pow_right}
use oresat_c3_software_esi.Base.{
  ℕ, ◌^◌, ◌<◌, ◌≡◌, refl, ◌⊎◌, inl, inr, Bool, false, not, ◌&&◌, ◌||◌, List, [], ◌∷◌, arith, ◌==◌,
  if◌then◌else◌, bit_or, testbit, testbit-bit_or, testbit-and_not, testbit-shl, testbit_shr,
  bit_or-lt, Bool-cases,
}
use oresat_c3_software_esi.Drivers.Max7310.{
  Chip, Error, Result, ok, err, add_pins, pin_mask, is_valid_pin, output_set, output_clear,
  output_status, input_status, read_reg, write_reg, raises, later, bus_error,
}

pub Result-cases :
    {A : Type 0} (r : Result A) → ((a : A) × (r ≡ ok a)) ⊎ ((e : Error) × (r ≡ err e))
Result-cases (ok a) = inl (a, refl)
Result-cases (err e) = inr (e, refl)

pub shl-lt : (pin : ℕ) → pin < 8 → 2 ^ pin < 2 ^ 8
shl-lt pin h =
    omega (
      arith,
      pow-le-pow_right (let two : 0 < 2 = omega arith in two) {i = pin} {j = 7} (omega arith),
    )

-- Is pin `i` among the pins?
abbrev pub listed : ℕ → List ℕ → Bool
listed i [] = false
listed i (pin ∷ pins) = (pin == i) || listed i pins

add_pins-bits :
    (i value : ℕ) (args : List ℕ) {w : ℕ}
    → add_pins value args ≡ ok w
    → testbit w i ≡ (testbit value i || listed i args)
unfolding add_pins
add_pins-bits i value [] h = ground arith
add_pins-bits i value (pin ∷ args) h = elim (Bool-cases (is_valid_pin pin)) [
  | inl e ↦ ground (
    arith,
    add_pins-bits i (bit_or value (2 ^ pin)) args (rw e at h),
    testbit-bit_or value (2 ^ pin) i,
    testbit-shl pin i,
  )
  | inr e ↦ let h' : err _ ≡ ok _ = rw e at h in cc
]

pub pin_mask-bits :
    (i pin : ℕ) (args : List ℕ) {w : ℕ}
    → pin_mask pin args ≡ ok w
    → testbit w i ≡ listed i (pin ∷ args)
unfolding pin_mask
pin_mask-bits i pin args {w} h = elim (Bool-cases (is_valid_pin pin)) [
  | inl e ↦ ground (arith, add_pins-bits i (2 ^ pin) args (rw e at h), testbit-shl pin i)
  | inr e ↦ let h' : err _ ≡ ok _ = rw e at h in cc
]

-- The registers but the output port.
abbrev pub SameOthers : Chip → Chip → Type 0
SameOthers c c' =
    (c'.input_port ≡ c.input_port)
    × (c'.polarity_inversion ≡ c.polarity_inversion)
    × (c'.configuration ≡ c.configuration)
    × (c'.timeout ≡ c.timeout)

-- What a call on the pins did: the new value of each output pin `i`, and nothing else; or, after a
-- raise, nothing at all.
abbrev pub Drives : (Bool → Bool → Bool) → ℕ → List ℕ → Chip → Result (Unit {0}) × Chip → Type 0
Drives f i pins c (ok _, c') =
    (testbit c'.output_port i ≡ f (testbit c.output_port i) (listed i pins)) × SameOthers c c'
Drives f i pins c (err _, c') = (c'.output_port ≡ c.output_port) × SameOthers c c'

-- A call of `output_set` that returns sets the pins it names, leaves every other output pin and
-- every other register, and one that raises leaves all registers.
pub output_set-Drives :
    (i pin : ℕ) (args : List ℕ) (c : Chip)
    → Drives (λ old named. old || named) i (pin ∷ args) c (output_set pin args c)
unfolding output_set read_reg write_reg
output_set-Drives i pin args c = elim (Result-cases (pin_mask pin args)) [
  | inl (w, e) ↦ ground (arith, e, pin_mask-bits i pin args e, testbit-bit_or c.output_port w i)
  | inr (x, e) ↦ ground (arith, e)
]

-- A call of `output_clear` that returns clears the pins it names, leaves every other output pin and
-- every other register, and one that raises leaves all registers.
pub output_clear-Drives :
    (i pin : ℕ) (args : List ℕ) (c : Chip)
    → Drives (λ old named. old && not named) i (pin ∷ args) c (output_clear pin args c)
unfolding output_clear read_reg write_reg
output_clear-Drives i pin args c = elim (Result-cases (pin_mask pin args)) [
  | inl (w, e) ↦ ground (arith, e, pin_mask-bits i pin args e, testbit-and_not c.output_port w i)
  | inr (x, e) ↦ ground (arith, e)
]

-- `output_status` reads the bit of the output port, or raises; it changes no register.
pub output_status-testbit :
    (pin : ℕ) (c : Chip)
    → let (r, c') = output_status pin c in
      (r ≡ (if raises c.bus_errors then err bus_error else ok (testbit c.output_port pin)))
      × (c' ≡ record c { bus_errors = later c.bus_errors })
unfolding output_status read_reg
output_status-testbit pin c = ground (arith, testbit_shr c.output_port pin)

pub input_status-testbit :
    (pin : ℕ) (c : Chip)
    → let (r, c') = input_status pin c in
      (r ≡ (if raises c.bus_errors then err bus_error else ok (testbit c.input_port pin)))
      × (c' ≡ record c { bus_errors = later c.bus_errors })
unfolding input_status read_reg
input_status-testbit pin c = ground (arith, testbit_shr c.input_port pin)

-- The mask of valid pins is a byte.
add_pins-lt :
    (value : ℕ) (args : List ℕ) {w : ℕ} → value < 2 ^ 8 → add_pins value args ≡ ok w → w < 2 ^ 8
unfolding add_pins
add_pins-lt value [] b h = ground arith
add_pins-lt value (pin ∷ args) b h = elim (Bool-cases (is_valid_pin pin)) [
  | inl e ↦
      add_pins-lt (bit_or value (2 ^ pin)) args
        (bit_or-lt 8 value (2 ^ pin) b (shl-lt pin (ground arith))) (rw e at h)
  | inr e ↦ let h' : err _ ≡ ok _ = rw e at h in cc
]

pub pin_mask-lt : (pin : ℕ) (args : List ℕ) {w : ℕ} → pin_mask pin args ≡ ok w → w < 2 ^ 8
unfolding pin_mask
pin_mask-lt pin args h = elim (Bool-cases (is_valid_pin pin)) [
  | inl e ↦ add_pins-lt (2 ^ pin) args (shl-lt pin (ground arith)) (rw e at h)
  | inr e ↦ let h' : err _ ≡ ok _ = rw e at h in cc
]
