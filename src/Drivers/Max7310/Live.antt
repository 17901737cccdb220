-- ===== src/Drivers/Max7310/Live.antt =====
-- oresat_c3/drivers/max7310.py: on a quiet bus the methods return, what was written is read back,
-- and every register stays a byte.
use oresat_c3_software_esi.Base.{
  ℕ, ◌^◌, ◌<◌, ◌≡◌, refl, ◌∙◌, inl, inr, Bool, true, not, ◌&&◌, ◌||◌, List, [], ◌∷◌, arith, bit_or,
  bit_and, testbit, bit_or-lt, bit_xor-lt, bit_and-le, Bool-cases,
}
use oresat_c3_software_esi.Drivers.Max7310.{
  Chip, Result, Reg, ok, err, add_pins, pin_mask, is_valid_pin, output_set, output_clear,
  output_status, set_reg, Action, ◌>>=◌, ◌>>◌, later, bind_rule, then_ok, configure, reset,
  set_configuration, read_reg, write_reg, mock_input_set, mock_input_clear,
}
use oresat_c3_software_esi.Drivers.Max7310.Pins.{
  SameOthers, listed, output_set-Drives, output_clear-Drives, output_status-testbit, pin_mask-lt,
  shl-lt,
}

-- Every register holds a byte.
pub record IsValid (c : Chip) : Type 0 where
  pub input_byte : c.input_port < 256
  pub output_byte : c.output_port < 256
  pub polarity_byte : c.polarity_inversion < 256
  pub configuration_byte : c.configuration < 256
  pub timeout_byte : c.timeout < 256

pub write_reg-IsValid : (reg : Reg) (v : ℕ) (c : Chip) → IsValid c → IsValid (write_reg reg v c).1
unfolding write_reg
write_reg-IsValid Reg.input_port v c h = ground arith
write_reg-IsValid Reg.output_port v c h = ground arith
write_reg-IsValid Reg.polarity_inversion v c h = ground arith
write_reg-IsValid Reg.configuration v c h = ground arith
write_reg-IsValid Reg.timeout v c h = ground arith

read_reg-IsValid : (reg : Reg) (c : Chip) → IsValid c → IsValid (read_reg reg c).1
unfolding read_reg
read_reg-IsValid reg c h = ground arith

-- The methods that write registers.
pub data Method : Type 0 where
  configure_all : ℕ → ℕ → ℕ → ℕ → Method
  reset_all : Method
  set_pins : ℕ → List ℕ → Method
  clear_pins : ℕ → List ℕ → Method
  configuration_write : ℕ → Method
  input_pin_set : ℕ → Method
  input_pin_clear : ℕ → Method

abbrev pub call : Method → Chip → Result (Unit {0}) × Chip
call (configure_all o p c t) = configure o p c t
call reset_all = reset
call (set_pins pin args) = output_set pin args
call (clear_pins pin args) = output_clear pin args
call (configuration_write v) = set_configuration v
call (input_pin_set pin) = mock_input_set pin
call (input_pin_clear pin) = mock_input_clear pin

-- Every method, whatever it is given and whether it returns or raises, keeps each register a byte.
pub call-IsValid : (m : Method) (c : Chip) → IsValid c → IsValid (call m c).1
unfolding configure reset output_set output_clear set_configuration mock_input_set mock_input_clear
call-IsValid (configure_all o p g t) c h = grind (arith, write_reg-IsValid)
call-IsValid reset_all c h = grind (arith, write_reg-IsValid)
call-IsValid (set_pins pin args) c h = grind (arith, write_reg-IsValid, read_reg-IsValid)
call-IsValid (clear_pins pin args) c h = grind (arith, write_reg-IsValid, read_reg-IsValid)
call-IsValid (configuration_write v) c h = write_reg-IsValid Reg.configuration v c h
call-IsValid (input_pin_set pin) c h = elim (Bool-cases (is_valid_pin pin)) [
  | inl e ↦
      ground (arith, bit_or-lt 8 c.input_port (2 ^ pin) h.input_byte (shl-lt pin (ground arith)))
  | inr e ↦ ground arith
]
call-IsValid (input_pin_clear pin) c h = ground (
  arith,
  bit_xor-lt 8 c.input_port (bit_and c.input_port (2 ^ pin)) h.input_byte,
  bit_and-le c.input_port c.input_port (2 ^ pin),
)

-- No transfer raises any more: the bus of the mock.
abbrev pub IsQuiet : Chip → Type 0
IsQuiet c = c.bus_errors ≡ []

-- Every pin is one of the eight.
abbrev pub all_valid : List ℕ → Bool
all_valid [] = true
all_valid (pin ∷ pins) = is_valid_pin pin && all_valid pins

add_pins_ok :
    (value : ℕ) (args : List ℕ) → all_valid args ≡ true → (w : ℕ) × (add_pins value args ≡ ok w)
unfolding add_pins
add_pins_ok value [] h = (value, refl)
add_pins_ok value (pin ∷ args) h =
    let (w, e) = add_pins_ok (bit_or value (2 ^ pin)) args (ground arith) in (w, ground (arith, e))

pin_mask_ok :
    (pin : ℕ) (args : List ℕ) → all_valid (pin ∷ args) ≡ true → (w : ℕ) × (pin_mask pin args ≡ ok w)
unfolding pin_mask
pin_mask_ok pin args h =
    let (w, e) = add_pins_ok (2 ^ pin) args (ground arith) in (w, ground (arith, e))

-- On a quiet bus `output_set` and `output_clear` of valid pins return, and leave the bus quiet.
pub output_set_ok :
    (pin : ℕ) (args : List ℕ) (c : Chip)
    → IsValid c
    → IsQuiet c
    → all_valid (pin ∷ args) ≡ true
    → ((output_set pin args c).0 ≡ ok tt) × IsQuiet (output_set pin args c).1
unfolding output_set read_reg write_reg
output_set_ok pin args c v q h =
    let (w, e) = pin_mask_ok pin args h in
    ground (arith, e, bit_or-lt 8 c.output_port w v.output_byte, pin_mask-lt pin args e)

pub output_clear_ok :
    (pin : ℕ) (args : List ℕ) (c : Chip)
    → IsValid c
    → IsQuiet c
    → all_valid (pin ∷ args) ≡ true
    → ((output_clear pin args c).0 ≡ ok tt) × IsQuiet (output_clear pin args c).1
unfolding output_clear read_reg write_reg
output_clear_ok pin args c v q h =
    let (w, e) = pin_mask_ok pin args h in
    ground (
      arith,
      e,
      bit_xor-lt 8 c.output_port (bit_and c.output_port w) v.output_byte,
      bit_and-le c.output_port c.output_port w,
    )

-- Written, then read back: on a quiet bus a pin reads high after `output_set` exactly if it was
-- named or high before, and after `output_clear` exactly if it was high and not named.
pub read_back :
    (i pin : ℕ) (args : List ℕ) (c : Chip)
    → IsValid c
    → IsQuiet c
    → all_valid (pin ∷ args) ≡ true
    → let old = testbit c.output_port i in
      let named = listed i (pin ∷ args) in
      ((output_status i (output_set pin args c).1).0 ≡ ok (old || named))
      × ((output_status i (output_clear pin args c).1).0 ≡ ok (old && not named))
read_back i pin args c v q h = grind (
  arith,
  output_status-testbit i (output_set pin args c).1,
  output_status-testbit i (output_clear pin args c).1,
  output_set-Drives i pin args c,
  output_clear-Drives i pin args c,
  output_set_ok pin args c v q h,
  output_clear_ok pin args c v q h,
)

-- What one write did, by how it ended.
abbrev Writes : Reg → ℕ → Chip → Result (Unit {0}) × Chip → Type 0
Writes reg v c (ok _, c') = c' ≡ set_reg reg v (record c { bus_errors = later c.bus_errors })
Writes reg v c (err _, c') =
    (c'.input_port ≡ c.input_port) × (c'.output_port ≡ c.output_port) × SameOthers c c'

write_reg-Writes : (reg : Reg) (v : ℕ) (c : Chip) → Writes reg v c (write_reg reg v c)
unfolding write_reg
write_reg-Writes reg v c = ground arith

-- What a call of `configure` did, by how it ended.
abbrev pub Configures : ℕ → ℕ → ℕ → ℕ → Chip → Result (Unit {0}) × Chip → Type 0
Configures o p g t c (ok _, c') =
    (c'.output_port ≡ o) × (c'.polarity_inversion ≡ p) × (c'.configuration ≡ g) × (c'.timeout ≡ t)
Configures o p g t c (err _, c') = c'.configuration ≡ c.configuration

-- `configure` writes the pin directions last: where it returns the four registers hold what it was
-- given, and where it raises the directions are as they were.
pub configure-Configures : (o p g t : ℕ) (c : Chip) → Configures o p g t c (configure o p g t c)
unfolding configure
configure-Configures o p g t c =
    let c1 = (write_reg Reg.timeout t c).1 in
    let c2 = (write_reg Reg.polarity_inversion p c1).1 in
    let c3 = (write_reg Reg.output_port o c2).1 in
    let w1 = write_reg-Writes Reg.timeout t c in
    let w2 = write_reg-Writes Reg.polarity_inversion p c1 in
    let w3 = write_reg-Writes Reg.output_port o c2 in
    let k3 : Unit {0} → Action (Unit {0}) = λ _. write_reg Reg.configuration g in
    let k2 : Unit {0} → Action (Unit {0}) = λ _. write_reg Reg.output_port o >>= k3 in
    let k1 : Unit {0} → Action (Unit {0}) = λ _. write_reg Reg.polarity_inversion p >>= k2 in
    bind_rule (Configures o p g t c) (write_reg Reg.timeout t) k1 c
      (λ _ e1.
        bind_rule (Configures o p g t c) (write_reg Reg.polarity_inversion p) k2 c1
          (λ _ e2.
            bind_rule (Configures o p g t c) (write_reg Reg.output_port o) k3 c2
              (λ _ e3. ground (arith, w1, w2, w3, write_reg-Writes Reg.configuration g c3))
              (λ x e. ground (arith, w1, w2, w3)))
          (λ x e. ground (arith, w1, w2)))
      (λ x e. ground (arith, w1))

write_reg_ok :
    (reg : Reg) (v : ℕ) (c : Chip)
    → IsQuiet c
    → v < 256
    → write_reg reg v c ≡ (ok tt, set_reg reg v (record c { bus_errors = [] }))
unfolding write_reg
write_reg_ok reg v c q h = ground arith

-- On a quiet bus `configure` of bytes returns with the four registers written.
pub configure_ok :
    (o p g t : ℕ) (c : Chip)
    → IsQuiet c
    → o < 256
    → p < 256
    → g < 256
    → t < 256
    → configure o p g t c ≡ (
      ok tt,
      record c {
        output_port = o;
        polarity_inversion = p;
        configuration = g;
        timeout = t;
        bus_errors = [];
      },
    )
unfolding configure
configure_ok o p g t c q ho hp hg ht =
    let c1 = set_reg Reg.timeout t (record c { bus_errors = [] }) in
    let c2 = set_reg Reg.polarity_inversion p c1 in
    let c3 = set_reg Reg.output_port o c2 in
    let k3 : Unit {0} → Action (Unit {0}) = λ _. write_reg Reg.configuration g in
    let k2 : Unit {0} → Action (Unit {0}) = λ _. write_reg Reg.output_port o >>= k3 in
    let k1 : Unit {0} → Action (Unit {0}) = λ _. write_reg Reg.polarity_inversion p >>= k2 in
    then_ok (write_reg Reg.timeout t) k1 c (write_reg_ok Reg.timeout t c q ht)
    ∙ then_ok (write_reg Reg.polarity_inversion p) k2 c1
        (write_reg_ok Reg.polarity_inversion p c1 refl hp)
    ∙ then_ok (write_reg Reg.output_port o) k3 c2 (write_reg_ok Reg.output_port o c2 refl ho)
    ∙ write_reg_ok Reg.configuration g c3 refl hg

-- On a quiet bus `reset` puts the power-on values back.
pub reset_ok :
    (c : Chip)
    → IsQuiet c
    → reset c ≡ (
      ok tt,
      record c {
        output_port = 0x00;
        polarity_inversion = 0xF0;
        configuration = 0xFF;
        timeout = 0x01;
        bus_errors = [];
      },
    )
unfolding reset write_reg
reset_ok c q = ground arith

pub set_configuration_ok :
    (v : ℕ) (c : Chip)
    → IsQuiet c
    → v < 256
    → set_configuration v c ≡ (ok tt, record c { configuration = v; bus_errors = [] })
unfolding set_configuration
set_configuration_ok v c q h = write_reg_ok Reg.configuration v c q h

-- The direction register is apart from the output port.
pub set_configuration-outputs :
    (v : ℕ) (c : Chip) → (set_configuration v c).1.output_port ≡ c.output_port
unfolding set_configuration write_reg
set_configuration-outputs v c = ground arith

-- The action returns, and leaves the bus quiet and every register a byte.
abbrev pub Lives : Action (Unit {0}) → Chip → Type 0
Lives m c = ((m c).0 ≡ ok tt) × IsQuiet (m c).1 × IsValid (m c).1

pub output_set-Lives :
    (pin : ℕ) (c : Chip)
    → IsValid c
    → IsQuiet c
    → is_valid_pin pin ≡ true
    → Lives (output_set pin []) c
output_set-Lives pin c v q h =
    let (e, q') = output_set_ok pin [] c v q (ground (arith, h)) in
    (e, q', call-IsValid (set_pins pin []) c v)

pub output_clear-Lives :
    (pin : ℕ) (c : Chip)
    → IsValid c
    → IsQuiet c
    → is_valid_pin pin ≡ true
    → Lives (output_clear pin []) c
output_clear-Lives pin c v q h =
    let (e, q') = output_clear_ok pin [] c v q (ground (arith, h)) in
    (e, q', call-IsValid (clear_pins pin []) c v)

pub set_configuration-Lives :
    (g : ℕ) (c : Chip) → IsValid c → IsQuiet c → g < 256 → Lives (set_configuration g) c
set_configuration-Lives g c v q h =
    rw (set_configuration_ok g c q h) (refl, refl, ground (arith, v))

pub then-Lives :
    (m k : Action (Unit {0})) (c : Chip)
    → Lives m c
    → ((c' : Chip) → IsValid c' → IsQuiet c' → Lives k c')
    → Lives (m >> k) c
then-Lives m k c (e, q, v) next = ground (arith, e, next (m c).1 v q)
