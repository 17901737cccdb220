-- ===== src/Drivers/Max7310.antt =====
-- oresat_c3/drivers/max7310.py: the GPIO expander. A method is an action on the chip that returns
-- its value or raises `Max7310Error`, and that keeps what was written before a raise.
--
-- The registers are those of `MockMax7310._regs`. Whether an I2C transfer raises is up to the bus:
-- `bus_errors` holds, for each coming transfer, whether `i2c_rdwr` raises, and a chip whose list
-- has run out raises no more. The mock is the chip with the empty list. Pins and data are natural
-- numbers, since no caller passes a negative one.
pub mod Bus
pub mod Pins
pub mod Live
mod Tests
pub use Bus.{
  Reg, Error, bad_address, invalid_pin, bad_data, bus_error, Result, ok, err, Chip, addr_min,
  addr_max, Action, pure, lift, ◌>>=◌, ◌>>◌, raises, later, set_reg, bind_rule, then_ok, answered,
}
unfoldable pub use Bus.{read_reg, write_reg}
use oresat_c3_software_esi.Base.{
  ℕ, ◌/◌, ◌^◌, bit_and, bit_or, Bool, true, false, not, ◌&&◌, List, [], ◌∷◌, ltb, leb, ◌==◌,
  if◌then◌else◌, and_not,
}

-- `Max7310.__init__` with `MockMax7310.__init__`: the address range, and the values at power on.
unfoldable pub new : ℕ → ℕ → List Bool → Result Chip
new addr default_input bus_errors =
    if leb addr_min addr && leb addr addr_max
    then ok (record {
      input_port = default_input;
      output_port = 0x00;
      polarity_inversion = 0xF0;
      configuration = 0xFF;
      timeout = 0x01;
      bus_errors = bus_errors;
    })
    else err bad_address

-- `_valid_pin`
abbrev pub is_valid_pin : ℕ → Bool
is_valid_pin pin_num = ltb pin_num 8

-- the loop `for pin in args: self._valid_pin(pin); value |= 1 << pin`
unfoldable pub add_pins : ℕ → List ℕ → Result ℕ
add_pins value [] = ok value
add_pins value (pin ∷ args) =
    let rest = add_pins (bit_or value (2 ^ pin)) args in
    if is_valid_pin pin then rest else err invalid_pin

unfoldable pub pin_mask : ℕ → List ℕ → Result ℕ
pin_mask pin_num args =
    if is_valid_pin pin_num then add_pins (2 ^ pin_num) args else err invalid_pin

-- `configure`, in the order of its writes
unfoldable pub configure : ℕ → ℕ → ℕ → ℕ → Action (Unit {0})
configure output_port polarity_inversion configuration timeout = do
  write_reg Reg.timeout timeout
  write_reg Reg.polarity_inversion polarity_inversion
  write_reg Reg.output_port output_port
  write_reg Reg.configuration configuration

-- `reset`
unfoldable pub reset : Action (Unit {0})
reset = do
  write_reg Reg.configuration 0xFF
  write_reg Reg.output_port 0x00
  write_reg Reg.polarity_inversion 0xF0
  write_reg Reg.timeout 0x01

unfoldable pub output_set : ℕ → List ℕ → Action (Unit {0})
output_set pin_num args = do
  value ← lift (pin_mask pin_num args)
  result ← read_reg Reg.output_port
  write_reg Reg.output_port (bit_or result value)

unfoldable pub output_clear : ℕ → List ℕ → Action (Unit {0})
output_clear pin_num args = do
  value ← lift (pin_mask pin_num args)
  result ← read_reg Reg.output_port
  write_reg Reg.output_port (and_not result value)

-- `bool((result >> pin_num) & 0x01)`
abbrev pub pin_of : ℕ → ℕ → Bool
pin_of result pin_num = bit_and (result / 2 ^ pin_num) 1 == 1

unfoldable pub output_status : ℕ → Action Bool
output_status pin_num = do result ← read_reg Reg.output_port; pure (pin_of result pin_num)

unfoldable pub input_status : ℕ → Action Bool
input_status pin_num = do result ← read_reg Reg.input_port; pure (pin_of result pin_num)

-- the setter of the property `configuration`
unfoldable pub set_configuration : ℕ → Action (Unit {0})
set_configuration value = write_reg Reg.configuration value

-- the property `is_valid`, which raises nothing
unfoldable pub is_valid : Chip → Bool × Chip
is_valid c = let (r, c') = read_reg Reg.input_port c in (answered r, c')

-- `MockMax7310._mock_input_set` and `_mock_input_clear`
pub mock_input_set : ℕ → Action (Unit {0})
mock_input_set pin_num c =
    if is_valid_pin pin_num
    then (ok tt, record c { input_port = bit_or c.input_port (2 ^ pin_num) })
    else (err invalid_pin, c)

pub mock_input_clear : ℕ → Action (Unit {0})
mock_input_clear pin_num c =
    if is_valid_pin pin_num
    then (ok tt, record c { input_port = and_not c.input_port (2 ^ pin_num) })
    else (err invalid_pin, c)
