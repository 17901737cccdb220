-- ===== src/Drivers/Si41xx.antt =====
-- oresat_c3/drivers/si41xx.py: the synthesizer of the L-band radio. A method is an action on the
-- driver that returns or raises, and that keeps what was written before a raise. Frequencies are
-- natural numbers, since no caller passes a negative one; a divider may be negative.
pub mod Wire
pub mod Transfer
pub mod Divider
pub mod Sequence
pub mod Tuning
mod Tests
use oresat_c3_software_esi.Base.{
  ℕ, ℤ, pos, negsuc, ◌+◌, ◌*◌, ◌^◌, bit_or, Bool, true, false, List, ◌++◌, ltb, ◌||◌, if◌then◌else◌,
}
use oresat_c3_software_esi.Drivers.Si41xx.Wire.{Edge, data_mask, digit, pack, transfer}
use oresat_c3_software_esi.Drivers.Si41xx.Divider.{
  Result, ok, err, Error, bad_data, bad_gain, bad_div, started, calc_div,
}

-- `Si41xxRegister`
pub data Register : Type 0 where
  config phase_gain pwrdown rf1_ndiv rf2_ndiv if_ndiv rf1_rdiv rf2_rdiv if_rdiv : Register

abbrev pub address : Register → ℕ
address config = 0
address phase_gain = 1
address pwrdown = 2
address rf1_ndiv = 3
address rf2_ndiv = 4
address if_ndiv = 5
address rf1_rdiv = 6
address rf2_rdiv = 7
address if_rdiv = 8

pub data State : Type 0 where
  uninit stop ready : State

-- `Si41xxIfdiv`
pub data IfDiv : Type 0 where
  div1 div2 div4 div8 : IfDiv

abbrev pub if_div_bits : IfDiv → ℕ
if_div_bits div1 = 0
if_div_bits div2 = 1
if_div_bits div4 = 3
if_div_bits div8 = 4

-- `Si41xxAuxSel.LOCKDET`
abbrev pub lockdet : ℕ
lockdet = 3

pub record Si41xx : Type 0 where
  pub state : State
  pub ref_freq : ℕ
  pub if_div : IfDiv
  pub if_n : ℤ
  pub if_r : ℤ
  pub pbib : Bool
  pub pbrb : Bool
  -- what the three output lines have been set to, oldest first
  pub edges : List Edge

abbrev pub Action : Type 0
Action = Si41xx → Result (Unit {0}) × Si41xx

-- How a method goes on from what its last call did: a raise ends it.
abbrev pub after : Action → Result (Unit {0}) × Si41xx → Result (Unit {0}) × Si41xx
after rest (ok _, c) = rest c
after rest (err raised, c) = (err raised, c)

infixl 5 ◌>>◌
abbrev pub ◌>>◌ : Action → Action → Action
◌>>◌ first rest c = after rest (first c)

abbrev pub modify : (Si41xx → Si41xx) → Action
modify f c = (ok tt, f c)

-- `_write_reg`
unfoldable pub write_reg : Register → ℕ → Action
write_reg reg value c =
    if ltb data_mask value
    then (err bad_data, c)
    else (ok tt, record c { edges = c.edges ++ transfer (pack (address reg) value) })

-- `_set_config_reg`; both enumerations end in the same bits
unfoldable pub set_config_reg : Bool → Bool → Bool → Bool → ℕ → ℕ → Action
set_config_reg rfpwr autokp autopdb lprw if_div aux_sel = write_reg config (
    bit_or
      (bit_or
        (bit_or
          (bit_or (bit_or (digit rfpwr * 2 ^ 1) (digit autokp * 2 ^ 2)) (digit autopdb * 2 ^ 3))
          (digit lprw * 2 ^ 5))
        (if_div * 2 ^ 10))
      (aux_sel * 2 ^ 12))

-- `value < 0 or value > high`
abbrev pub out_of : ℕ → ℤ → Bool
out_of high (pos n) = ltb high n
out_of high (negsuc n) = true

abbrev pub to_nat : ℤ → ℕ
to_nat (pos n) = n
to_nat (negsuc n) = 0

unfoldable pub set_phase_gain_reg : ℤ → ℤ → ℤ → Action
set_phase_gain_reg kp1 kp2 kpi c =
    if out_of 3 kp1 || out_of 3 kp2 || out_of 3 kpi
    then (err bad_gain, c)
    else write_reg phase_gain
        (bit_or (bit_or (to_nat kp1) (to_nat kp2 * 2 ^ 2)) (to_nat kpi * 2 ^ 4)) c

unfoldable pub set_phase_pwrdown_reg : Bool → Bool → Action
set_phase_pwrdown_reg pbrb pbib = write_reg pwrdown (bit_or (digit pbrb) (digit pbib * 2 ^ 1))

-- the six setters of a divider, which differ in the register and in the bound
unfoldable pub set_div_reg : Register → ℕ → ℤ → Action
set_div_reg reg high value c =
    if out_of high value then (err bad_div, c) else write_reg reg (to_nat value) c

abbrev pub set_rf1_ndiv_reg : ℤ → Action
set_rf1_ndiv_reg = set_div_reg rf1_ndiv 0x3_FFFF

abbrev pub set_rf2_ndiv_reg : ℤ → Action
set_rf2_ndiv_reg = set_div_reg rf2_ndiv 0x1_FFFF

abbrev pub set_if_ndiv_reg : ℤ → Action
set_if_ndiv_reg = set_div_reg if_ndiv 0xFFFF

abbrev pub set_rf1_rdiv_reg : ℤ → Action
set_rf1_rdiv_reg = set_div_reg rf1_rdiv 0x1_FFFF

abbrev pub set_rf2_rdiv_reg : ℤ → Action
set_rf2_rdiv_reg = set_div_reg rf2_rdiv 0x1_FFFF

abbrev pub set_if_rdiv_reg : ℤ → Action
set_if_rdiv_reg = set_div_reg if_rdiv 0x1_FFFF

-- `self._set_phase_pwrdown_reg(self._pbrb, self._pbib)`
abbrev pub write_power : Action
write_power c = set_phase_pwrdown_reg c.pbrb c.pbib c

abbrev pub is_ready : State → Bool
is_ready ready = true
is_ready _ = false

-- `start`, past its guard
unfoldable pub start_up : Action
start_up =
    modify (λ c. record c { pbib = false; pbrb = false })
    >> (λ c. set_config_reg false true false false (if_div_bits c.if_div) lockdet c)
    >> write_reg phase_gain 0
    >> write_power
    >> modify (λ c. record c { pbib = true })
    >> (λ c. set_if_ndiv_reg c.if_n c)
    >> (λ c. set_if_rdiv_reg c.if_r c)
    >> write_power
    >> modify (λ c. record c { state = ready })

unfoldable pub start : Action
unfolding start_up
start c = if is_ready c.state then (err started, c) else start_up c

unfoldable pub switch_off : Action
switch_off c = if is_ready c.state then (write_power >> write_reg config 0) c else (ok tt, c)

-- `stop`
unfoldable pub halt : Action
unfolding switch_off
halt =
    modify (λ c. record c { pbib = false; pbrb = false })
    >> switch_off
    >> modify (λ c. record c { state = stop })

-- `set_if`, past `calc_div`
unfoldable pub set_dividers : ℕ × ℕ → Action
set_dividers (n, r) =
    modify (λ c. record c { if_n = pos n; if_r = pos r; pbib = false })
    >> write_power
    >> (λ c. set_if_ndiv_reg c.if_n c)
    >> (λ c. set_if_rdiv_reg c.if_r c)
    >> modify (λ c. record c { pbib = true })
    >> write_power

abbrev pub then_set : Result (ℕ × ℕ) → Action
then_set (ok dividers) c = set_dividers dividers c
then_set (err raised) c = (err raised, c)

-- `freq << self._if_div`
unfoldable pub set_if : ℕ → Action
unfolding set_dividers
set_if freq c = then_set (calc_div c.ref_freq (freq * 2 ^ if_div_bits c.if_div)) c

unfoldable pub set_if_div : IfDiv → Action
set_if_div div =
    modify (λ c. record c { if_div = div })
    >> set_config_reg false false false false (if_div_bits div) 0
