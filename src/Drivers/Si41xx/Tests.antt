-- ===== src/Drivers/Si41xx/Tests.antt =====
-- Inputs and calls with the configuration of the L-band radio.
use oresat_c3_software_esi.Base.{pos, ◌*◌, ◌^◌, ◌≡◌, refl, true, false, [], ◌∷◌, ◌++◌, arith}
use oresat_c3_software_esi.Drivers.Si41xx
use oresat_c3_software_esi.Drivers.Si41xx.{Si41xx, uninit, ready, div1, div2, if_div_bits}
use oresat_c3_software_esi.Drivers.Si41xx.Divider.{ok, calc_div, gcd, halve}
use oresat_c3_software_esi.Drivers.Si41xx.Divider.Exact.{Produces, ref_freq, calc_div-Produces}
use oresat_c3_software_esi.Drivers.Si41xx.Sequence.{Sends, start_writes, start_ok}
use oresat_c3_software_esi.Drivers.Si41xx.Transfer.{listen-transfer}
use oresat_c3_software_esi.Drivers.Si41xx.Tuning.{Tuned, set_if-Tuned}
use oresat_c3_software_esi.Drivers.Si41xx.Wire.{Listener, pack, transfer, listen}

abbrev lband : Si41xx
lband = record {
  state = uninit;
  ref_freq = 16_000_000;
  if_div = div1;
  if_n = pos 1616;
  if_r = pos 32;
  pbib = false;
  pbrb = false;
  edges = [];
}

abbrev listener : Listener
listener = record {
  sen_level = true;
  sclk_level = true;
  sdata_level = false;
  shifted = 5;
  latched = (1, 2) ∷ [];
}

-- The dividers that the radios service writes down for 808 MHz.
calc_div_lband : calc_div ref_freq 808_000_000 ≡ ok (1616, 32)
unfolding calc_div gcd halve
calc_div_lband = refl

listen-transfer_example :
    (listen (transfer (pack 5 1616)) listener).latched ≡ listener.latched ++ ((5, 1616) ∷ [])
listen-transfer_example = listen-transfer 5 1616 listener (omega arith) (omega arith)

calc_div-Produces_example : Produces ref_freq 808_000_000 1616 32
calc_div-Produces_example = calc_div-Produces 808_000_000 1616 32 calc_div_lband

start_ok_example :
    ((Si41xx.start lband).0 ≡ ok tt)
    × ((Si41xx.start lband).1.state ≡ ready)
    × Sends (start_writes div1 1616 32) lband (Si41xx.start lband).1
start_ok_example = start_ok lband 1616 32 refl refl refl (omega arith) (omega arith)

set_if-Tuned_example : Tuned (433_000_000 * 2 ^ 0) lband (Si41xx.set_if 433_000_000 lband)
set_if-Tuned_example = set_if-Tuned 433_000_000 lband refl
