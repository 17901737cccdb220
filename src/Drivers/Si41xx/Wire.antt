-- ===== src/Drivers/Si41xx/Wire.antt =====
-- oresat_c3/drivers/si41xx.py: `_write_reg`, the bit-banged transfer, as the edges that it puts on
-- the three output lines, oldest first. Setting a line is taken to succeed.
use oresat_c3_software_esi.Base.{
  ℕ, zero, suc, ◌+◌, ◌*◌, ◌/◌, ◌%◌, ◌^◌, bit_or, bit_and, Bool, true, false, not, List, [], ◌∷◌,
  ◌++◌, ◌==◌, if◌then◌else◌,
}

pub data Pin : Type 0 where
  sen sclk sdata : Pin

-- one `set_value`
abbrev pub Edge : Type 0
Edge = Pin × Bool

abbrev pub msg_size : ℕ
msg_size = 22

abbrev pub msg_msb : ℕ
msg_msb = 0x20_0000

abbrev pub data_mask : ℕ
data_mask = 0x3_FFFF

-- `word`
unfoldable pub pack : ℕ → ℕ → ℕ
pack reg value = bit_or reg (bit_and value data_mask * 2 ^ 4)

-- the loop over the bits
unfoldable pub clock_out : ℕ → ℕ → List Edge
clock_out zero word = []
clock_out (suc rounds) word =
    (sclk, false)
    ∷ (sdata, not (bit_and word msg_msb == 0))
    ∷ (sclk, true)
    ∷ clock_out rounds (word * 2)

-- all edges of one transfer
unfoldable pub transfer : ℕ → List Edge
transfer word =
    (sen, false) ∷ (clock_out msg_size word ++ ((sclk, false) ∷ (sen, true) ∷ (sclk, true) ∷ []))

-- The synthesizer's end of the wires, as its data sheet has it: a rising SCLK shifts SDATA in while
-- SEN is low, and a rising SEN latches the last 22 bits, the register's address in the low four.
pub record Listener : Type 0 where
  pub sen_level : Bool
  pub sclk_level : Bool
  pub sdata_level : Bool
  pub shifted : ℕ
  pub latched : List (ℕ × ℕ)

abbrev pub digit : Bool → ℕ
digit true = 1
digit false = 0

abbrev pub latch : ℕ → ℕ × ℕ
latch bits = (bits % 16, bits / 16 % 0x4_0000)

unfoldable pub hear : Edge → Listener → Listener
hear (sen, true) l = record l {
  sen_level = true;
  latched = if l.sen_level then l.latched else l.latched ++ (latch l.shifted ∷ []);
}
hear (sen, false) l = record l { sen_level = false }
hear (sclk, true) l = record l {
  sclk_level = true;
  shifted =
      if l.sclk_level
      then l.shifted
      else if l.sen_level
      then l.shifted
      else l.shifted * 2 + digit l.sdata_level;
}
hear (sclk, false) l = record l { sclk_level = false }
hear (sdata, level) l = record l { sdata_level = level }

unfoldable pub listen : List Edge → Listener → Listener
listen [] l = l
listen (e ∷ es) l = listen es (hear e l)
