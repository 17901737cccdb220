-- ===== src/Services/Radios/Lband.antt =====
-- oresat_c3/services/radios.py: class Radio, and LBandRadio and UHFRadio on their GPIO lines, whose
-- levels are kept. Setting a line is taken to succeed.
use mathlib.Core.List.{append_assoc}
use oresat_c3_software_esi.Base.{
  ℕ, pos, ◌+◌, ◌≤◌, ◌≡◌, refl, sym, ap, ◌∙◌, Bool, true, false, not, List, [], ◌++◌,
}
use oresat_c3_software_esi.Drivers.Si41xx
use oresat_c3_software_esi.Drivers.Si41xx.{Si41xx, State, uninit, ready, stop, is_ready, div1}
use oresat_c3_software_esi.Drivers.Si41xx.Divider.{Result, ok, err}
use oresat_c3_software_esi.Drivers.Si41xx.Sequence.{
  heard, Sends, start_writes, halt_writes, start_ok, halt-Sends, halt_state, after_all,
}

-- `Radio`, which is also what the service takes for the L-band radio
pub record Radio : Type 0 where
  pub rf_reset_count : ℕ

abbrev pub rf_reset_base : Radio → Radio
rf_reset_base r = record r { rf_reset_count = r.rf_reset_count + 1 }

pub record LBandRadio : Type 0 where
  pub base : Radio
  pub si41xx : Si41xx
  pub lband_enable : Bool

abbrev pub new_lband : LBandRadio
new_lband = record {
  base = record { rf_reset_count = 0 };
  si41xx = record {
    state = uninit;
    ref_freq = 16_000_000;
    if_div = div1;
    if_n = pos 1616;
    if_r = pos 32;
    pbib = false;
    pbrb = false;
    edges = [];
  };
  lband_enable = false;
}

-- the result of a method of the driver, and the radio with the driver that it left
abbrev pub with_driver : LBandRadio → Result (Unit {0}) × Si41xx → Result (Unit {0}) × LBandRadio
with_driver l (r, c) = (r, record l { si41xx = c })

unfoldable pub enable : LBandRadio → Result (Unit {0}) × LBandRadio
enable l = with_driver (record l { lband_enable = true }) (Si41xx.start l.si41xx)

abbrev line_off : Result (Unit {0}) × Si41xx → LBandRadio → Result (Unit {0}) × LBandRadio
line_off (ok _, c) l = (ok tt, record l { si41xx = c; lband_enable = false })
line_off (err e, c) l = (err e, record l { si41xx = c })

unfoldable pub disable : LBandRadio → Result (Unit {0}) × LBandRadio
disable l = line_off (Si41xx.halt l.si41xx) l

-- the auxiliary pin is low while the synthesizer is locked
abbrev pub is_rf_ok : Bool → Bool
is_rf_ok aux = not aux

unfoldable pub rf_reset : LBandRadio → Result (Unit {0}) × LBandRadio
rf_reset l =
    with_driver (record l { base = rf_reset_base l.base })
      (Si41xx.after Si41xx.start (Si41xx.halt l.si41xx))

-- What a listener has had of a restart: the synthesizer's power and configuration off, if it was
-- started, and then the writes of `start`.
abbrev pub restart_writes : Si41xx → ℕ → ℕ → List (ℕ × ℕ)
restart_writes c n r = halt_writes (is_ready c.state) ++ start_writes c.if_div n r

-- `rf_reset` of the L-band radio, in whatever state its synthesizer is, with dividers that fit: it
-- returns, counts one reset, leaves the synthesizer READY and the power line as it was, and the
-- synthesizer has had first the writes of `stop`, then those of `start`, and no other.
pub rf_reset_ready :
    (l : LBandRadio) (n r : ℕ)
    → l.si41xx.if_n ≡ pos n
    → l.si41xx.if_r ≡ pos r
    → n ≤ 0xFFFF
    → r ≤ 0x1_FFFF
    → ((rf_reset l).0 ≡ ok tt)
      × ((rf_reset l).1.base.rf_reset_count ≡ l.base.rf_reset_count + 1)
      × ((rf_reset l).1.lband_enable ≡ l.lband_enable)
      × ((rf_reset l).1.si41xx.state ≡ ready)
      × Sends (restart_writes l.si41xx n r) l.si41xx (rf_reset l).1.si41xx
unfolding rf_reset
rf_reset_ready l n r en er hn hr =
    let started = start_ok halted n r refl en er hn hr in
    (
      ap (λ p. p.0) again ∙ started.0,
      ap (λ p. l.base.rf_reset_count + 1) again,
      refl,
      ap (λ p. p.1.state) again ∙ started.1,
      λ k.
          ap (λ p. heard p.1 k) again
          ∙ started.2 k
          ∙ ap (λ old. old ++ start_writes l.si41xx.if_div n r)
              (ap (λ p. heard p.1 k) (sym (halt_state l.si41xx)) ∙ halt-Sends l.si41xx k)
          ∙ append_assoc _ (halt_writes (is_ready l.si41xx.state))
              (start_writes l.si41xx.if_div n r),
    )
  where
    halted : Si41xx
    halted = record l.si41xx {
      state = stop;
      pbib = false;
      pbrb = false;
      edges = after_all l.si41xx.edges (halt_writes (is_ready l.si41xx.state));
    }

    again : Si41xx.after Si41xx.start (Si41xx.halt l.si41xx) ≡ Si41xx.start halted
    again = ap (Si41xx.after Si41xx.start) (halt_state l.si41xx)
