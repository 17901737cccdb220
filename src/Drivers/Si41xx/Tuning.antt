-- ===== src/Drivers/Si41xx/Tuning.antt =====
-- oresat_c3/drivers/si41xx.py: `set_if`, from the wanted frequency to the writes that the synthesizer
-- has.
use mathlib.Core.Path.{subst}
use oresat_c3_software_esi.Base.{
  ℕ, pos, ◌+◌, ◌*◌, ◌^◌, ◌≤◌, ◌≡◌, refl, sym, bit_or, Bool, true, false, List, [], ◌∷◌, arith,
}
use oresat_c3_software_esi.Drivers.Si41xx
use oresat_c3_software_esi.Drivers.Si41xx.{Si41xx, if_div_bits, then_set, ready, State}
use oresat_c3_software_esi.Drivers.Si41xx.Divider.{Result, ok, err, calc_div}
use oresat_c3_software_esi.Drivers.Si41xx.Divider.Exact.{ref_freq, Produces, calc_div-Produces}
use oresat_c3_software_esi.Drivers.Si41xx.Sequence.{Sends, AllFit, after_all, listen-after_all}
use oresat_c3_software_esi.Drivers.Si41xx.Wire.{digit}

abbrev tune_writes : Bool → ℕ → ℕ → List (ℕ × ℕ)
tune_writes pbrb n r = (2, digit pbrb) ∷ (5, n) ∷ (8, r) ∷ (2, digit pbrb + 2) ∷ []

tune_writes_fit : (b : Bool) (n r : ℕ) → n ≤ 0xFFFF → r ≤ 0x1FFF → AllFit (tune_writes b n r)
tune_writes_fit true n r hn hr = omega arith
tune_writes_fit false n r hn hr = omega arith

power_off : (b : Bool) → bit_or (digit b) (digit false * 2 ^ 1) ≡ digit b
power_off true = refl
power_off false = refl

power_on : (b : Bool) → bit_or (digit b) (digit true * 2 ^ 1) ≡ digit b + 2
power_on true = refl
power_on false = refl

digit-le : (b : Bool) → digit b ≤ 1
digit-le true = omega arith
digit-le false = omega arith

set_dividers_state :
    (c : Si41xx) (n r : ℕ)
    → n ≤ 0xFFFF
    → r ≤ 0x1FFF
    → Si41xx.set_dividers (n, r) c ≡ (
      ok tt,
      record c {
        if_n = pos n;
        if_r = pos r;
        pbib = true;
        edges = after_all c.edges (tune_writes c.pbrb n r);
      },
    )
unfolding Si41xx.set_dividers Si41xx.write_reg Si41xx.set_phase_pwrdown_reg Si41xx.set_div_reg
set_dividers_state c n r hn hr = ground (arith, power_off c.pbrb, power_on c.pbrb, digit-le c.pbrb)

-- How a call of `set_if` ends. A raise leaves the driver as it was. Otherwise the new dividers are
-- kept and produce the frequency, and the synthesizer has had them between the power off and on.
abbrev pub Tuned : ℕ → Si41xx → Result (Unit {0}) × Si41xx → Type 0
Tuned freq c (err _, c') = c' ≡ c
Tuned freq c (ok _, c') =
    (n : ℕ) × (r : ℕ) × Produces ref_freq freq n r
    × (c'.if_n ≡ pos n)
    × (c'.if_r ≡ pos r)
    × (c'.state ≡ c.state)
    × Sends (tune_writes c.pbrb n r) c c'

set_dividers-Tuned :
    (freq : ℕ) (c : Si41xx) (n r : ℕ)
    → Produces ref_freq freq n r
    → Tuned freq c (Si41xx.set_dividers (n, r) c)
set_dividers-Tuned freq c n r p =
    subst (Tuned freq c) (sym (set_dividers_state c n r p.n_fits p.r_fits)) (
      n,
      r,
      p,
      refl,
      refl,
      refl,
      λ l.
          listen-after_all c.edges (tune_writes c.pbrb n r) l
            (tune_writes_fit c.pbrb n r p.n_fits p.r_fits),
    )

then_set-Tuned :
    (freq : ℕ) (c : Si41xx) (dividers : Result (ℕ × ℕ))
    → calc_div ref_freq freq ≡ dividers
    → Tuned freq c (then_set dividers c)
then_set-Tuned freq c (ok (n, r)) e = set_dividers-Tuned freq c n r (calc_div-Produces freq n r e)
then_set-Tuned freq c (err x) e = refl

-- `set_if` with the reference frequency of the L-band radio. Where it raises, the driver is as
-- before and nothing went out on the lines. Otherwise it keeps an N and an R for which
-- frequency * 2^(bits of the divider) * R = reference * N exactly, which fit their registers, with
-- the phase detector between 10 kHz and 1 MHz; and the synthesizer has had, after what came before, four
-- writes: the IF synthesizer off, N, R, and the IF synthesizer on.
pub set_if-Tuned :
    (freq : ℕ) (c : Si41xx)
    → c.ref_freq ≡ ref_freq
    → Tuned (freq * 2 ^ if_div_bits c.if_div) c (Si41xx.set_if freq c)
unfolding Si41xx.set_if
set_if-Tuned freq c e =
    subst (λ d. Tuned wanted c (then_set (calc_div d wanted) c)) (sym e)
      (then_set-Tuned wanted c _ refl)
  where
    wanted : ℕ
    wanted = freq * 2 ^ if_div_bits c.if_div
