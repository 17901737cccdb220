-- ===== src/Drivers/Si41xx/Divider.antt =====
-- oresat_c3/drivers/si41xx.py: `calc_div`, and the errors of the driver. `math.gcd` is Euclid's
-- algorithm; the halving loop has its own start value for fuel.
pub mod Exact
use mathlib.Core.WellFounded.{Acc}
use oresat_c3_software_esi.Base.{
  ℕ, zero, suc, ◌+◌, ◌*◌, ◌/◌, ◌%◌, ◌<◌, Bool, ltb, leb, ◌||◌, ◌==◌, if◌then◌else◌, arith,
}

-- the reasons for which the source raises `Si41xxError`
pub data Error : Type 0 where
  bad_data bad_gain bad_div started zero_freq no_phasedet out_of_bounds : Error

pub data Result (A : Type 0) : Type 0 where
  ok : A → Result A
  err : Error → Result A

Acc-below : (k n : ℕ) → n < k → Acc ◌<◌ n
Acc-below zero n h = elim h [ ]
Acc-below (suc k) n h = Acc.intro n (λ m hm. Acc-below k m (omega arith))

pub mod-lt_suc : (a b : ℕ) → a % suc b < suc b
mod-lt_suc a b = omega arith

gcd_acc : (a b : ℕ) → Acc ◌<◌ b → ℕ
gcd_acc a b (Acc.intro zero _) = a
gcd_acc a b (Acc.intro (suc c) smaller) =
    gcd_acc (suc c) (a % suc c) (smaller (a % suc c) (mod-lt_suc a c))

every_Acc : (n : ℕ) → Acc ◌<◌ n
unfolding Acc-below
every_Acc n = Acc-below (suc n) n (omega arith)

-- `math.gcd`
unfoldable pub gcd : ℕ → ℕ → ℕ
unfolding gcd_acc every_Acc
gcd a b = gcd_acc a b (every_Acc b)

abbrev pub max_phasedet : ℕ
max_phasedet = 1_000_000

abbrev pub min_phasedet : ℕ
min_phasedet = 10_000

-- `while phasedet >= self.MAX_PHASEDET: phasedet //= 2`
unfoldable pub halve : ℕ → ℕ → ℕ
halve zero phasedet = phasedet
halve (suc fuel) phasedet =
    let rest = halve fuel (phasedet / 2) in if leb max_phasedet phasedet then rest else phasedet

-- the phase detector's frequency
unfoldable pub phase_freq : ℕ → ℕ → ℕ
phase_freq ref_freq freq = let g = gcd ref_freq freq in halve g g

-- the values of the dividers, for a frequency of the phase detector
unfoldable pub divide : ℕ → ℕ → ℕ → Result (ℕ × ℕ)
divide ref_freq freq phasedet =
    let ndiv = freq / phasedet in
    let rdiv = ref_freq / phasedet in
    if ltb phasedet min_phasedet
    then err no_phasedet
    else if ltb 0xFFFF ndiv || ltb 0x1FFF rdiv
    then err out_of_bounds
    else ok (ndiv, rdiv)

unfoldable pub calc_div : ℕ → ℕ → Result (ℕ × ℕ)
unfolding divide phase_freq
calc_div ref_freq freq =
    if freq == 0 then err zero_freq else divide ref_freq freq (phase_freq ref_freq freq)
