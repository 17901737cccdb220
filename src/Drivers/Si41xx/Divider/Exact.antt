-- ===== src/Drivers/Si41xx/Divider/Exact.antt =====
-- oresat_c3/drivers/si41xx.py, `calc_div`: what its dividers make of the reference frequency that
-- oresat_c3/services/radios.py gives the driver.
use mathlib.Core.WellFounded.{Acc}
use native.Mathlib.Nat.{div-eq_of_eq-mul_left, div-eq_of_eq-mul_right, one-mul, mul-one}
use oresat_c3_software_esi.Base.{
  ℕ, zero, suc, ◌+◌, ◌-◌, ◌*◌, ◌/◌, ◌%◌, ◌≤◌, ◌<◌, ◌≡◌, refl, ap, sym, ◌∙◌, Bool, true, ltb, ◌&&◌,
  ◌==◌, if◌then◌else◌, arith, Bool-cases, inl, inr,
}
use oresat_c3_software_esi.Drivers.Si41xx.Divider.{
  ok, gcd_acc, every_Acc, mod-lt_suc, gcd, halve, phase_freq, divide, calc_div, max_phasedet,
  min_phasedet,
}

-- `g` divides `a` and `b`.
record Common (g a b : ℕ) : Type 0 where
  of_a : ℕ
  of_b : ℕ
  splits_a : a ≡ of_a * g
  splits_b : b ≡ of_b * g

regroup : (c q r g x y : ℕ) → c ≡ x * g → r ≡ y * g → c * q + r ≡ (x * q + y) * g
regroup c q r g x y e f = rw (e, f) (grind arith)

gcd_acc-Common : (a b : ℕ) (w : Acc ◌<◌ b) → Common (gcd_acc a b w) a b
unfolding gcd_acc
gcd_acc-Common a b (Acc.intro zero _) = record {
  of_a = 1;
  of_b = 0;
  splits_a = omega arith;
  splits_b = omega arith;
}
gcd_acc-Common a b (Acc.intro (suc c) smaller) =
    let k = gcd_acc-Common (suc c) (a % suc c) (smaller (a % suc c) (mod-lt_suc a c)) in
    let g = gcd_acc (suc c) (a % suc c) (smaller (a % suc c) (mod-lt_suc a c)) in
    let whole : a ≡ suc c * (a / suc c) + a % suc c = grind arith in
    record {
      of_a = k.of_a * (a / suc c) + k.of_b;
      of_b = k.of_a;
      splits_a =
          whole ∙ regroup (suc c) (a / suc c) (a % suc c) g k.of_a k.of_b k.splits_a k.splits_b;
      splits_b = k.splits_a;
    }

gcd-Common : (a b : ℕ) → Common (gcd a b) a b
unfolding gcd
gcd-Common a b = gcd_acc-Common a b (every_Acc b)

-- The loop has ended when its fuel has.
halve-lt : (fuel phasedet : ℕ) → phasedet ≤ fuel → halve fuel phasedet < max_phasedet
unfolding halve
halve-lt zero phasedet h = omega arith
halve-lt (suc fuel) phasedet h = ground (arith, halve-lt fuel (phasedet / 2))

halve-below : (fuel phasedet : ℕ) → phasedet < max_phasedet → halve fuel phasedet ≡ phasedet
unfolding halve
halve-below zero phasedet h = refl
halve-below (suc fuel) phasedet h = ground arith

abbrev pub ref_freq : ℕ
ref_freq = 16_000_000

abbrev all_below : ℕ → (ℕ → Bool) → Bool
all_below zero p = true
all_below (suc n) p = p n && all_below n p

all_below-lem : (n : ℕ) (p : ℕ → Bool) (x : ℕ) → all_below n p ≡ true → x < n → p x ≡ true
all_below-lem zero p x h l = absurd (omega arith)
all_below-lem (suc n) p x h l = ground (arith, all_below-lem n p x)

halves_evenly : ℕ → Bool
halves_evenly g = halve g g * (g / halve g g) == g

-- A divisor of the reference that has to be halved is one of its quotients by 1 to 16.
check_quotient : ℕ → ℕ → Bool
check_quotient q g = if q * g == ref_freq then halves_evenly g else true

quotients_table : all_below 17 (λ q. check_quotient q (ref_freq / q)) ≡ true
unfolding check_quotient halves_evenly halve
quotients_table = refl

checked : (q g : ℕ) → q * g ≡ ref_freq → check_quotient q g ≡ true → halve g g * (g / halve g g) ≡ g
unfolding check_quotient halves_evenly
checked q g whole row = ground arith

spread : (q a b : ℕ) → q * (a + b) ≡ q * a + q * b
spread q a b = grind arith

small_quotient : (q g : ℕ) → q * g ≡ ref_freq → max_phasedet ≤ g → q < 17
small_quotient q g e h =
    let whole : g ≡ max_phasedet + (g - max_phasedet) = omega arith in
    omega (arith, ap (λ t. q * t) whole, spread q max_phasedet (g - max_phasedet))

zero_times : (q : ℕ) → q * 0 ≡ 0
zero_times q = omega arith

positive : (q g : ℕ) → q * g ≡ ref_freq → 0 < g
positive q zero e = absurd (omega (arith, e, zero_times q))
positive q (suc g) e = omega arith

positive_left : (q g : ℕ) → q * g ≡ ref_freq → 0 < q
positive_left zero g e = absurd (omega arith)
positive_left (suc q) g e = omega arith

evenly : (q g : ℕ) → q * g ≡ ref_freq → halve g g * (g / halve g g) ≡ g
evenly q g e = elim (Bool-cases (ltb g max_phasedet)) [
  | inl small ↦
      rw (halve-below g g (ground arith))
        (ap (λ t. g * t) (div-eq_of_eq-mul_left (positive q g e) (sym (one-mul g))) ∙ mul-one g)
  | inr large ↦ checked q g e (
      ap (check_quotient q) (sym (div-eq_of_eq-mul_right (positive_left q g e) (sym e)))
      ∙ all_below-lem 17 (λ t. check_quotient t (ref_freq / t)) q quotients_table
          (small_quotient q g e (ground arith)))
]

-- The phase detector's frequency divides both frequencies.
phase_freq-Common : (freq : ℕ) → Common (phase_freq ref_freq freq) ref_freq freq
unfolding phase_freq
phase_freq-Common freq =
    let g = gcd ref_freq freq in
    let c = gcd-Common ref_freq freq in
    let even = evenly c.of_a g (sym c.splits_a) in
    record {
      of_a = c.of_a * (g / halve g g);
      of_b = c.of_b * (g / halve g g);
      splits_a = c.splits_a ∙ scale c.of_a g (halve g g) (g / halve g g) even;
      splits_b = c.splits_b ∙ scale c.of_b g (halve g g) (g / halve g g) even;
    }
  where
    scale : (k g h m : ℕ) → h * m ≡ g → k * g ≡ k * m * h
    scale k g h m e = rw (← e) (grind arith)

phase_freq-lt : (freq : ℕ) → phase_freq ref_freq freq < max_phasedet
unfolding phase_freq
phase_freq-lt freq = halve-lt (gcd ref_freq freq) (gcd ref_freq freq) (omega arith)

-- What the data sheet asks of the dividers `n` and `r` for an output of `freq`.
pub record Produces (ref freq n r : ℕ) : Type 0 where
  -- the output, the reference times `n` over `r`, is the frequency exactly
  pub exact : freq * r ≡ ref * n
  -- the dividers fit their registers
  pub n_fits : n ≤ 0xFFFF
  pub r_fits : r ≤ 0x1FFF
  -- the phase detector's frequency, the reference over `r`, is in its range
  pub fast_enough : min_phasedet * r ≤ ref
  pub slow_enough : ref < max_phasedet * r

-- A call that returned passed its guards.
divide_ok :
    (freq p n r : ℕ)
    → divide ref_freq freq p ≡ ok (n, r)
    → (min_phasedet ≤ p) × (n ≡ freq / p) × (r ≡ ref_freq / p) × (n ≤ 0xFFFF) × (r ≤ 0x1FFF)
unfolding divide
divide_ok freq p n r h = ground arith

le-times : (a p q : ℕ) → p ≤ q → p * a ≤ a * q
le-times a p q h = grind arith

lt-times : (a p q : ℕ) → 0 < a → p < q → a * p < q * a
lt-times a p q ha h = grind arith

cross : (a b p f g : ℕ) → f ≡ b * p → g ≡ a * p → f * a ≡ g * b
cross a b p f g e e' = rw (e, e') (grind arith)

divide-Produces :
    (freq p n r : ℕ)
    → Common p ref_freq freq
    → p < max_phasedet
    → divide ref_freq freq p ≡ ok (n, r)
    → Produces ref_freq freq n r
divide-Produces freq p n r c small h =
    let passed = divide_ok freq p n r h in
    let pos : 0 < p = omega (arith, passed.0) in
    let n_eq : n ≡ c.of_b = passed.1 ∙ div-eq_of_eq-mul_left pos c.splits_b in
    let r_eq : r ≡ c.of_a = passed.2 ∙ div-eq_of_eq-mul_left pos c.splits_a in
    let a_pos : 0 < c.of_a = positive_left c.of_a p (sym c.splits_a) in
    record {
      exact = rw (n_eq, r_eq) (cross c.of_a c.of_b p freq ref_freq c.splits_b c.splits_a);
      n_fits = passed.3;
      r_fits = passed.4;
      fast_enough = rw r_eq (omega (arith, le-times c.of_a min_phasedet p passed.0, c.splits_a));
      slow_enough = rw r_eq (omega (arith, lt-times c.of_a p max_phasedet a_pos small, c.splits_a));
    }

-- With the reference frequency of the L-band radio, 16 MHz: where `calc_div` returns N and R,
-- frequency * R = reference * N with no rounding, N and R are at most 0xFFFF and 0x1FFF, and the
-- frequency of the phase detector, reference / R, is at least 10 kHz and below 1 MHz.
pub calc_div-Produces :
    (freq n r : ℕ) → calc_div ref_freq freq ≡ ok (n, r) → Produces ref_freq freq n r
unfolding calc_div
calc_div-Produces freq n r h =
    divide-Produces freq (phase_freq ref_freq freq) n r (phase_freq-Common freq)
      (phase_freq-lt freq) (ground arith)
