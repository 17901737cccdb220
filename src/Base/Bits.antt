-- ===== src/Base/Bits.antt =====
-- Bits of a number, and what the bit operations do to each of them.
use Prim.Native.Nat.{
  ℕ, zero, suc, ◌+◌, ◌*◌, ◌/◌, ◌%◌, ◌^◌, ◌≤◌, ◌<◌, min, max, bit_and, bit_or, bit_xor, digits,
  bitwise, differ, bit_and-bitwise, bit_or-bitwise, bit_xor-bitwise,
}
use mathlib.Core.Path.{◌≡◌, refl, ap, ◌∙◌, ◌≡⟨◌⟩◌, ◌∎}
use mathlib.Core.Bool.{Bool, false, not, ◌&&◌, ◌||◌}
use native.Mathlib.Nat.{pow-suc, div-div-eq-div-mul, add-mul-mod_self_left, mod-eq_of_lt}
use native.Mathlib.Omega.{arith}
use oresat_c3_software_esi.Base.Tests.{◌==◌}

-- Is bit `i` of `x` set?
unfoldable pub testbit : ℕ → ℕ → Bool
testbit x zero = x % 2 == 1
testbit x (suc i) = testbit (x / 2) i

-- `a & ~b` for natural numbers: the bits of `a` that `b` lacks.
abbrev pub and_not : ℕ → ℕ → ℕ
and_not a b = bit_xor a (bit_and a b)

-- The recursion that the bit operations stand for has more fuel than it needs: what is left over
-- changes nothing.
digits_any_fuel :
    (rest : ℕ → ℕ) (op : ℕ → ℕ → ℕ) (x y k j : ℕ)
    → x ≤ k
    → x ≤ j
    → digits rest op k x y ≡ digits rest op j x y
digits_any_fuel rest op zero y zero zero _ _ = refl
digits_any_fuel rest op zero y zero (suc j) _ _ = refl
digits_any_fuel rest op zero y (suc k) zero _ _ = refl
digits_any_fuel rest op zero y (suc k) (suc j) _ _ = refl
digits_any_fuel rest op (suc x) y zero j h _ = absurd (omega arith)
digits_any_fuel rest op (suc x) y (suc k) zero _ h = absurd (omega arith)
digits_any_fuel rest op (suc x) y (suc k) (suc j) h h' =
    ap (λ high. high * 2 + op (suc x % 2) (y % 2))
      (digits_any_fuel rest op (suc x / 2) (y / 2) k j (omega arith) (omega arith))

low_digit :
    (rest : ℕ → ℕ) (op : ℕ → ℕ → ℕ) (x y : ℕ)
    → bitwise rest op (suc x) y ≡ bitwise rest op (suc x / 2) (y / 2) * 2 + op (suc x % 2) (y % 2)
low_digit rest op x y =
    ap (λ high. high * 2 + op (suc x % 2) (y % 2))
      (digits_any_fuel rest op (suc x / 2) (y / 2) x (suc x / 2) (omega arith) (omega arith))

and_low : (a b : ℕ) → bit_and a b ≡ bit_and (a / 2) (b / 2) * 2 + min (a % 2) (b % 2)
and_low zero b = simp bit_and-bitwise (omega arith)
and_low (suc a) b = simp bit_and-bitwise (low_digit (λ _. 0) min a b)

or_low : (a b : ℕ) → bit_or a b ≡ bit_or (a / 2) (b / 2) * 2 + max (a % 2) (b % 2)
or_low zero b = simp bit_or-bitwise (omega arith)
or_low (suc a) b = simp bit_or-bitwise (low_digit (λ y. y) max a b)

xor_low : (a b : ℕ) → bit_xor a b ≡ bit_xor (a / 2) (b / 2) * 2 + differ (a % 2) (b % 2)
xor_low zero b = simp bit_xor-bitwise (omega arith)
xor_low (suc a) b = simp bit_xor-bitwise (low_digit (λ y. y) differ a b)

-- `differ` of two digits is 1 where they are not equal.
differ_digits : (a b : ℕ) → a < 2 → b < 2 → differ a b ≡ (a + b) % 2
differ_digits zero b _ h = omega arith
differ_digits (suc zero) zero _ _ = refl
differ_digits (suc zero) (suc zero) _ _ = refl
differ_digits (suc zero) (suc (suc b)) _ h = absurd (omega arith)
differ_digits (suc (suc a)) b h _ = absurd (omega arith)

xor_digit : (a b : ℕ) → bit_xor a b ≡ bit_xor (a / 2) (b / 2) * 2 + (a % 2 + b % 2) % 2
xor_digit a b =
    omega (arith, xor_low a b, differ_digits (a % 2) (b % 2) (omega arith) (omega arith))

or_half : (a b : ℕ) → bit_or a b / 2 ≡ bit_or (a / 2) (b / 2)
or_half a b = omega (arith, or_low a b)

and_half : (a b : ℕ) → bit_and a b / 2 ≡ bit_and (a / 2) (b / 2)
and_half a b = omega (arith, and_low a b)

xor_half : (a b : ℕ) → bit_xor a b / 2 ≡ bit_xor (a / 2) (b / 2)
xor_half a b = omega (arith, xor_digit a b)

pub testbit-bit_or : (a b i : ℕ) → testbit (bit_or a b) i ≡ (testbit a i || testbit b i)
unfolding testbit
testbit-bit_or a b zero = ground (arith, or_low a b)
testbit-bit_or a b (suc i) = rw (or_half a b) (testbit-bit_or (a / 2) (b / 2) i)

pub testbit-bit_and : (a b i : ℕ) → testbit (bit_and a b) i ≡ (testbit a i && testbit b i)
unfolding testbit
testbit-bit_and a b zero = ground (arith, and_low a b)
testbit-bit_and a b (suc i) = rw (and_half a b) (testbit-bit_and (a / 2) (b / 2) i)

-- Clearing the bits of `b` in `a`.
pub testbit-and_not : (a b i : ℕ) → testbit (and_not a b) i ≡ (testbit a i && not (testbit b i))
unfolding testbit
testbit-and_not a b zero = ground (arith, xor_digit a (bit_and a b), and_low a b)
testbit-and_not a b (suc i) =
    rw (xor_half a (bit_and a b), and_half a b) (testbit-and_not (a / 2) (b / 2) i)

testbit-zero : (i : ℕ) → testbit 0 i ≡ false
unfolding testbit
testbit-zero zero = refl
testbit-zero (suc i) = testbit-zero i

-- `1 << p` has bit `p` set and no other.
pub testbit-shl : (p i : ℕ) → testbit (2 ^ p) i ≡ (p == i)
unfolding testbit
testbit-shl zero zero = refl
testbit-shl zero (suc i) = ground (arith, testbit-zero i)
testbit-shl (suc p) zero = ground (arith, pow-suc 2 p)
testbit-shl (suc p) (suc i) =
    let e : 2 ^ suc p / 2 ≡ 2 ^ p = omega (arith, pow-suc 2 p) in
    rw e (ground (arith, testbit-shl p i))

zero-bit_and : (b : ℕ) → bit_and 0 b ≡ 0
zero-bit_and b = bit_and-bitwise 0 b

bit_and-zero : (k a : ℕ) → a ≤ k → bit_and a 0 ≡ 0
bit_and-zero k zero h = refl
bit_and-zero zero (suc a) h = absurd (omega arith)
bit_and-zero (suc k) (suc a) h =
    omega (arith, and_low (suc a) 0, bit_and-zero k (suc a / 2) (omega arith))

bit_and-one : (a : ℕ) → bit_and a 1 ≡ a % 2
bit_and-one a = omega (arith, and_low a 1, bit_and-zero (a / 2) (a / 2) (omega arith))

-- `(x >> i) & 1`, the way the source reads a bit.
pub testbit_shr : (x i : ℕ) → (bit_and (x / 2 ^ i) 1 == 1) ≡ testbit x i
unfolding testbit
testbit_shr x zero = ground (arith, bit_and-one (x / 1))
testbit_shr x (suc i) =
    let e : x / 2 ^ suc i ≡ x / 2 / 2 ^ i =
      rw (div-div-eq-div-mul x 2 (2 ^ i)) (ap (λ t. x / t) (omega (arith, pow-suc 2 i))) in
    rw e (testbit_shr (x / 2) i)

-- A number below `2 ^ k` stays below it under the bit operations.
pub bit_or-lt : (k a b : ℕ) → a < 2 ^ k → b < 2 ^ k → bit_or a b < 2 ^ k
bit_or-lt zero a b h h' =
    let e : a ≡ 0 = omega arith in let e' : b ≡ 0 = omega arith in rw (e, e') (omega arith)
bit_or-lt (suc k) a b h h' = grind (
  arith,
  or_low a b,
  pow-suc 2 k,
  bit_or-lt k (a / 2) (b / 2) (omega (arith, pow-suc 2 k)) (omega (arith, pow-suc 2 k)),
)

pub bit_xor-lt : (k a b : ℕ) → a < 2 ^ k → b < 2 ^ k → bit_xor a b < 2 ^ k
bit_xor-lt zero a b h h' =
    let e : a ≡ 0 = omega arith in let e' : b ≡ 0 = omega arith in rw (e, e') (omega arith)
bit_xor-lt (suc k) a b h h' = omega (
  arith,
  xor_digit a b,
  pow-suc 2 k,
  bit_xor-lt k (a / 2) (b / 2) (omega (arith, pow-suc 2 k)) (omega (arith, pow-suc 2 k)),
)

pub bit_and-le : (k a b : ℕ) → a ≤ k → bit_and a b ≤ a
bit_and-le k zero b h = omega (arith, and_low 0 b, zero-bit_and b)
bit_and-le zero (suc a) b h = absurd (omega arith)
bit_and-le (suc k) (suc a) b h =
    omega (arith, and_low (suc a) b, bit_and-le k (suc a / 2) (b / 2) (omega arith))

mod_double : (a p : ℕ) → 0 < p → a % (2 * p) ≡ a / 2 % p * 2 + a % 2
mod_double a p h =
    let low : a / 2 % p * 2 + a % 2 < 2 * p = omega arith in
    let split : a ≡ a / 2 % p * 2 + a % 2 + 2 * p * (a / 2 / p) = grind arith in
    a % (2 * p)
    ≡⟨ ap (λ t. t % (2 * p)) split ⟩ (a / 2 % p * 2 + a % 2 + 2 * p * (a / 2 / p)) % (2 * p)
    ≡⟨ add-mul-mod_self_left _ (2 * p) (a / 2 / p) ⟩ (a / 2 % p * 2 + a % 2) % (2 * p)
    ≡⟨ mod-eq_of_lt low ⟩ a / 2 % p * 2 + a % 2 ∎

power_pos : (k : ℕ) → 0 < 2 ^ k
power_pos zero = omega arith
power_pos (suc k) = omega (arith, pow-suc 2 k, power_pos k)

-- A mask of the lowest `k` bits.
pub bit_and-mask : (k m a : ℕ) → m + 1 ≡ 2 ^ k → bit_and a m ≡ a % 2 ^ k
bit_and-mask zero m a h =
    let e : m ≡ 0 = omega arith in rw e (omega (arith, bit_and-zero a a (omega arith)))
bit_and-mask (suc k) m a h =
    let odd : m % 2 ≡ 1 = omega (arith, pow-suc 2 k) in
    let low : min (a % 2) (m % 2) ≡ a % 2 = omega arith in
    let high : bit_and (a / 2) (m / 2) ≡ a / 2 % 2 ^ k =
      bit_and-mask k (m / 2) (a / 2) (omega (arith, pow-suc 2 k)) in
    let double : 2 ^ suc k ≡ 2 * 2 ^ k = omega (arith, pow-suc 2 k) in
    rw (and_low a m, low, high, double, mod_double a (2 ^ k) (power_pos k)) refl

-- Disjoint bits are added.
pub bit_or-shifted : (k a b : ℕ) → a < 2 ^ k → bit_or a (b * 2 ^ k) ≡ a + b * 2 ^ k
bit_or-shifted zero a b h =
    let e : a ≡ 0 = omega arith in
    let none_set : bit_or 0 (b * 1) ≡ b * 1 = bit_or-bitwise 0 (b * 1) in
    rw e (omega (arith, none_set))
bit_or-shifted (suc k) a b h =
    let half : b * 2 ^ suc k ≡ b * 2 ^ k * 2 = rw (pow-suc 2 k) (grind arith) in
    let ih : bit_or (a / 2) (b * 2 ^ k) ≡ a / 2 + b * 2 ^ k =
      bit_or-shifted k (a / 2) b (omega (arith, pow-suc 2 k)) in
    let low : bit_or a (b * 2 ^ k * 2)
        ≡ bit_or (a / 2) (b * 2 ^ k * 2 / 2) * 2 + max (a % 2) (b * 2 ^ k * 2 % 2) =
      or_low a (b * 2 ^ k * 2) in
    let same_half : b * 2 ^ k * 2 / 2 ≡ b * 2 ^ k = omega arith in
    rw half (omega (arith, low, ih, ap (bit_or (a / 2)) same_half))

-- One bit, as the source tests it.
pub bit_and-power : (p a : ℕ) → bit_and a (2 ^ p) ≡ a / 2 ^ p % 2 * 2 ^ p
bit_and-power zero a = omega (arith, bit_and-one a)
bit_and-power (suc p) a =
    let halves : a / 2 ^ suc p ≡ a / 2 / 2 ^ p =
      rw (div-div-eq-div-mul a 2 (2 ^ p)) (ap (λ t. a / t) (omega (arith, pow-suc 2 p))) in
    let half : 2 ^ suc p / 2 ≡ 2 ^ p = omega (arith, pow-suc 2 p) in
    let low : bit_and a (2 ^ suc p) ≡ bit_and (a / 2) (2 ^ p) * 2 + min (a % 2) (2 ^ suc p % 2) =
      and_low a (2 ^ suc p) ∙ ap (λ t. bit_and (a / 2) t * 2 + min (a % 2) (2 ^ suc p % 2)) half in
    let even : 2 ^ suc p % 2 ≡ 0 = omega (arith, pow-suc 2 p) in
    rw halves (grind (arith, low, even, bit_and-power p (a / 2), pow-suc 2 p))
