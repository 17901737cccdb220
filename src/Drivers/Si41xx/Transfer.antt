-- ===== src/Drivers/Si41xx/Transfer.antt =====
-- oresat_c3/drivers/si41xx.py, `_write_reg`: what the synthesizer's end of the wires makes of a
-- transfer.
use oresat_c3_software_esi.Base.{
  ℕ, zero, suc, ◌+◌, ◌*◌, ◌/◌, ◌%◌, ◌^◌, ◌<◌, ◌≡◌, refl, ap, ◌∙◌, bit_and, bit_or, true, false, not,
  List, [], ◌∷◌, ◌++◌, ◌==◌, arith, bit_and-mask, bit_or-shifted, bit_and-power,
}
use native.Mathlib.Nat.{pow-suc, mod-eq_of_lt}
use oresat_c3_software_esi.Drivers.Si41xx.Wire.{
  Edge, sen, sclk, sdata, msg_size, msg_msb, data_mask, pack, clock_out, transfer, Listener, digit,
  latch, hear, listen,
}

pub listen-append :
    (es fs : List Edge) (l : Listener) → listen (es ++ fs) l ≡ listen fs (listen es l)
unfolding listen
listen-append [] fs l = refl
listen-append (e ∷ es) fs l = listen-append es fs (hear e l)

top_digit : (word : ℕ) → digit (not (bit_and word msg_msb == 0)) ≡ word / 0x20_0000 % 2
top_digit word = ground (arith, bit_and-power 21 word)

-- one round
abbrev round : ℕ → Listener → Listener
round word l = record l {
  sclk_level = true;
  sdata_level = not (bit_and word msg_msb == 0);
  shifted = l.shifted * 2 + word / 0x20_0000 % 2;
}

hear-round :
    (word : ℕ) (l : Listener)
    → l.sen_level ≡ false
    → hear (sclk, true) (hear (sdata, not (bit_and word msg_msb == 0)) (hear (sclk, false) l))
      ≡ round word l
unfolding hear
hear-round word l low = ground (arith, low, top_digit word)

clock_out-round :
    (n word : ℕ) (l : Listener)
    → l.sen_level ≡ false
    → listen (clock_out (suc n) word) l ≡ listen (clock_out n (word * 2)) (round word l)
unfolding listen clock_out
clock_out-round n word l low = ap (listen (clock_out n (word * 2))) (hear-round word l low)

record Clocked (n word : ℕ) (l l' : Listener) : Type 0 where
  still_low : l'.sen_level ≡ false
  latched_kept : l'.latched ≡ l.latched
  moved :
      l'.shifted * 0x40_0000 + word * 2 ^ n % 0x40_0000
      ≡ (l.shifted * 0x40_0000 + word % 0x40_0000) * 2 ^ n

mul_swap : (a p : ℕ) → a * (p * 2) ≡ a * 2 * p
mul_swap a p = grind arith

carried :
    (bits word : ℕ)
    → (bits * 2 + word / 0x20_0000 % 2) * 0x40_0000 + word * 2 % 0x40_0000
      ≡ (bits * 0x40_0000 + word % 0x40_0000) * 2
carried bits word = omega arith

Clocked-round :
    (n word : ℕ) (l l' : Listener)
    → Clocked n (word * 2) (round word l) l'
    → Clocked (suc n) word l l'
Clocked-round n word l l' c = record {
  still_low = c.still_low;
  latched_kept = c.latched_kept;
  moved =
      rw
        (
          pow-suc 2 n,
          mul_swap word (2 ^ n),
          mul_swap (l.shifted * 0x40_0000 + word % 0x40_0000) (2 ^ n),
        )
        (c.moved ∙ ap (λ t. t * 2 ^ n) (carried l.shifted word));
}

clock_out-Clocked :
    (n word : ℕ) (l : Listener)
    → l.sen_level ≡ false
    → Clocked n word l (listen (clock_out n word) l)
unfolding listen clock_out
clock_out-Clocked zero word l low = record {
  still_low = low;
  latched_kept = refl;
  moved = omega arith;
}
clock_out-Clocked (suc n) word l low =
    rw (clock_out-round n word l low)
      (Clocked-round n word l _ (clock_out-Clocked n (word * 2) (round word l) low))

-- After all rounds the last 22 bits that were shifted in are the word's.
clock_out-shifted :
    (word : ℕ) (l : Listener)
    → l.sen_level ≡ false
    → (listen (clock_out msg_size word) l).shifted % 0x40_0000 ≡ word % 0x40_0000
clock_out-shifted word l low =
    let c = clock_out-Clocked msg_size word l low in omega (arith, c.moved)

latch-pack :
    (bits reg value : ℕ)
    → reg < 16
    → value < 0x4_0000
    → bits % 0x40_0000 ≡ pack reg value % 0x40_0000
    → latch bits ≡ (reg, value)
unfolding pack
latch-pack bits reg value r v h =
    let masked : bit_and value data_mask ≡ value =
      bit_and-mask 18 data_mask value (omega arith) ∙ mod-eq_of_lt v in
    let joined : bit_or reg (value * 2 ^ 4) ≡ reg + value * 2 ^ 4 = bit_or-shifted 4 reg value r in
    let word : bits % 0x40_0000 ≡ (reg + value * 2 ^ 4) % 0x40_0000 = rw (masked, joined) at h in
    let low : bits % 16 ≡ reg = omega arith in
    let high : bits / 16 % 0x4_0000 ≡ value = omega arith in rw (low, high) refl

released :
    (l : Listener)
    → l.sen_level ≡ false
    → (hear (sclk, true) (hear (sen, true) (hear (sclk, false) l))).latched
      ≡ l.latched ++ (latch l.shifted ∷ [])
unfolding hear
released l low = ground (arith, low)

selected : (l : Listener) → (hear (sen, false) l).sen_level ≡ false
unfolding hear
selected l = refl

selected-latched : (l : Listener) → (hear (sen, false) l).latched ≡ l.latched
unfolding hear
selected-latched l = refl

-- A transfer of a register's address and a value of 18 bits, whatever the levels of the lines were
-- and whatever the synthesizer had shifted in before: it latches that address and that value, once.
pub listen-transfer :
    (reg value : ℕ) (l : Listener)
    → reg < 16
    → value < 0x4_0000
    → (listen (transfer (pack reg value)) l).latched ≡ l.latched ++ ((reg, value) ∷ [])
unfolding listen transfer
listen-transfer reg value l r v =
    let s = hear (sen, false) l in
    let c = clock_out-Clocked msg_size (pack reg value) s (selected l) in
    let bits = clock_out-shifted (pack reg value) s (selected l) in
    rw
      (listen-append (clock_out msg_size (pack reg value))
        ((sclk, false) ∷ (sen, true) ∷ (sclk, true) ∷ []) s)
      (released (listen (clock_out msg_size (pack reg value)) s) c.still_low
        ∙ ap (λ old. old ++ (latch (listen (clock_out msg_size (pack reg value)) s).shifted ∷ []))
            (c.latched_kept ∙ selected-latched l)
        ∙ ap (λ new. l.latched ++ (new ∷ [])) (latch-pack _ reg value r v bits))
