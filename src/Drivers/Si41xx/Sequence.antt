-- ===== src/Drivers/Si41xx/Sequence.antt =====
-- oresat_c3/drivers/si41xx.py: the register writes that the synthesizer has from `start`, `stop` and
-- `set_if`, as they arrive at its end of the wires.
use mathlib.Core.List.{append_assoc, append-nil}
use oresat_c3_software_esi.Base.{
  ℕ, pos, ◌*◌, ◌≤◌, ◌<◌, ◌≡◌, refl, sym, ap, ◌∙◌, bit_or, Bool, true, false, List, [], ◌∷◌, ◌++◌,
  arith,
}
use oresat_c3_software_esi.Drivers.Si41xx
use oresat_c3_software_esi.Drivers.Si41xx.{
  Register, Si41xx, Action, IfDiv, div1, div2, div4, div8, if_div_bits, address, ready, uninit,
  stop, is_ready, out_of, to_nat, lockdet,
}
use oresat_c3_software_esi.Drivers.Si41xx.Divider.{ok}
use oresat_c3_software_esi.Drivers.Si41xx.Transfer.{listen-append, listen-transfer}
use oresat_c3_software_esi.Drivers.Si41xx.Wire.{Edge, pack, transfer, Listener, listen}

-- What a listener `l` has latched of all the edges.
abbrev pub heard : Si41xx → Listener → List (ℕ × ℕ)
heard c l = (listen c.edges l).latched

-- The listener has had these writes, and no other, between the two states.
abbrev pub Sends : List (ℕ × ℕ) → Si41xx → Si41xx → Type 0
Sends writes c c' = (l : Listener) → heard c' l ≡ heard c l ++ writes

abbrev pub AllFit : List (ℕ × ℕ) → Type 0
AllFit [] = Unit
AllFit (w ∷ ws) = (w.0 < 16) × (w.1 < 0x4_0000) × AllFit ws

abbrev pub after_all : List Edge → List (ℕ × ℕ) → List Edge
after_all edges [] = edges
after_all edges (w ∷ ws) = after_all (edges ++ transfer (pack w.0 w.1)) ws

pub listen-after_all :
    (edges : List Edge) (writes : List (ℕ × ℕ)) (l : Listener)
    → AllFit writes
    → (listen (after_all edges writes) l).latched ≡ (listen edges l).latched ++ writes
listen-after_all edges [] l fits = sym (append-nil _)
listen-after_all edges (w ∷ ws) l fits =
    listen-after_all (edges ++ transfer (pack w.0 w.1)) ws l fits.2
    ∙ ap (λ old. old ++ ws)
        (ap (λ (s : Listener). s.latched) (listen-append edges (transfer (pack w.0 w.1)) l)
          ∙ listen-transfer w.0 w.1 (listen edges l) fits.0 fits.1)
    ∙ append_assoc _ (w ∷ []) ws

-- The configuration of `start`: automatic power of the phase detector, the divider of the output,
-- and the lock detector on the auxiliary pin.
abbrev pub start_config : IfDiv → ℕ
start_config div1 = 0x3004
start_config div2 = 0x3404
start_config div4 = 0x3C04
start_config div8 = 0x3004

config_value : (div : IfDiv) → bit_or (bit_or 4 (if_div_bits div * 0x400)) 0x3000 ≡ start_config div
config_value div1 = refl
config_value div2 = refl
config_value div4 = refl
config_value div8 = refl

abbrev pub start_writes : IfDiv → ℕ → ℕ → List (ℕ × ℕ)
start_writes div n r = (0, start_config div) ∷ (1, 0) ∷ (2, 0) ∷ (5, n) ∷ (8, r) ∷ (2, 2) ∷ []

pub start_ok_state :
    (c : Si41xx) (n r : ℕ)
    → is_ready c.state ≡ false
    → c.if_n ≡ pos n
    → c.if_r ≡ pos r
    → n ≤ 0xFFFF
    → r ≤ 0x1_FFFF
    → Si41xx.start c ≡ (
      ok tt,
      record c {
        state = ready;
        pbib = true;
        pbrb = false;
        edges = after_all c.edges (start_writes c.if_div n r);
      },
    )
unfolding Si41xx.start Si41xx.set_config_reg Si41xx.write_reg Si41xx.set_phase_pwrdown_reg
    Si41xx.set_div_reg
start_ok_state c n r idle en er hn hr = ground (arith, config_value c.if_div)

start_writes_fit :
    (div : IfDiv) (n r : ℕ) → n ≤ 0xFFFF → r ≤ 0x1_FFFF → AllFit (start_writes div n r)
start_writes_fit div1 n r hn hr = omega arith
start_writes_fit div2 n r hn hr = omega arith
start_writes_fit div4 n r hn hr = omega arith
start_writes_fit div8 n r hn hr = omega arith

-- `start`, of a driver that is not started and whose dividers fit their registers, whatever the
-- lines carried before: it returns and is READY, and the synthesizer has had six writes in this
-- order: the configuration, the gain 0, all power off, N, R, and the power of the IF synthesizer on.
pub start_ok :
    (c : Si41xx) (n r : ℕ)
    → is_ready c.state ≡ false
    → c.if_n ≡ pos n
    → c.if_r ≡ pos r
    → n ≤ 0xFFFF
    → r ≤ 0x1_FFFF
    → ((Si41xx.start c).0 ≡ ok tt)
      × ((Si41xx.start c).1.state ≡ ready)
      × Sends (start_writes c.if_div n r) c (Si41xx.start c).1
start_ok c n r idle en er hn hr =
    let e = start_ok_state c n r idle en er hn hr in
    (
      ap (λ p. p.0) e,
      ap (λ p. p.1.state) e,
      λ l.
          ap (λ p. heard p.1 l) e
          ∙ listen-after_all c.edges (start_writes c.if_div n r) l
              (start_writes_fit c.if_div n r hn hr),
    )

abbrev pub halt_writes : Bool → List (ℕ × ℕ)
halt_writes true = (2, 0) ∷ (0, 0) ∷ []
halt_writes false = []

pub halt_state :
    (c : Si41xx)
    → Si41xx.halt c ≡ (
      ok tt,
      record c {
        state = stop;
        pbib = false;
        pbrb = false;
        edges = after_all c.edges (halt_writes (is_ready c.state));
      },
    )
unfolding Si41xx.halt Si41xx.switch_off Si41xx.write_reg Si41xx.set_phase_pwrdown_reg
halt_state c = ground arith

halt_writes_fit : (b : Bool) → AllFit (halt_writes b)
halt_writes_fit true = omega arith
halt_writes_fit false = tt

pub halt-Sends : (c : Si41xx) → Sends (halt_writes (is_ready c.state)) c (Si41xx.halt c).1
halt-Sends c l =
    ap (λ p. heard p.1 l) (halt_state c)
    ∙ listen-after_all c.edges (halt_writes (is_ready c.state)) l
        (halt_writes_fit (is_ready c.state))
