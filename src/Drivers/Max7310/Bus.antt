-- ===== src/Drivers/Max7310/Bus.antt =====
-- oresat_c3/drivers/max7310.py: the registers, the two I2C transfers, and the actions made of them.
use mathlib.Core.Path.{subst}
use oresat_c3_software_esi.Base.{
  ℕ, ◌≡◌, refl, sym, ap, Bool, true, false, List, [], ◌∷◌, ltb, if◌then◌else◌,
}

-- `Max7310Reg`
pub data Reg : Type 0 where
  input_port output_port polarity_inversion configuration timeout : Reg

-- where the source raises `Max7310Error`
pub data Error : Type 0 where
  bad_address invalid_pin bad_data bus_error : Error

pub data Result (A : Type 0) : Type 0 where
  ok : A → Result A
  err : Error → Result A

abbrev pub answered : {A : Type 0} → Result A → Bool
answered (ok _) = true
answered (err _) = false

pub record Chip : Type 0 where
  pub input_port : ℕ
  pub output_port : ℕ
  pub polarity_inversion : ℕ
  pub configuration : ℕ
  pub timeout : ℕ
  pub bus_errors : List Bool

abbrev pub addr_min : ℕ
addr_min = 8

abbrev pub addr_max : ℕ
addr_max = 64

abbrev pub Action : Type 0 → Type 0
Action A = Chip → Result A × Chip

abbrev pub pure : {A : Type 0} → A → Action A
pure a c = (ok a, c)

abbrev pub lift : {A : Type 0} → Result A → Action A
lift r c = (r, c)

-- How a method goes on from what its last call did: a raise ends it.
abbrev pub after : {A B : Type 0} → (A → Action B) → Result A × Chip → Result B × Chip
after rest (ok value, c) = rest value c
after rest (err raised, c) = (err raised, c)

infixl 5 ◌>>=◌ ◌>>◌
abbrev pub ◌>>=◌ : {A B : Type 0} → Action A → (A → Action B) → Action B
◌>>=◌ first rest c = after rest (first c)

abbrev pub ◌>>◌ : {B : Type 0} → Action (Unit {0}) → Action B → Action B
m >> k = m >>= λ _. k

abbrev pub get_reg : Reg → Chip → ℕ
get_reg Reg.input_port c = c.input_port
get_reg Reg.output_port c = c.output_port
get_reg Reg.polarity_inversion c = c.polarity_inversion
get_reg Reg.configuration c = c.configuration
get_reg Reg.timeout c = c.timeout

abbrev pub set_reg : Reg → ℕ → Chip → Chip
set_reg Reg.input_port v c = record c { input_port = v }
set_reg Reg.output_port v c = record c { output_port = v }
set_reg Reg.polarity_inversion v c = record c { polarity_inversion = v }
set_reg Reg.configuration v c = record c { configuration = v }
set_reg Reg.timeout v c = record c { timeout = v }

-- One `i2c_rdwr`: whether it raises.
abbrev pub raises : List Bool → Bool
raises [] = false
raises (e ∷ _) = e

abbrev pub later : List Bool → List Bool
later [] = []
later (_ ∷ es) = es

-- `_i2c_read_reg`
unfoldable pub read_reg : Reg → Action ℕ
read_reg reg c =
    let c' = record c { bus_errors = later c.bus_errors } in
    (if raises c.bus_errors then err bus_error else ok (get_reg reg c), c')

-- `_i2c_write_reg`: a value that is no byte is refused before the transfer.
unfoldable pub write_reg : Reg → ℕ → Action (Unit {0})
write_reg reg data_byte c =
    let c' = record c { bus_errors = later c.bus_errors } in
    if ltb data_byte 256
    then (if raises c.bus_errors then (err bus_error, c') else (ok tt, set_reg reg data_byte c'))
    else (err bad_data, c)

-- A property of a bind, from what its first action did.
pub bind_rule :
    {A B : Type 0} (P : Result B × Chip → Type 0) (m : Action A) (f : A → Action B) (c : Chip)
    → ((a : A) → (m c).0 ≡ ok a → P (f a (m c).1))
    → ((x : Error) → (m c).0 ≡ err x → P (err x, (m c).1))
    → P ((m >>= f) c)
bind_rule {A} P m f c returned raised = by_result (m c).0 refl
  where
    by_result : (r : Result A) → (m c).0 ≡ r → P ((m >>= f) c)
    by_result (ok a) e = subst (λ r. P (after f (r, (m c).1))) (sym e) (returned a e)
    by_result (err x) e = subst (λ r. P (after f (r, (m c).1))) (sym e) (raised x e)

pub then_ok :
    {A B : Type 0} (m : Action A) (f : A → Action B) (c : Chip) {a : A} {c' : Chip}
    → m c ≡ (ok a, c')
    → (m >>= f) c ≡ f a c'
then_ok m f c e = ap (after f) e
