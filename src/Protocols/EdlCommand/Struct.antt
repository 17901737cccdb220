-- ===== src/Protocols/EdlCommand/Struct.antt =====
-- The calls of Python's `struct` in oresat_c3/protocols/edl_command.py. The formats `=` and `<` are
-- little-endian with no padding on the flight computer.
use oresat_c3_software_esi.Base.{
  ℕ, ◌+◌, ◌*◌, ◌/◌, ◌%◌, Bool, true, false, not, ◌&&◌, List, [], ◌∷◌, ◌++◌, ltb, ◌==◌,
  if◌then◌else◌,
}

-- `?`, `B`, `H`, `I` and `f`
pub data Field : Type 0 where
  flag u8 u16 u32 f32 : Field

-- A float is the bit pattern that `f` gives it, a `str` its UTF-8 encoding.
pub data Value : Type 0 where
  bool : Bool → Value
  int : ℕ → Value
  float : ℕ → Value
  bytes : List ℕ → Value
  str : List ℕ → Value

pub data Error : Type 0 where
  index_error value_error struct_error type_error unicode_error : Error

pub data Result (A : Type 0) : Type 0 where
  ok : A → Result A
  err : Error → Result A

-- How a function goes on from what its last call did: a raise ends it.
abbrev pub after : {A B : Type 0} → (A → Result B) → Result A → Result B
after rest (ok value) = rest value
after rest (err raised) = err raised

abbrev pub le16 : ℕ → List ℕ
le16 n = n % 0x100 ∷ n / 0x100 ∷ []

abbrev pub le32 : ℕ → List ℕ
le32 n = n % 0x100 ∷ n / 0x100 % 0x100 ∷ n / 0x10000 % 0x100 ∷ n / 0x1000000 ∷ []

-- `int(value)` for what `struct` takes as an integer
abbrev pub bounded : ℕ → (ℕ → List ℕ) → ℕ → Result (List ℕ)
bounded limit pack n = if ltb n limit then ok (pack n) else err struct_error

abbrev pub bit_of : Bool → ℕ
bit_of b = if b then 1 else 0

-- An integer field takes an `int` or a `bool`; a flag takes anything by its truth value.
abbrev pub pack_int : ℕ → (ℕ → List ℕ) → Value → Result (List ℕ)
pack_int limit pack (int n) = bounded limit pack n
pack_int limit pack (bool b) = bounded limit pack (bit_of b)
pack_int limit pack _ = err struct_error

abbrev is_empty : List ℕ → Bool
is_empty [] = true
is_empty (b ∷ bs) = false

-- `bool(value)`; 0.0 and -0.0 are false
abbrev pub truth : Value → Bool
truth (bool b) = b
truth (int n) = not (n == 0)
truth (float n) = not (n == 0) && not (n == 0x80000000)
truth (bytes bs) = not (is_empty bs)
truth (str cs) = not (is_empty cs)

abbrev pub pack_float : Value → Result (List ℕ)
pack_float (float n) = bounded 0x100000000 le32 n
pack_float _ = err struct_error

unfoldable pub pack_field : Field → Value → Result (List ℕ)
pack_field flag v = ok (bit_of (truth v) ∷ [])
pack_field u8 v = pack_int 0x100 (λ n. n ∷ []) v
pack_field u16 v = pack_int 0x10000 le16 v
pack_field u32 v = pack_int 0x100000000 le32 v
pack_field f32 v = pack_float v

-- `struct.pack(fmt, *values)`
unfoldable pub pack_fields : List Field → List Value → Result (List ℕ)
pack_fields [] [] = ok []
pack_fields [] (v ∷ vs) = err struct_error
pack_fields (f ∷ fs) [] = err struct_error
pack_fields (f ∷ fs) (v ∷ vs) =
    after (λ b. after (λ bs. ok (b ++ bs)) (pack_fields fs vs)) (pack_field f v)

abbrev pub of_le32 : ℕ → ℕ → ℕ → ℕ → ℕ
of_le32 a b c d = a + b * 0x100 + c * 0x10000 + d * 0x1000000

abbrev pub cons_value : Value → Result (List Value) → Result (List Value)
cons_value v (ok vs) = ok (v ∷ vs)
cons_value v (err e) = err e

-- `struct.unpack(fmt, raw)`
unfoldable pub unpack_fields : List Field → List ℕ → Result (List Value)
unpack_fields [] [] = ok []
unpack_fields (flag ∷ fs) (a ∷ raw) = cons_value (bool (not (a == 0))) (unpack_fields fs raw)
unpack_fields (u8 ∷ fs) (a ∷ raw) = cons_value (int a) (unpack_fields fs raw)
unpack_fields (u16 ∷ fs) (a ∷ b ∷ raw) = cons_value (int (a + b * 0x100)) (unpack_fields fs raw)
unpack_fields (u32 ∷ fs) (a ∷ b ∷ c ∷ d ∷ raw) =
    cons_value (int (of_le32 a b c d)) (unpack_fields fs raw)
unpack_fields (f32 ∷ fs) (a ∷ b ∷ c ∷ d ∷ raw) =
    cons_value (float (of_le32 a b c d)) (unpack_fields fs raw)
unpack_fields _ _ = err struct_error

-- `struct.calcsize`
abbrev pub calcsize : List Field → ℕ
calcsize [] = 0
calcsize (flag ∷ fs) = 1 + calcsize fs
calcsize (u8 ∷ fs) = 1 + calcsize fs
calcsize (u16 ∷ fs) = 2 + calcsize fs
calcsize (u32 ∷ fs) = 4 + calcsize fs
calcsize (f32 ∷ fs) = 4 + calcsize fs
