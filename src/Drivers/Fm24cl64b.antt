-- ===== src/Drivers/Fm24cl64b.antt =====
-- oresat_c3/drivers/fm24cl64b.py: class Fm24cl64b, the F-RAM that keeps the state over a reset.
--
-- The chip and the file of the mock are a memory of bytes. A transfer on the bus writes or reads the
-- bytes from the address on, which the driver keeps from wrapping around; `bus_errors` says of each
-- transfer whether it raises `OSError`, and one that has no entry goes through.
pub mod RoundTrip
mod Tests
use oresat_c3_software_esi.Base.{
  ℕ, ℤ, pos, negsuc, ◌+◌, ◌/◌, Bool, true, false, not, ◌&&◌, ◌||◌, List, [], ◌∷◌, ◌++◌, length,
  take, drop, replicate, ltb, leb, ◌==◌, if◌then◌else◌,
}

pub data Error : Type 0 where
  fm24cl64b_error : Error

pub data Result (A : Type 0) : Type 0 where
  ok : A → Result A
  err : Error → Result A

abbrev pub addr_min : ℕ
addr_min = 0x50

abbrev pub addr_max : ℕ
addr_max = 0x5F

abbrev pub size : ℕ
size = 8192

pub record Fm24cl64b : Type 0 where
  pub addr : ℕ
  pub mock : Bool
  pub memory : List ℕ
  pub bus_errors : List Bool

-- `__init__`, on the memory as it is found
unfoldable pub new : ℕ → Bool → List ℕ → List Bool → Result Fm24cl64b
new addr mock memory bus_errors =
    if leb addr_min addr && leb addr addr_max
    then ok (record { addr = addr; mock = mock; memory = memory; bus_errors = bus_errors })
    else err fm24cl64b_error

-- whether the next transfer raises; the file of the mock does not
abbrev pub raises : Fm24cl64b → Bool
raises f = elim f.bus_errors [ [] ↦ false | e ∷ es ↦ e && not f.mock ]

-- after a transfer
abbrev pub transferred : Fm24cl64b → Fm24cl64b
transferred f = elim f.mock [ true ↦ f | false ↦ record f { bus_errors = drop 1 f.bus_errors } ]

-- `data[offset : offset + size]`
abbrev pub slice : ℕ → ℕ → List ℕ → List ℕ
slice offset n memory = take n (drop offset memory)

-- `tmp[offset : offset + size] = data`
abbrev pub splice : ℕ → List ℕ → List ℕ → List ℕ
splice offset bytes memory =
    take offset memory ++ (bytes ++ drop (length bytes) (drop offset memory))

read_at : ℕ → ℕ → Fm24cl64b → Result (List ℕ) × Fm24cl64b
read_at offset n f =
    if raises f
    then (err fm24cl64b_error, transferred f)
    else (ok (slice offset n f.memory), transferred f)

-- `read`
unfoldable pub read : ℤ → ℤ → Fm24cl64b → Result (List ℕ) × Fm24cl64b
unfolding read_at
read offset (negsuc n) f = (err fm24cl64b_error, f)
read (negsuc offset) (pos n) f = (err fm24cl64b_error, f)
read (pos offset) (pos n) f =
    if ltb n 1
    then (err fm24cl64b_error, f)
    else if ltb size offset
    then (err fm24cl64b_error, f)
    else if ltb size (offset + n)
    then (err fm24cl64b_error, f)
    else read_at offset n f

write_at : ℕ → List ℕ → Fm24cl64b → Result (Unit {0}) × Fm24cl64b
write_at offset bytes f =
    if raises f
    then (err fm24cl64b_error, transferred f)
    else (ok tt, record (transferred f) { memory = splice offset bytes f.memory })

-- `write`, of an argument that is `bytes`
unfoldable pub write : ℤ → List ℕ → Fm24cl64b → Result (Unit {0}) × Fm24cl64b
unfolding write_at
write (negsuc offset) bytes f = (err fm24cl64b_error, f)
write (pos offset) bytes f =
    if ltb size offset
    then (err fm24cl64b_error, f)
    else if ltb size (offset + length bytes)
    then (err fm24cl64b_error, f)
    else if length bytes == 0
    then (err fm24cl64b_error, f)
    else write_at offset bytes f

-- `clear`
unfoldable pub clear : Fm24cl64b → Result (Unit {0}) × Fm24cl64b
unfolding write
clear f = write (pos 0) (replicate (size / 2) 0) f
