-- ===== src/Protocols/CacheStore/Checksum.antt =====
-- oresat_c3/protocols/cachestore.py: `calc_modular_checksum` and `calculate_checksum`. The functions of
-- fastcrc are parameters.
use oresat_c3_software_esi.Base.{
  ℕ, zero, suc, ◌+◌, ◌-◌, ◌%◌, ◌^◌, Bool, true, false, none, some, List, [], ◌∷◌, ◌++◌, length,
  replicate, ltb, ◌==◌, if◌then◌else◌,
}
use oresat_c3_software_esi.Protocols.Sdls.{be32, from_be}
use oresat_c3_software_esi.Protocols.CacheStore.{CacheStore, has, read_data}

pub data ChecksumType : Type 0 where
  null_checksum modular crc_32 crc_32c other : ChecksumType

-- what a call raises; `out_of_fuel` is a loop that has not ended
pub data Error : Type 0 where
  file_not_found source_file_does_not_exist value_error checksum_not_implemented : Error
  out_of_fuel : Error

pub data Result (A : Type 0) : Type 0 where
  ok : A → Result A
  err : Error → Result A

abbrev pub then_pack : Result ℕ → Result (List ℕ)
then_pack (ok n) = ok (be32 n)
then_pack (err e) = err e

-- `int.from_bytes(bytes.ljust(4, b"\0"), byteorder="big")`
abbrev pub word_of : List ℕ → ℕ
word_of bytes = from_be 0 (bytes ++ replicate (4 - length bytes) 0)

-- the loop of `calc_modular_checksum`
unfoldable pub modular_loop : ℕ → ℕ → ℕ → CacheStore → ℕ → Result ℕ
modular_loop file offset checksum s zero = err out_of_fuel
modular_loop file offset checksum s (suc fuel) = elim (read_data file offset (some 4) s) [
  | none ↦ err file_not_found
  | some bytes ↦ elim bytes [
    | [] ↦ ok checksum
    | b ∷ bs ↦ modular_loop file (offset + 4) (checksum + word_of (b ∷ bs)) s fuel
  ]
]

abbrev pub modulo : Result ℕ → Result ℕ
modulo (ok n) = ok (n % 2 ^ 32)
modulo (err e) = err e

unfoldable pub calc_modular_checksum : ℕ → CacheStore → ℕ → Result (List ℕ)
calc_modular_checksum file s fuel = then_pack (modulo (modular_loop file 0 0 s fuel))

-- `crc bytes initial` is a function of fastcrc.
module _ (crc : List ℕ → ℕ → ℕ) where
  -- the bytes of one segment
  abbrev pub segment : ℕ → ℕ → ℕ → ℕ
  segment offset size segment_len =
      if ltb size (offset + segment_len) then size - offset else segment_len

  unfoldable pub crc_loop : ℕ → ℕ → ℕ → ℕ → ℕ → CacheStore → ℕ → Result ℕ
  crc_loop file offset size segment_len current s zero = err out_of_fuel
  crc_loop file offset size segment_len current s (suc fuel) = elim (ltb offset size) [
    | false ↦ ok current
    | true ↦ elim (read_data file offset (some (segment offset size segment_len)) s) [
      | none ↦ err file_not_found
      | some bytes ↦
          crc_loop file (offset + segment offset size segment_len) size segment_len
            (crc bytes current) s fuel
    ]
  ]

-- `start` and `start_c` are what the two functions of fastcrc give for no bytes.
module _ (crc crc_c : List ℕ → ℕ → ℕ) (start start_c : ℕ) where
  abbrev crc_of : (List ℕ → ℕ → ℕ) → ℕ → ℕ → ℕ → ℕ → CacheStore → ℕ → Result (List ℕ)
  crc_of f first file size segment_len s fuel =
      if segment_len == 0
      then err value_error
      else then_pack (crc_loop f file 0 size segment_len first s fuel)

  abbrev pub of_file : ChecksumType → ℕ → ℕ → ℕ → CacheStore → ℕ → Result (List ℕ)
  of_file null_checksum file size segment_len s fuel = ok (0 ∷ 0 ∷ 0 ∷ 0 ∷ [])
  of_file modular file size segment_len s fuel = calc_modular_checksum file s fuel
  of_file crc_32 file size segment_len s fuel = crc_of crc start file size segment_len s fuel
  of_file crc_32c file size segment_len s fuel = crc_of crc_c start_c file size segment_len s fuel
  of_file other file size segment_len s fuel =
      if segment_len == 0 then err value_error else err checksum_not_implemented

  abbrev pub is_null : ChecksumType → Bool
  is_null null_checksum = true
  is_null _ = false

  unfoldable pub calculate_checksum : ChecksumType → ℕ → ℕ → ℕ → CacheStore → ℕ → Result (List ℕ)
  calculate_checksum kind file size segment_len s fuel =
      if is_null kind
      then ok (0 ∷ 0 ∷ 0 ∷ 0 ∷ [])
      else if has file s.names
      then of_file kind file size segment_len s fuel
      else err source_file_does_not_exist
