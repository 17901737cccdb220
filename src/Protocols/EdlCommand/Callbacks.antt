-- ===== src/Protocols/EdlCommand/Callbacks.antt =====
-- oresat_c3/protocols/edl_command.py: the callback functions that pack and unpack what a format of
-- `struct` cannot.
use oresat_c3_software_esi.Base.{
  ℕ, zero, suc, Bool, true, false, ◌&&◌, ◌||◌, List, [], ◌∷◌, ◌++◌, take, drop, ltb, leb, ◌==◌,
  if◌then◌else◌,
}
use oresat_c3_software_esi.Protocols.EdlCommand.Struct.{
  Field, flag, u8, u16, u32, f32, Value, bool, float, bytes, str, index_error, type_error,
  unicode_error, Result, ok, err, after, pack_fields, unpack_fields, calcsize,
}

pub data Callback : Type 0 where
  sdo_write sdo_read node_flash : Callback

-- "<BHBI", "<BHB2I" and "<Bf???"
abbrev pub write_fields : List Field
write_fields = u8 ∷ u16 ∷ u8 ∷ u32 ∷ []

abbrev pub read_fields : List Field
read_fields = u8 ∷ u16 ∷ u8 ∷ u32 ∷ u32 ∷ []

abbrev pub flash_fields : List Field
flash_fields = u8 ∷ f32 ∷ flag ∷ flag ∷ flag ∷ []

-- `raw + value`
abbrev pub add_bytes : List ℕ → Value → Result (List ℕ)
add_bytes raw (bytes bs) = ok (raw ++ bs)
add_bytes raw _ = err type_error

-- `_edl_req_sdo_write_pack_cb`
unfoldable pub pack_sdo_write : List Value → Result (List ℕ)
pack_sdo_write (a ∷ b ∷ c ∷ d ∷ e ∷ rest) =
    after (λ raw. add_bytes raw e) (pack_fields write_fields (a ∷ b ∷ c ∷ d ∷ []))
pack_sdo_write values = after (λ raw. err index_error) (pack_fields write_fields values)

abbrev pub with_rest : Value → List Value → List Value
with_rest v [] = v ∷ []
with_rest v (u ∷ us) = u ∷ with_rest v us

-- a format from the first bytes, and the rest as it is
abbrev pub unpack_with_rest : List Field → List ℕ → Result (List Value)
unpack_with_rest fields raw =
    after (λ values. ok (with_rest (bytes (drop (calcsize fields) raw)) values))
      (unpack_fields fields (take (calcsize fields) raw))

-- `_edl_res_sdo_read_pack_cb`
unfoldable pub pack_sdo_read : List Value → Result (List ℕ)
pack_sdo_read (a ∷ b ∷ c ∷ d ∷ e ∷ f ∷ rest) =
    after (λ raw. add_bytes raw f) (pack_fields read_fields (a ∷ b ∷ c ∷ d ∷ e ∷ []))
pack_sdo_read values = after (λ raw. err index_error) (pack_fields read_fields values)

-- `values[i] if len(values) > i else default`
abbrev pub value_or : Value → List Value → Value
value_or default [] = default
value_or default (v ∷ vs) = v

abbrev pub add_name : Value → List ℕ → Result (List ℕ)
add_name (str name) raw = ok (raw ++ name)
add_name _ raw = err type_error

-- `_edl_req_node_flash_pack_cb`
unfoldable pub pack_node_flash : List Value → Result (List ℕ)
pack_node_flash [] = err index_error
pack_node_flash (node_id ∷ []) = err index_error
pack_node_flash (node_id ∷ filename ∷ rest) = after (add_name filename) (
    pack_fields flash_fields (
      node_id
      ∷ value_or (float 0) rest
      ∷ value_or (bool true) (drop 1 rest)
      ∷ value_or (bool true) (drop 2 rest)
      ∷ value_or (bool false) (drop 3 rest)
      ∷ []))

-- What a lead byte of UTF-8 asks of the bytes after it: their number, and the range of the first.
abbrev tails : ℕ → ℕ
tails a = if ltb a 0x80 then 0 else if ltb a 0xE0 then 1 else if ltb a 0xF0 then 2 else 3

abbrev lowest : ℕ → ℕ
lowest a = if a == 0xE0 then 0xA0 else if a == 0xF0 then 0x90 else 0x80

abbrev highest : ℕ → ℕ
highest a = if a == 0xED then 0x9F else if a == 0xF4 then 0x8F else 0xBF

-- with `n` bytes of a character to come, the first of them in a range
valid_from : ℕ → ℕ → ℕ → List ℕ → Bool
valid_from low high zero [] = true
valid_from low high (suc n) [] = false
valid_from low high zero (a ∷ rest) =
    (ltb a 0x80 || (leb 0xC2 a && leb a 0xF4)) && valid_from (lowest a) (highest a) (tails a) rest
valid_from low high (suc n) (a ∷ rest) = leb low a && leb a high && valid_from 0x80 0xBF n rest

-- `decode("utf-8")` goes through
unfoldable pub is_utf8 : List ℕ → Bool
unfolding valid_from
is_utf8 raw = valid_from 0x80 0xBF 0 raw

abbrev is_nil : List ℕ → Bool
is_nil [] = true
is_nil (b ∷ bs) = false

-- `rstrip("\x00")`
unfoldable pub strip_zeros : List ℕ → List ℕ
strip_zeros [] = []
strip_zeros (b ∷ bs) = let rest = strip_zeros bs in if b == 0 && is_nil rest then [] else b ∷ rest

-- the fixed part and the file name in the order of the arguments
abbrev name_second : List ℕ → List Value → List Value
name_second name [] = str name ∷ []
name_second name (node_id ∷ rest) = node_id ∷ str name ∷ rest

-- `_edl_req_node_flash_unpack_cb`
unfoldable pub unpack_node_flash : List ℕ → Result (List Value)
unpack_node_flash raw =
    let name = drop (calcsize flash_fields) raw in
    after
      (λ values.
        if is_utf8 name then ok (name_second (strip_zeros name) values) else err unicode_error)
      (unpack_fields flash_fields (take (calcsize flash_fields) raw))

unfoldable pub pack_callback : Callback → List Value → Result (List ℕ)
pack_callback sdo_write values = pack_sdo_write values
pack_callback sdo_read values = pack_sdo_read values
pack_callback node_flash values = pack_node_flash values

-- `_edl_req_sdo_write_unpack_cb` and `_edl_res_sdo_read_unpack_cb` are the same but for the format.
unfoldable pub unpack_callback : Callback → List ℕ → Result (List Value)
unpack_callback sdo_write raw = unpack_with_rest write_fields raw
unpack_callback sdo_read raw = unpack_with_rest read_fields raw
unpack_callback node_flash raw = unpack_node_flash raw
