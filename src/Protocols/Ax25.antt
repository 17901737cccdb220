-- ===== src/Protocols/Ax25.antt =====
-- oresat_c3/protocols/ax25.py: packing and unpacking of AX.25 frames. A `str` is the list of its code
-- points (none a surrogate, which `encode` refuses), `bytes` the list of the bytes.
pub mod Callsign
pub mod RoundTrip
mod Tests
use Prim.Native.Nat.{bit_or, bit_and}
use oresat_c3_software_esi.Base.{
  ℕ, ℤ, pos, negsuc, ◌+◌, ◌-◌, ◌*◌, ◌/◌, ◌%◌, Bool, true, false, not, ◌&&◌, ◌||◌, Option, none,
  some, List, [], ◌∷◌, ◌++◌, length, take, drop, replicate, ltb, leb, ◌==◌, if◌then◌else◌,
}

-- `Ax25Error`, and what Python raises for a missing byte and for a byte that is not ASCII.
pub data Error : Type 0 where
  ax25_error index_error unicode_error : Error

pub data Result (A : Type 0) : Type 0 where
  ok : A → Result A
  err : Error → Result A

-- `x < 0 or x > high`
abbrev pub out_of : ℕ → ℤ → Bool
out_of high (pos n) = ltb high n
out_of high (negsuc n) = true

-- the number itself, where it is not negative
abbrev pub to_nat : ℤ → ℕ
to_nat (pos n) = n
to_nat (negsuc n) = 0

abbrev pub callsign_len : ℕ
callsign_len = 6

abbrev pub header_len : ℕ
header_len = 16

abbrev pub payload_max_len : ℕ
payload_max_len = 1024

-- UTF-8
abbrev pub utf8 : ℕ → List ℕ
utf8 c =
    if ltb c 0x80
    then c ∷ []
    else if ltb c 0x800
    then (0xC0 + c / 0x40) ∷ (0x80 + c % 0x40) ∷ []
    else if ltb c 0x10000
    then (0xE0 + c / 0x1000) ∷ (0x80 + c / 0x40 % 0x40) ∷ (0x80 + c % 0x40) ∷ []
    else (0xF0 + c / 0x40000)
      ∷ (0x80 + c / 0x1000 % 0x40)
      ∷ (0x80 + c / 0x40 % 0x40)
      ∷ (0x80 + c % 0x40)
      ∷ []

unfoldable pub encode : List ℕ → List ℕ
encode [] = []
encode (c ∷ cs) = utf8 c ++ encode cs

abbrev pub top_bit : List ℕ → ℕ
top_bit [] = 0
top_bit (b ∷ bs) = b / 0x80

-- `(BitArray(data) << 1).bytes`
unfoldable pub shift_left : List ℕ → List ℕ
shift_left [] = []
shift_left (b ∷ bs) = ((b * 2) % 0x100 + top_bit bs) ∷ shift_left bs

-- `(BitArray(data) >> 1).bytes`, on the lowest bit of the byte before
unfoldable pub shift_right : ℕ → List ℕ → List ℕ
shift_right carry [] = []
shift_right carry (b ∷ bs) = (carry * 0x80 + b / 2) ∷ shift_right (b % 2) bs

-- the padding of a callsign with spaces
abbrev pub pad : List ℕ → List ℕ
pad callsign = callsign ++ replicate (callsign_len - length callsign) 0x20

-- the byte of an SSID: the reserve bits and the c-bit are set
unfoldable pub ssid_byte : ℕ → Bool → ℕ
ssid_byte ssid c_bit = bit_or (bit_or (ssid * 2) 0b0110_0000) (if c_bit then 0x80 else 0)

unfoldable pub pack_callsign : List ℕ → List ℕ
pack_callsign callsign = shift_left (encode (pad callsign))

unfoldable pub frame : List ℕ → ℕ → List ℕ → ℕ → ℕ → ℕ → Bool → Bool → List ℕ → List ℕ
frame dest_callsign dest_ssid src_callsign src_ssid control pid command response payload =
    pack_callsign dest_callsign
    ++ (ssid_byte dest_ssid command
        ∷ (pack_callsign src_callsign
            ++ (bit_or (ssid_byte src_ssid response) 1 ∷ control ∷ pid ∷ payload)))

-- `ax25_pack`
unfoldable pub ax25_pack : List ℕ → ℤ → List ℕ → ℤ → ℤ → ℤ → Bool → Bool → List ℕ → Result (List ℕ)
ax25_pack dest_callsign dest_ssid src_callsign src_ssid control pid command response payload =
    if ltb callsign_len (length dest_callsign)
    then err ax25_error
    else if out_of 15 dest_ssid
    then err ax25_error
    else if ltb callsign_len (length src_callsign)
    then err ax25_error
    else if out_of 15 src_ssid
    then err ax25_error
    else if ltb payload_max_len (length payload)
    then err ax25_error
    else if out_of 0xFF control
    then err ax25_error
    else if out_of 0xFF pid
    then err ax25_error
    else ok (
        frame dest_callsign (to_nat dest_ssid) src_callsign (to_nat src_ssid) (to_nat control)
          (to_nat pid) command response payload)

pub record Ax25 : Type 0 where
  pub dest_callsign : List ℕ
  pub dest_ssid : ℕ
  pub src_callsign : List ℕ
  pub src_ssid : ℕ
  pub control : ℕ
  pub pid : ℕ
  pub command : Bool
  pub response : Bool
  pub payload : List ℕ

-- the white space of ASCII, as `rstrip` knows it
abbrev pub is_space : ℕ → Bool
is_space c = c == 0x20 || (leb 9 c && leb c 13) || (leb 28 c && leb c 31)

abbrev is_nil : List ℕ → Bool
is_nil [] = true
is_nil (c ∷ cs) = false

unfoldable pub rstrip : List ℕ → List ℕ
rstrip [] = []
rstrip (c ∷ cs) = let rest = rstrip cs in if is_space c && is_nil rest then [] else c ∷ rest

-- `decode("ascii")` goes through
abbrev pub is_ascii : List ℕ → Bool
is_ascii [] = true
is_ascii (c ∷ cs) = ltb c 0x80 && is_ascii cs

-- none where `decode` raises `UnicodeDecodeError`
unfoldable pub unpack_callsign : List ℕ → Option (List ℕ)
unpack_callsign raw =
    let chars = shift_right 0 raw in if is_ascii chars then some (rstrip chars) else none

-- `raw[i]`, where there is such a byte
abbrev pub byte : ℕ → List ℕ → ℕ
byte i raw = elim (drop i raw) [ [] ↦ 0 | b ∷ bs ↦ b ]

abbrev pub unpack_ssid : ℕ → ℕ
unpack_ssid b = bit_and b 0x1F / 2

abbrev pub c_bit : ℕ → Bool
c_bit b = not (bit_and b 0x80 == 0)

-- `ax25_unpack`
unfoldable pub ax25_unpack : List ℕ → Result Ax25
ax25_unpack raw =
    if ltb (length raw) header_len
    then err index_error
    else elim (unpack_callsign (take callsign_len raw)) [
      | none ↦ err unicode_error
      | some dest ↦ elim (unpack_callsign (take callsign_len (drop 7 raw))) [
        | none ↦ err unicode_error
        | some src ↦ ok (record {
          dest_callsign = dest;
          dest_ssid = unpack_ssid (byte 6 raw);
          src_callsign = src;
          src_ssid = unpack_ssid (byte 13 raw);
          control = byte 14 raw;
          pid = byte 15 raw;
          command = c_bit (byte 6 raw);
          response = c_bit (byte 13 raw);
          payload = drop header_len raw;
        })
      ]
    ]
