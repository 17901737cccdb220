-- ===== src/Protocols/Sdls.antt =====
-- oresat_c3/protocols/sdls.py: the security header and the HMAC of a frame. The digest and the
-- packing of the primary header are not part of the repository, and are parameters.
pub mod Authentic
mod Tests
use Prim.Native.Nat.{bit_and}
use oresat_c3_software_esi.Base.{
  ℕ, ◌+◌, ◌-◌, ◌*◌, ◌/◌, ◌%◌, Bool, true, false, Option, none, some, List, [], ◌∷◌, ◌++◌, length,
  take, drop, replicate, same, ltb, ◌==◌, if◌then◌else◌,
}

-- What the functions of the data link raise: `SdlsInvalidHmacError`, the errors of the package
-- spacepackets and of uslp.py, and those of Python.
pub data Error : Type 0 where
  invalid_hmac value_error type_error overflow_error index_error : Error
  frame_error checksum_error spacecraft_id_error : Error

pub data Result (A : Type 0) : Type 0 where
  ok : A → Result A
  err : Error → Result A

-- How a function goes on from what its last call did: a raise ends it.
abbrev pub after : {A B : Type 0} → (A → Result B) → Result A → Result B
after rest (ok value) = rest value
after rest (err raised) = err raised

pub data SourceOrDest : Type 0 where
  source dest : SourceOrDest

-- the arguments of `PrimaryHeader`
pub record PrimaryHeader : Type 0 where
  pub scid : ℕ
  pub map_id : ℕ
  pub vcid : ℕ
  pub src_dest : SourceOrDest
  pub frame_len : ℕ
  pub vcf_count_len : ℕ
  pub vcf_count : Option ℕ
  pub op_ctrl_flag : Bool
  pub prot_ctrl_cmd_flag : Bool
  pub bypass_seq_ctrl_flag : Bool

-- `tfdf.pack()` is `tfdf_header` and `tfdz`.
pub record TransferFrame : Type 0 where
  pub header : PrimaryHeader
  pub insert_zone : Option (List ℕ)
  pub tfdf_header : List ℕ
  pub tfdz : List ℕ
  pub op_ctrl_field : Option (List ℕ)

abbrev pub hmac_len : ℕ
hmac_len = 32

abbrev pub spi_len : ℕ
spi_len = 2

abbrev pub seq_num_len : ℕ
seq_num_len = 4

-- `SdlsEmpty` and `SdlsOresat`
pub data Sdls : Type 0 where
  sdls_empty sdls_oresat : Sdls

-- `SPI_LIST[vcid]`, none where that raises
unfoldable pub spi_of : ℕ → Option Sdls
spi_of vcid =
    if vcid == 0
    then some sdls_oresat
    else if vcid == 1
    then some sdls_oresat
    else if vcid == 2
    then some sdls_empty
    else none

-- `len` and `header_len`
abbrev pub len : Sdls → ℕ
len sdls_empty = 0
len sdls_oresat = hmac_len + spi_len + seq_num_len

abbrev pub header_len : Sdls → ℕ
header_len sdls_empty = 0
header_len sdls_oresat = spi_len + seq_num_len

abbrev pub with_spi : {A : Type 0} → (Sdls → A) → Option Sdls → Result A
with_spi f none = err value_error
with_spi f (some s) = ok (f s)

unfoldable pub get_sdls_len : ℕ → Result ℕ
get_sdls_len vcid = with_spi len (spi_of vcid)

unfoldable pub get_sdls_header_len : ℕ → Result ℕ
get_sdls_header_len vcid = with_spi header_len (spi_of vcid)

-- `seq_num.to_bytes(SEQ_NUM_LEN, "big")`, for a number that fits
abbrev pub be32 : ℕ → List ℕ
be32 n = n / 0x1000000 ∷ n / 0x10000 % 0x100 ∷ n / 0x100 % 0x100 ∷ n % 0x100 ∷ []

-- `int.from_bytes(raw, byteorder="big")`, on the number read so far
abbrev pub from_be : ℕ → List ℕ → ℕ
from_be n [] = n
from_be n (b ∷ bs) = from_be (n * 0x100 + b) bs

-- the security header of a sequence number
abbrev pub sdls_header : ℕ → List ℕ
sdls_header seq_num = 0 ∷ 1 ∷ be32 seq_num

-- `header_mask`
abbrev pub header_mask : ℕ → List ℕ
header_mask vcf_count_len = 0 ∷ 0 ∷ 0x07 ∷ 0xFE ∷ 0 ∷ 0 ∷ 0 ∷ replicate vcf_count_len 0

-- the loop over the mask; the packed header is as long as the mask
unfoldable pub apply_mask : List ℕ → List ℕ → List ℕ
apply_mask [] bytes = bytes
apply_mask (m ∷ mask) [] = []
apply_mask (m ∷ mask) (b ∷ bytes) = bit_and b m ∷ apply_mask mask bytes

-- `xs[:-n]` and `xs[-n:]`
abbrev pub but_last : ℕ → List ℕ → List ℕ
but_last n xs = take (length xs - n) xs

abbrev pub last_of : ℕ → List ℕ → List ℕ
last_of n xs = drop (length xs - n) xs

module _ (digest : List ℕ → List ℕ → List ℕ) (pack_header : PrimaryHeader → List ℕ) where
  -- `authenticated_data`, of a header, a security header and a packed data field
  abbrev pub authenticated : PrimaryHeader → List ℕ → List ℕ → List ℕ
  authenticated header zone payload =
      apply_mask (header_mask header.vcf_count_len) (pack_header header ++ (zone ++ payload))

  unfoldable pub apply_oresat : TransferFrame → ℕ → Option (List ℕ) → Result TransferFrame
  apply_oresat frame seq_num none = err value_error
  apply_oresat frame seq_num (some hmac_key) =
      if ltb seq_num 0x100000000
      then ok (record frame {
        insert_zone = some (sdls_header seq_num);
        tfdz =
            frame.tfdz
            ++ digest hmac_key (
                authenticated frame.header (sdls_header seq_num) (frame.tfdf_header ++ frame.tfdz));
      })
      else err overflow_error

  -- `frame.header.pack() + None` raises `TypeError`.
  unfoldable pub verify_oresat : TransferFrame → Option (List ℕ) → Result ℕ × TransferFrame
  verify_oresat frame none = (err value_error, frame)
  verify_oresat frame (some hmac_key) = elim frame.insert_zone [
    | none ↦ (err type_error, frame)
    | some zone ↦
        let payload = but_last hmac_len (frame.tfdf_header ++ frame.tfdz) in
        let hmac_expected = digest hmac_key (authenticated frame.header zone payload) in
        let hmac_actual = last_of hmac_len frame.tfdz in
        let frame' = record frame { tfdz = but_last hmac_len frame.tfdz } in
        (
          if same hmac_expected hmac_actual then ok (from_be 0 (drop 2 zone)) else err invalid_hmac,
          frame',
        )
  ]

  unfoldable pub apply_sdls : TransferFrame → ℕ → Option (List ℕ) → Result TransferFrame
  unfolding apply_oresat
  apply_sdls frame seq_num hmac_key = elim (spi_of frame.header.vcid) [
    | none ↦ err value_error
    | some s ↦ elim s [ sdls_empty ↦ ok frame | sdls_oresat ↦ apply_oresat frame seq_num hmac_key ]
  ]

  unfoldable pub verify_sdls : TransferFrame → Option (List ℕ) → Result ℕ × TransferFrame
  unfolding verify_oresat
  verify_sdls frame hmac_key = elim (spi_of frame.header.vcid) [
    | none ↦ (err value_error, frame)
    | some s ↦ elim s [ sdls_empty ↦ (ok 0, frame) | sdls_oresat ↦ verify_oresat frame hmac_key ]
  ]
