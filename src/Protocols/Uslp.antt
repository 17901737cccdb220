-- ===== src/Protocols/Uslp.antt =====
-- oresat_c3/protocols/uslp.py: making and unpacking USLP transfer frames. The objects of the package
-- spacepackets are records of what the source passes to their constructors; how they are packed and
-- unpacked is a parameter.
pub mod Length
use Prim.Native.Nat.{bit_and, bit_or}
use oresat_c3_software_esi.Base.{
  ℕ, ◌+◌, ◌-◌, ◌*◌, ◌/◌, ◌^◌, Bool, true, false, not, Option, none, some, List, [], ◌∷◌, length,
  drop, ltb, ◌==◌, if◌then◌else◌,
}
use oresat_c3_software_esi.Protocols.Sdls.{
  Error, index_error, value_error, frame_error, checksum_error, spacecraft_id_error, Result, ok,
  err, after, SourceOrDest, PrimaryHeader, TransferFrame, get_sdls_len, get_sdls_header_len,
  apply_sdls,
}

abbrev pub spacecraft_id : ℕ
spacecraft_id = 0x4F53

abbrev pub primary_header_len : ℕ
primary_header_len = 7

abbrev pub dfh_len : ℕ
dfh_len = 1

abbrev pub fecf_len : ℕ
fecf_len = 2

abbrev pub tc_min_len : ℕ
tc_min_len = primary_header_len + dfh_len + fecf_len

-- `raw[i]`, where there is such a byte
abbrev pub byte : ℕ → List ℕ → ℕ
byte i raw = elim (drop i raw) [ [] ↦ 0 | b ∷ bs ↦ b ]

abbrev pub peek_vcid : List ℕ → ℕ
peek_vcid raw = bit_or (bit_and (byte 2 raw) 0b111 * 8) (bit_and (byte 3 raw / 2 ^ 5) 0b111)

abbrev pub peek_command : List ℕ → Bool
peek_command raw = not (bit_and (byte 6 raw) 0x40 == 0)

-- the length of the control word, where there is one
abbrev pub control_len : Option (List ℕ) → ℕ
control_len none = 0
control_len (some word) = length word

abbrev pub is_some {ℓ} : {A : Type ℓ} → Option A → Bool
is_some none = false
is_some (some a) = true

-- The header that `make_frame` builds, with the length of the security fields
abbrev pub frame_header :
    List ℕ → ℕ → SourceOrDest → Option ℕ → Option (List ℕ) → Bool → Bool → ℕ → PrimaryHeader
frame_header payload vcid src_dest vcf_count control_word bypass command sdls_len =
    let vcf_count_len = if is_some vcf_count then 1 else 0 in
    record {
      scid = spacecraft_id;
      map_id = 0;
      vcid = vcid;
      src_dest = src_dest;
      frame_len =
          length payload
          + primary_header_len
          + vcf_count_len
          + dfh_len
          + fecf_len
          - 1
          + control_len control_word
          + sdls_len;
      vcf_count_len = vcf_count_len;
      vcf_count = vcf_count;
      op_ctrl_flag = is_some control_word;
      prot_ctrl_cmd_flag = command;
      bypass_seq_ctrl_flag = bypass;
    }

-- `tfdf_header` is what the package puts before the data zone.
module _ (digest : List ℕ → List ℕ → List ℕ) (pack_header : PrimaryHeader → List ℕ)
    (tfdf_header : List ℕ) where
  unfoldable pub make_frame :
      List ℕ
      → ℕ
      → SourceOrDest
      → Option (List ℕ)
      → Option ℕ
      → Option (List ℕ)
      → ℕ
      → Bool
      → Bool
      → Result TransferFrame
  make_frame payload vcid src_dest hmac_key vcf_count control_word sequence_number bypass command =
      after
        (λ sdls_len.
          let frame : TransferFrame = record {
            header =
                frame_header payload vcid src_dest vcf_count control_word bypass command sdls_len;
            insert_zone = none;
            tfdf_header = tfdf_header;
            tfdz = payload;
            op_ctrl_field = control_word;
          } in
          if command
          then ok frame
          else apply_sdls digest pack_header frame sequence_number hmac_key)
        (if command then ok 0 else get_sdls_len vcid)

-- `unpack_frame`; `unpack` is `TransferFrame.unpack` for a frame whose insert zone has a length.
module _ (unpack : List ℕ → ℕ → Result TransferFrame) where
  abbrev check_scid : TransferFrame → Result TransferFrame
  check_scid frame =
      if frame.header.scid == spacecraft_id then ok frame else err spacecraft_id_error

  unfoldable pub unpack_frame : List ℕ → Result TransferFrame
  unpack_frame raw =
      if ltb (length raw) primary_header_len
      then err index_error
      else after
          (λ sdls_header_len.
            if ltb (length raw) tc_min_len
            then err frame_error
            else after check_scid (unpack raw sdls_header_len))
          (if peek_command raw then ok 0 else get_sdls_header_len (peek_vcid raw))
