-- ===== src/Protocols/Uslp/Length.antt =====
-- oresat_c3/protocols/uslp.py: the length that the primary header states.
use oresat_c3_software_esi.Base.{
  ◌≡◌, refl, sym, ap, ◌∙◌, arith, ℕ, ◌+◌, Bool, true, false, Option, none, some, Bool-cases,
  Option-cases, inl, inr, List, ◌++◌, length, length-append, ltb,
}
use mathlib.Core.Path.{subst}
use oresat_c3_software_esi.Protocols.Sdls
use oresat_c3_software_esi.Protocols.Sdls.{
  Error, Result, ok, err, after, SourceOrDest, PrimaryHeader, TransferFrame, Sdls, sdls_empty,
  sdls_oresat, with_spi, spi_of, len, hmac_len, get_sdls_len, sdls_header, authenticated,
  apply_oresat, apply_sdls,
}
use oresat_c3_software_esi.Protocols.Uslp.{control_len, frame_header, make_frame}

-- The bytes of a packed frame: its header and counter, the insert zone, the data field, the control
-- word and the error control.
abbrev pub frame_size : TransferFrame → ℕ
frame_size frame =
    7
    + frame.header.vcf_count_len
    + control_len frame.insert_zone
    + length (frame.tfdf_header ++ frame.tfdz)
    + control_len frame.op_ctrl_field
    + 2

abbrev value_or : {A : Type 0} → A → Result A → A
value_or a (ok b) = b
value_or a (err x) = a

-- what the security fields of a frame add to it
abbrev Grows : TransferFrame → ℕ → TransferFrame → Type 0
Grows frame n frame' = (frame_size frame' ≡ frame_size frame + n) × (frame'.header ≡ frame.header)

-- the frame of `make_frame` before it is secured
abbrev unsigned :
    List ℕ
    → ℕ
    → SourceOrDest
    → Option ℕ
    → Option (List ℕ)
    → Bool
    → Bool
    → ℕ
    → List ℕ
    → TransferFrame
unsigned payload vcid src_dest vcf_count control_word bypass command sdls_len tfdf_header = record {
  header = frame_header payload vcid src_dest vcf_count control_word bypass command sdls_len;
  insert_zone = none;
  tfdf_header = tfdf_header;
  tfdz = payload;
  op_ctrl_field = control_word;
}

unsigned-frame_len :
    (payload : List ℕ) (vcid : ℕ) (src_dest : SourceOrDest) (vcf_count : Option ℕ)
    (control_word : Option (List ℕ)) (bypass command : Bool) (n : ℕ) (tfdf_header : List ℕ)
    → length tfdf_header ≡ 1
    → let frame =
        unsigned payload vcid src_dest vcf_count control_word bypass command n tfdf_header in
      frame.header.frame_len + 1 ≡ frame_size frame + n
unsigned-frame_len payload vcid src_dest vcf_count control_word bypass command n tfdf_header l =
    ground (arith, l, length-append tfdf_header payload)

module _ (digest : List ℕ → List ℕ → List ℕ) (pack_header : PrimaryHeader → List ℕ)
    (length-digest : (key message : List ℕ) → length (digest key message) ≡ hmac_len) where
  signed-Grows :
      (frame : TransferFrame) (zone mac : List ℕ)
      → frame.insert_zone ≡ none
      → length zone ≡ 6
      → length mac ≡ 32
      → Grows frame 38 (record frame { insert_zone = some zone; tfdz = frame.tfdz ++ mac })
  signed-Grows frame zone mac z l m =
      let e : control_len frame.insert_zone ≡ 0 = rw z refl in
      (
        omega (
          arith,
          e,
          l,
          m,
          length-append frame.tfdz mac,
          length-append frame.tfdf_header frame.tfdz,
          length-append frame.tfdf_header (frame.tfdz ++ mac),
        ),
        refl,
      )

  apply_oresat-Grows :
      (frame frame' : TransferFrame) (seq_num : ℕ) (key : Option (List ℕ))
      → frame.insert_zone ≡ none
      → apply_oresat digest pack_header frame seq_num key ≡ ok frame'
      → Grows frame 38 frame'
  unfolding apply_oresat
  apply_oresat-Grows frame frame' seq_num none z e = ground (arith, e)
  apply_oresat-Grows frame frame' seq_num (some key) z e =
      elim (Bool-cases (ltb seq_num 0x100000000)) [
        | inl b ↦
            let e' = ap (value_or frame) (rw b at e) in
            subst (Grows frame 38) e'
              (signed-Grows frame (sdls_header seq_num) _ z refl (length-digest key _))
        | inr b ↦
            let e' : Sdls.err Sdls.overflow_error ≡ ok frame' = rw b at e in ground (arith, e')
      ]

  apply_sdls-Grows :
      (frame frame' : TransferFrame) (seq_num n : ℕ) (key : Option (List ℕ))
      → frame.insert_zone ≡ none
      → get_sdls_len frame.header.vcid ≡ ok n
      → apply_sdls digest pack_header frame seq_num key ≡ ok frame'
      → Grows frame n frame'
  unfolding apply_sdls get_sdls_len
  apply_sdls-Grows frame frame' seq_num n key z l e =
      elim (Option-cases (spi_of frame.header.vcid)) [
        | inl v ↦
            let e' : Sdls.err Sdls.value_error ≡ ok n = ap (with_spi len) (sym v) ∙ l in
            ground (arith, e')
        | inr (sdls_empty, v) ↦
            let n' : 0 ≡ n = ap (value_or 0) (ap (with_spi len) (sym v) ∙ l) in
            let e' : frame ≡ frame' = ap (value_or frame) (rw (apply_sdls, v) at e) in
            subst (Grows frame n) e' (omega (arith, n'), refl)
        | inr (sdls_oresat, v) ↦
            let n' : 38 ≡ n = ap (value_or 0) (ap (with_spi len) (sym v) ∙ l) in
            subst (λ m. Grows frame m frame') n'
              (apply_oresat-Grows frame frame' seq_num key z (rw (apply_sdls, v) at e))
      ]

  secured-frame_len :
      (payload : List ℕ) (vcid : ℕ) (src_dest : SourceOrDest) (key : Option (List ℕ))
      (vcf_count : Option ℕ) (control_word : Option (List ℕ)) (seq_num : ℕ) (bypass : Bool)
      (tfdf_header : List ℕ) (frame : TransferFrame) (len : Result ℕ)
      → length tfdf_header ≡ 1
      → get_sdls_len vcid ≡ len
      → after
          (λ n.
            apply_sdls digest pack_header
              (unsigned payload vcid src_dest vcf_count control_word bypass false n tfdf_header)
              seq_num
              key)
          len
        ≡ ok frame
      → frame.header.frame_len + 1 ≡ frame_size frame
  secured-frame_len payload vcid src_dest key vcf_count control_word seq_num bypass t frame (err x)
        l g e =
      ground (arith, e)
  secured-frame_len payload vcid src_dest key vcf_count control_word seq_num bypass t frame (ok n) l
        g e =
      let f = unsigned payload vcid src_dest vcf_count control_word bypass false n t in
      let (grown, same_header) = apply_sdls-Grows f frame seq_num n key refl g e in
      let stated =
        unsigned-frame_len payload vcid src_dest vcf_count control_word bypass false n t l in
      omega (arith, grown, stated, ap (λ h. h.frame_len) same_header)

  -- The frame that `make_frame` returns states the length that it has packed, less one, for any
  -- payload, channel, counter and control word, secured or not.
  pub make_frame-frame_len :
      (payload : List ℕ) (vcid : ℕ) (src_dest : SourceOrDest) (key : Option (List ℕ))
      (vcf_count : Option ℕ) (control_word : Option (List ℕ)) (seq_num : ℕ) (bypass command : Bool)
      (tfdf_header : List ℕ) (frame : TransferFrame)
      → length tfdf_header ≡ 1
      → make_frame digest pack_header tfdf_header payload vcid src_dest key vcf_count control_word
          seq_num bypass command
        ≡ ok frame
      → frame.header.frame_len + 1 ≡ frame_size frame
  unfolding make_frame
  make_frame-frame_len payload vcid src_dest key vcf_count control_word seq_num bypass true t frame
        l e =
      let e' : unsigned payload vcid src_dest vcf_count control_word bypass true 0 t ≡ frame =
        ap (value_or frame) e in
      subst (λ f. f.header.frame_len + 1 ≡ frame_size f) e'
        (omega (
          arith,
          unsigned-frame_len payload vcid src_dest vcf_count control_word bypass true 0 t l,
        ))
  make_frame-frame_len payload vcid src_dest key vcf_count control_word seq_num bypass false t frame
        l e =
      secured-frame_len payload vcid src_dest key vcf_count control_word seq_num bypass t frame
        (get_sdls_len vcid) l refl e
