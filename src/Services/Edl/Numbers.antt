-- ===== src/Services/Edl/Numbers.antt =====
-- oresat_c3/services/edl.py: the range of the sequence numbers that a frame gives.
use oresat_c3_software_esi.Base.{
  ◌≡◌, ap, arith, ℕ, ◌<◌, Bool, true, false, ◌&&◌, Option, none, some, List, [], ◌∷◌, ltb, drop,
  if◌then◌else◌, Option-cases, inl, inr,
}
use oresat_c3_software_esi.Protocols.EdlPacket.{
  Payload, EdlPacket, Result, ok, err, from_frame, from_verified, with_payload,
}
use oresat_c3_software_esi.Protocols.Sdls
use oresat_c3_software_esi.Protocols.Sdls.{
  TransferFrame, PrimaryHeader, Sdls, sdls_empty, sdls_oresat, spi_of, from_be, invalid_hmac,
  verify_oresat, verify_sdls,
}
use oresat_c3_software_esi.Services.Edl.State.{Packages}
use oresat_c3_software_esi.Services.Edl.Frames.{read_frame}

-- The insert zone, where the frame has one, is the six bytes that `TransferFrame.unpack` takes for it.
abbrev pub zoned : Option (List ℕ) → Bool
zoned none = true
zoned (some (a ∷ b ∷ c ∷ d ∷ e ∷ f ∷ [])) = ltb c 256 && ltb d 256 && ltb e 256 && ltb f 256
zoned _ = false

abbrev pub all_zoned : List TransferFrame → Bool
all_zoned [] = true
all_zoned (frame ∷ frames) = zoned frame.insert_zone && all_zoned frames

from_be-bound : (zone : List ℕ) → zoned (some zone) ≡ true → from_be 0 (drop 2 zone) < 0x100000000
from_be-bound (a ∷ b ∷ c ∷ d ∷ e ∷ f ∷ []) h = ground (arith, h)
from_be-bound _ h = ground (arith, h)

guarded_ok :
    (b : Bool) (m n : ℕ) → (if b then Sdls.ok m else Sdls.err invalid_hmac) ≡ Sdls.ok n → m ≡ n
guarded_ok true m n e = ground (arith, e)
guarded_ok false m n e = ground (arith, e)

module _ {Pdu : Type 0} (lib : Packages Pdu) where
  verify_oresat-bound :
      (frame : TransferFrame) (key : List ℕ) (n : ℕ)
      → zoned frame.insert_zone ≡ true
      → (verify_oresat lib.digest lib.pack_header frame (some key)).0 ≡ Sdls.ok n
      → n < 0x100000000
  unfolding verify_oresat
  verify_oresat-bound frame key n h e = elim (Option-cases frame.insert_zone) [
    | inl z ↦
        let e' : Sdls.err Sdls.type_error ≡ Sdls.ok n = rw (verify_oresat, z) at e in
        ground (arith, e')
    | inr (zone, z) ↦
        let h' : zoned (some zone) ≡ true = rw z at h in
        let m = from_be 0 (drop 2 zone) in
        let e' : m ≡ n = guarded_ok _ m n (rw (verify_oresat, z) at e) in
        omega (arith, e', from_be-bound zone h')
  ]

  verify_sdls-bound :
      (frame : TransferFrame) (key : List ℕ) (n : ℕ)
      → zoned frame.insert_zone ≡ true
      → (verify_sdls lib.digest lib.pack_header frame (some key)).0 ≡ Sdls.ok n
      → n < 0x100000000
  unfolding verify_sdls
  verify_sdls-bound frame key n h e = elim (Option-cases (spi_of frame.header.vcid)) [
    | inl v ↦
        let e' : Sdls.err Sdls.value_error ≡ Sdls.ok n = rw (verify_sdls, v) at e in
        ground (arith, e')
    | inr (sdls_empty, v) ↦
        let e' : Sdls.ok 0 ≡ Sdls.ok n = rw (verify_sdls, v) at e in ground (arith, e')
    | inr (sdls_oresat, v) ↦ verify_oresat-bound frame key n h (rw (verify_sdls, v) at e)
  ]

  with_payload_number :
      (n : ℕ) (src_dest : Sdls.SourceOrDest) (r : Result (Payload Pdu)) (p : EdlPacket Pdu)
      → with_payload lib.pdu_pack lib.pdu_from_raw lib.digest lib.pack_header lib.tfdf_header n
          src_dest r
        ≡ ok p
      → n ≡ p.seq_num
  with_payload_number n src_dest (ok payload) p e = ground (arith, e)
  with_payload_number n src_dest (err x) p e = ground (arith, e)

  from_verified_number :
      (v : Sdls.Result ℕ × TransferFrame) (p : EdlPacket Pdu)
      → from_verified lib.pdu_pack lib.pdu_from_raw lib.digest lib.pack_header lib.tfdf_header v
        ≡ ok p
      → v.0 ≡ Sdls.ok p.seq_num
  from_verified_number (Sdls.ok n, frame) p e = ap Sdls.ok (with_payload_number n _ _ p e)
  from_verified_number (Sdls.err x, frame) p e = ground (arith, e)

  -- The number of a packet has four bytes.
  pub read_frame-bound :
      (frame : TransferFrame) (key : List ℕ) (ignore_hmac : Bool) (p : EdlPacket Pdu)
      → zoned frame.insert_zone ≡ true
      → read_frame lib frame key ignore_hmac ≡ ok p
      → p.seq_num < 0x100000000
  unfolding from_frame
  read_frame-bound frame key ignore_hmac p h e =
      verify_sdls-bound frame key p.seq_num h (from_verified_number _ p e)
