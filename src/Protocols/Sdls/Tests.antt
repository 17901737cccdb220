-- ===== src/Protocols/Sdls/Tests.antt =====
-- oresat_c3/protocols/sdls.py and uslp.py: runs at fixed values.
use oresat_c3_software_esi.Base.{◌≡◌, refl, arith, ℕ, none, some, List, [], ◌∷◌}
use oresat_c3_software_esi.Protocols.Sample.{digest, pack_header, key, plain}
use oresat_c3_software_esi.Protocols.Sdls.{
  apply_mask, ok, err, index_error, invalid_hmac, value_error, TransferFrame, sdls_oresat, spi_of,
  sdls_header, authenticated, apply_sdls, verify_oresat, verify_sdls,
}
use oresat_c3_software_esi.Protocols.Sdls.Authentic.{apply_sdls-verify_sdls}
use oresat_c3_software_esi.Protocols.Uslp.{unpack_frame}

-- the HMAC of `plain` with the number 5, and the frame with it
abbrev mac : List ℕ
mac = digest key (authenticated digest pack_header plain.header (sdls_header 5) (0xE5 ∷ 2 ∷ []))

abbrev secured : TransferFrame
secured = record plain { insert_zone = some (sdls_header 5); tfdz = 2 ∷ mac }

plain_spi : spi_of plain.header.vcid ≡ some sdls_oresat
unfolding spi_of
plain_spi = refl

secured_verifies : (verify_sdls digest pack_header secured (some key)).0 ≡ ok 5
unfolding verify_sdls spi_of verify_oresat apply_mask
secured_verifies = refl

apply_sdls-verify_sdls_example :
    apply_sdls digest pack_header (verify_sdls digest pack_header secured (some key)).1 5 (some key)
    ≡ ok secured
apply_sdls-verify_sdls_example =
    apply_sdls-verify_sdls digest pack_header secured 5 key plain_spi (omega arith) refl
      (omega arith) secured_verifies

other_key : (verify_sdls digest pack_header secured (some (1 ∷ []))).0 ≡ err invalid_hmac
unfolding verify_sdls spi_of verify_oresat apply_mask
other_key = refl

no_key : (verify_sdls digest pack_header secured none).0 ≡ err value_error
unfolding verify_sdls spi_of verify_oresat apply_mask
no_key = refl

-- A frame without a whole primary header raises before its length is looked at.
short_frame : unpack_frame (λ raw len. ok plain) (0xC4 ∷ 0xF5 ∷ []) ≡ err index_error
unfolding unpack_frame
short_frame = refl
