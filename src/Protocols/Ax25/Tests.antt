-- ===== src/Protocols/Ax25/Tests.antt =====
-- oresat_c3/protocols/ax25.py: runs at fixed values.
use oresat_c3_software_esi.Base.{
  pos, negsuc, ◌≡◌, refl, arith, ℕ, ◌+◌, true, false, List, [], ◌∷◌, length,
}
use oresat_c3_software_esi.Protocols.Ax25.{
  ok, err, ax25_error, ax25_pack, ax25_unpack, pack_callsign, encode, shift_left, rstrip,
}
use oresat_c3_software_esi.Protocols.Ax25.RoundTrip.{ax25_unpack-ax25_pack}

-- "KJ7SAT" and "SPACE"
abbrev kj7sat : List ℕ
kj7sat = 75 ∷ 74 ∷ 55 ∷ 83 ∷ 65 ∷ 84 ∷ []

abbrev space : List ℕ
space = 83 ∷ 80 ∷ 65 ∷ 67 ∷ 69 ∷ []

negative_ssid :
    ax25_pack space (negsuc 0) kj7sat (pos 1) (pos 3) (pos 0xF0) false true [] ≡ err ax25_error
unfolding ax25_pack
negative_ssid = refl

packed_callsign : pack_callsign space ≡ 166 ∷ 160 ∷ 130 ∷ 134 ∷ 138 ∷ 64 ∷ []
unfolding pack_callsign encode shift_left
packed_callsign = refl

-- A callsign of six characters that are not all ASCII takes more than six bytes.
long_callsign : length (pack_callsign (233 ∷ 74 ∷ 55 ∷ 83 ∷ 65 ∷ 84 ∷ [])) ≡ 7
unfolding pack_callsign encode shift_left
long_callsign = refl

ax25_unpack-ax25_pack_example :
    (raw : List ℕ) × (ax25_pack space
        (pos 0)
        kj7sat
        (pos 11)
        (pos 3)
        (pos 0xF0)
        false
        true
        (1 ∷ 2 ∷ [])
      ≡ ok raw)
    × (length raw ≡ 16 + 2)
    × (ax25_unpack raw
        ≡ ok (record {
          dest_callsign = rstrip space;
          dest_ssid = 0;
          src_callsign = rstrip kj7sat;
          src_ssid = 11;
          control = 3;
          pid = 0xF0;
          command = false;
          response = true;
          payload = 1 ∷ 2 ∷ [];
        }))
ax25_unpack-ax25_pack_example =
    ax25_unpack-ax25_pack space kj7sat (1 ∷ 2 ∷ []) 0 11 3 0xF0 false true refl (omega arith) refl
      (omega arith) (omega arith) (omega arith) (omega arith) (omega arith) (omega arith)
