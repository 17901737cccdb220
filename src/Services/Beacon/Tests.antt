-- ===== src/Services/Beacon/Tests.antt =====
-- A service with a socket for its downlink, and the theorems at it.
use oresat_c3_software_esi.Base.{
  ◌/◌, ℕ, ◌+◌, ◌*◌, ◌≡◌, refl, true, false, none, List, [], ◌∷◌, length, take, drop, arith,
}
use oresat_c3_software_esi.Protocols.Ax25
use oresat_c3_software_esi.Protocols.Ax25.{ax25_unpack}
use oresat_c3_software_esi.Services.Beacon
use oresat_c3_software_esi.Services.Beacon.{Beacon, ok, payload_of, concat}
use oresat_c3_software_esi.Services.Beacon.Sent.{IsSendable, sent, received, from_le, on_loop_sent}
use oresat_c3_software_esi.Services.Radios.Service

abbrev service : Beacon
service = record {
  radios = Service.new none false false 60 5 [] [] [];
  delay = 30;
  leop = false;
  leop_timeout = 60_000;
  tx_enabled = true;
  c3_state = 69;
  dest_callsign = 0x53 ∷ 0x50 ∷ [];
  dest_ssid = 0;
  src_callsign = 0x4B ∷ 0x4A ∷ 0x37 ∷ [];
  src_ssid = 1;
  control = 3;
  pid = 0xF0;
  command = false;
  response = true;
  quotient = λ timeout len. timeout * 45 / (8 * (len + 200));
  ts = 0;
}

abbrev crc : List ℕ → ℕ
crc bytes = 0x0102_0304

abbrev objects : List (List ℕ)
objects = (1 ∷ 2 ∷ []) ∷ (7 ∷ []) ∷ []

service-IsSendable : IsSendable service (payload_of crc objects)
unfolding payload_of
service-IsSendable = record {
  dest_ascii = refl;
  dest_short = omega arith;
  src_ascii = refl;
  src_short = omega arith;
  dest_ssid_fits = omega arith;
  src_ssid_fits = omega arith;
  control_byte = omega arith;
  pid_byte = omega arith;
  payload_fits = omega arith;
}

on_loop_sent_example :
    let payload = payload_of crc objects in
    (frame : List ℕ) × (Beacon.on_loop crc 9 objects [] service
      ≡ (ok, record service { ts = 9; radios = sent frame service.radios }))
    × (ax25_unpack frame ≡ Ax25.ok (received service payload))
    × (take (length (concat objects)) payload ≡ concat objects)
    × (from_le (drop (length (concat objects)) payload) ≡ crc (concat objects))
on_loop_sent_example =
    on_loop_sent crc 9 objects [] service (omega arith) refl refl refl (refl, refl)
      service-IsSendable (omega arith)

abbrev early : Beacon
early = record service { leop = true }
