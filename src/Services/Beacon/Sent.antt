-- ===== src/Services/Beacon/Sent.antt =====
-- oresat_c3/services/beacon.py: the frame of a beacon, as a receiver takes it apart.
use oresat_c3_software_esi.Base.{
  ℕ, ◌+◌, ◌*◌, ◌^◌, ◌≤◌, ◌<◌, ◌≡◌, ◌≢◌, ap, ◌∙◌, true, false, List, [], ◌∷◌, ◌++◌, length, drop,
  take, drop-append, take-append, if◌then◌else◌, arith,
}
use oresat_c3_software_esi.Protocols.Ax25
use oresat_c3_software_esi.Protocols.Ax25.{Ax25, ax25_unpack, is_ascii, rstrip}
use oresat_c3_software_esi.Protocols.Ax25.RoundTrip.{ax25_unpack-ax25_pack}
use oresat_c3_software_esi.Services.Beacon
use oresat_c3_software_esi.Services.Beacon.{
  Beacon, Result, ok, concat, le_bytes, payload_of, packed, transmit, stamp, send_packed,
}
use oresat_c3_software_esi.Services.Radios.Link
use oresat_c3_software_esi.Services.Radios.Link.{Radios, Message}
use oresat_c3_software_esi.Services.Radios.Service
use oresat_c3_software_esi.Services.State.{beacon}

-- Constants and a payload that AX.25 can carry.
pub record IsSendable (b : Beacon) (payload : List ℕ) : Type 0 where
  pub dest_ascii : is_ascii b.dest_callsign ≡ true
  pub dest_short : length b.dest_callsign ≤ 6
  pub src_ascii : is_ascii b.src_callsign ≡ true
  pub src_short : length b.src_callsign ≤ 6
  pub dest_ssid_fits : b.dest_ssid ≤ 15
  pub src_ssid_fits : b.src_ssid ≤ 15
  pub control_byte : b.control ≤ 0xFF
  pub pid_byte : b.pid ≤ 0xFF
  pub payload_fits : length payload ≤ 1024

-- The downlink is over the socket, and no `sendto` raises.
abbrev pub OverSocket : Radios → Type 0
OverSocket r = (r.sband_downlink ≡ false) × (r.socket_errors ≡ [])

abbrev pub sent : Message → Radios → Radios
sent m r = record r { beacons = r.beacons ++ (m ∷ []); socket_errors = Link.later r.socket_errors }

pub send_beacon-sent :
    (m : Message) (r : Radios) → OverSocket r → Service.send_beacon m r ≡ (Link.ok tt, sent m r)
unfolding Service.send_beacon Link.downlink_through_sband Service.socket_beacon
send_beacon-sent m r (down, quiet) =
    ap
      (λ w. Link.after (Service.beacon_route m) (if w then Link.is_rf_ok r else (Link.ok false, r)))
      down
    ∙ ap
        (λ e.
          if Link.raises e
          then (Link.ok tt, record r { socket_errors = Link.later r.socket_errors })
          else (Link.ok tt, sent m r))
        quiet

-- What a receiver makes of a frame: the sender's fields, and the payload.
abbrev pub received : Beacon → List ℕ → Ax25
received b payload = record {
  dest_callsign = rstrip b.dest_callsign;
  dest_ssid = b.dest_ssid;
  src_callsign = rstrip b.src_callsign;
  src_ssid = b.src_ssid;
  control = b.control;
  pid = b.pid;
  command = b.command;
  response = b.response;
  payload = payload;
}

pub record Framed (b : Beacon) (payload : List ℕ) : Type 0 where
  pub frame : List ℕ
  pub packs : packed b payload ≡ Ax25.ok frame
  pub unpacks : ax25_unpack frame ≡ Ax25.ok (received b payload)
  pub frame_length : length frame ≡ 16 + length payload

pub packed-Framed : (b : Beacon) (payload : List ℕ) → IsSendable b payload → Framed b payload
packed-Framed b payload s =
    let (frame, packs, size, unpacks) =
      ax25_unpack-ax25_pack b.dest_callsign b.src_callsign payload b.dest_ssid b.src_ssid b.control
        b.pid b.command b.response s.dest_ascii s.dest_short s.src_ascii s.src_short
        s.dest_ssid_fits s.src_ssid_fits s.control_byte s.pid_byte s.payload_fits in
    record { frame = frame; packs = packs; unpacks = unpacks; frame_length = size }

-- the number that four bytes stand for, the lowest first
abbrev pub from_le : List ℕ → ℕ
from_le [] = 0
from_le (x ∷ xs) = x + 0x100 * from_le xs

from_le-le_bytes : (n : ℕ) → n < 2 ^ 32 → from_le (le_bytes n) ≡ n
unfolding le_bytes
from_le-le_bytes n h = omega arith

module _ (crc32 : List ℕ → ℕ) where
  -- The bytes of the objects come first in the payload, and what follows them is their checksum.
  pub payload_parts :
      (objects : List (List ℕ))
      → crc32 (concat objects) < 2 ^ 32
      → let payload = payload_of crc32 objects in
        (take (length (concat objects)) payload ≡ concat objects)
        × (from_le (drop (length (concat objects)) payload) ≡ crc32 (concat objects))
  unfolding payload_of
  payload_parts objects h = (
    take-append (concat objects) (le_bytes (crc32 (concat objects))),
    ap from_le (drop-append (concat objects) (le_bytes (crc32 (concat objects))))
        ∙ from_le-le_bytes _ h,
  )

  pub on_loop_send :
      (now : ℕ) (objects leop_objects : List (List ℕ)) (b : Beacon)
      → b.delay ≢ 0
      → b.tx_enabled ≡ true
      → b.c3_state ≡ beacon
      → Beacon.on_loop crc32 now objects leop_objects b
        ≡ Beacon.send_either crc32 now objects leop_objects b
  unfolding Beacon.on_loop
  on_loop_send now objects leop_objects b d t e = ground arith

  -- In BEACON with the transmitter enabled and a delay, outside of LEOP, with the downlink over a socket
  -- that takes it: a round returns, notes the time, and sends exactly one frame. It unpacks to the
  -- callsigns, the SSIDs and the other constants, and its payload is the bytes of the objects followed by
  -- their CRC-32, the lowest byte first.
  pub on_loop_sent :
      (now : ℕ) (objects leop_objects : List (List ℕ)) (b : Beacon)
      → b.delay ≢ 0
      → b.tx_enabled ≡ true
      → b.c3_state ≡ beacon
      → b.leop ≡ false
      → OverSocket b.radios
      → IsSendable b (payload_of crc32 objects)
      → crc32 (concat objects) < 2 ^ 32
      → let payload = payload_of crc32 objects in
        (frame : List ℕ) × (Beacon.on_loop crc32 now objects leop_objects b
          ≡ (ok, record b { ts = now; radios = sent frame b.radios }))
        × (ax25_unpack frame ≡ Ax25.ok (received b payload))
        × (take (length (concat objects)) payload ≡ concat objects)
        × (from_le (drop (length (concat objects)) payload) ≡ crc32 (concat objects))
  unfolding Beacon.send_either Beacon.send
  on_loop_sent now objects leop_objects b d t e l over s c =
      let payload = payload_of crc32 objects in
      let f = packed-Framed b payload s in
      let parts = payload_parts objects c in
      (
        f.frame,
        on_loop_send now objects leop_objects b d t e
            ∙ ap
                (λ w.
                  if w
                  then Beacon.send_leop crc32 now leop_objects b
                  else Beacon.send crc32 now objects b)
                l
            ∙ ap (λ p. send_packed now p b) f.packs
            ∙ ap (Beacon.after_radios (stamp now b)) (send_beacon-sent f.frame b.radios over),
        f.unpacks,
        parts.0,
        parts.1,
      )
