-- ===== src/Services/Beacon.antt =====
-- oresat_c3/services/beacon.py: the beacon service, on the model of the radios service that sends its
-- frames and of the AX.25 packing. What `_on_sdo_read` and `encode_raw` give for the objects of a
-- beacon is an argument, the bytes of each object; the CRC-32 of zlib is a parameter.
--
-- Times are in ticks of 1/9000 second, as in the radios service, and the timeout of LEOP in
-- milliseconds. `quotient` of a service is `int(duration / send_time)` as the floats give it, by the
-- timeout and the length of the packet.
pub mod Sent
pub mod Leop
mod Tests
use oresat_c3_software_esi.Base.{
  ℕ, zero, suc, ℤ, pos, ◌+◌, ◌*◌, ◌/◌, ◌%◌, Bool, true, false, ◌&&◌, List, [], ◌∷◌, ◌++◌, length,
  ◌==◌, if◌then◌else◌,
}
use oresat_c3_software_esi.Protocols.Ax25
use oresat_c3_software_esi.Protocols.Ax25.{ax25_pack}
use oresat_c3_software_esi.Services.Radios.Link
use oresat_c3_software_esi.Services.Radios.Link.{Radios, Message}
use oresat_c3_software_esi.Services.Radios.Service
use oresat_c3_software_esi.Services.State.{beacon}

pub record Beacon : Type 0 where
  pub radios : Radios
  -- the objects of the dictionary that the service reads
  pub delay : ℕ
  pub leop : Bool
  pub leop_timeout : ℕ
  pub tx_enabled : Bool
  pub c3_state : ℕ
  -- the constants that `on_start` reads
  pub dest_callsign : List ℕ
  pub dest_ssid : ℕ
  pub src_callsign : List ℕ
  pub src_ssid : ℕ
  pub control : ℕ
  pub pid : ℕ
  pub command : Bool
  pub response : Bool
  -- `int(duration / send_time)` in `send_leop`
  pub quotient : ℕ → ℕ → ℕ
  -- `_ts`
  pub ts : ℕ

pub data Error : Type 0 where
  ax25_error radios_error : Error

pub data Result : Type 0 where
  ok : Result
  err : Error → Result

abbrev pub concat : List (List ℕ) → List ℕ
concat [] = []
concat (bytes ∷ rest) = bytes ++ concat rest

-- `to_bytes(4, "little")` of a number below 2 ^ 32
unfoldable pub le_bytes : ℕ → List ℕ
le_bytes n = n % 0x100 ∷ n / 0x100 % 0x100 ∷ n / 0x1_0000 % 0x100 ∷ n / 0x100_0000 % 0x100 ∷ []

abbrev pub packed : Beacon → List ℕ → Ax25.Result (List ℕ)
packed b payload =
    ax25_pack b.dest_callsign (pos b.dest_ssid) b.src_callsign (pos b.src_ssid) (pos b.control)
      (pos b.pid) b.command b.response payload

-- what a call of `send_beacon` of the radios leaves
abbrev pub after_radios : Beacon → Link.Result (Unit {0}) × Radios → Result × Beacon
after_radios b (Link.ok _, r) = (ok, record b { radios = r })
after_radios b (Link.err _, r) = (err radios_error, record b { radios = r })

abbrev pub transmit : Message → Beacon → Result × Beacon
transmit packet b = after_radios b (Service.send_beacon packet b.radios)

-- the clock of the service, `time()`
abbrev pub stamp : ℕ → Beacon → Beacon
stamp now b = record b { ts = now }

abbrev pub send_packed : ℕ → Ax25.Result (List ℕ) → Beacon → Result × Beacon
send_packed now (Ax25.ok packet) b = transmit packet (stamp now b)
send_packed now (Ax25.err _) b = (err ax25_error, b)

-- `int(duration / send_time) + 1`, with `send_time = (len(packet) + 200) / 45000.0 * 8` in seconds
unfoldable pub send_attempts : (ℕ → ℕ → ℕ) → ℕ → ℕ → ℕ
send_attempts quotient leop_timeout len = quotient leop_timeout len + 1

abbrev pub then_send : (Beacon → Result × Beacon) → Result × Beacon → Result × Beacon
then_send next (ok, b) = next b
then_send next (err e, b) = (err e, b)

-- the loop of `send_leop`
unfoldable pub transmit_all : ℕ → Message → Beacon → Result × Beacon
transmit_all zero packet b = (ok, b)
transmit_all (suc attempts) packet b = then_send (transmit_all attempts packet) (transmit packet b)

abbrev pub leop_packed : ℕ → Ax25.Result (List ℕ) → Beacon → Result × Beacon
leop_packed now (Ax25.ok packet) b =
    transmit_all (send_attempts b.quotient b.leop_timeout (length packet)) packet (stamp now b)
leop_packed now (Ax25.err _) b = (err ax25_error, b)

module _ (crc32 : List ℕ → ℕ) where
  -- the bytes of the objects and their checksum
  unfoldable pub payload_of : List (List ℕ) → List ℕ
  unfolding le_bytes
  payload_of objects = concat objects ++ le_bytes (crc32 (concat objects))

  unfoldable pub send : ℕ → List (List ℕ) → Beacon → Result × Beacon
  unfolding payload_of
  send now objects b = send_packed now (packed b (payload_of objects)) b

  unfoldable pub send_leop : ℕ → List (List ℕ) → Beacon → Result × Beacon
  unfolding payload_of transmit_all
  send_leop now objects b = leop_packed now (packed b (payload_of objects)) b

  -- `send_leop` or `send`; the two kinds of beacon have their own objects
  unfoldable pub send_either : ℕ → List (List ℕ) → List (List ℕ) → Beacon → Result × Beacon
  unfolding send send_leop
  send_either now objects leop_objects b =
      if b.leop then send_leop now leop_objects b else send now objects b

  unfoldable pub on_loop : ℕ → List (List ℕ) → List (List ℕ) → Beacon → Result × Beacon
  unfolding send_either
  on_loop now objects leop_objects b =
      if b.delay == 0
      then (ok, b)
      else if b.tx_enabled && b.c3_state == beacon
      then send_either now objects leop_objects b
      else (ok, b)

  -- `_on_write_send_now`
  unfoldable pub write_send_now :
      Bool → ℕ → List (List ℕ) → List (List ℕ) → Beacon → Result × Beacon
  unfolding send_either
  write_send_now value now objects leop_objects b =
      if value then send_either now objects leop_objects b else (ok, b)
