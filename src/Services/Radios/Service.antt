-- ===== src/Services/Radios/Service.antt =====
-- oresat_c3/services/radios.py: class RadiosService, how it sends and its loop.
use oresat_c3_software_esi.Base.{
  ℕ, ℤ, pos, negsuc, ◌+◌, ◌-◌, ◌*◌, Bool, true, false, not, ◌&&◌, ◌||◌, Option, none, some, List,
  [], ◌∷◌, ◌++◌, length, ltb, ◌==◌, if◌then◌else◌,
}
use oresat_c3_software_esi.Services.Radios.Link
use oresat_c3_software_esi.Services.Radios.Link.{
  Radios, Message, Action, Result, ok, err, attribute_error, ◌>>=◌, ◌>>◌, pure, skip, modify,
  monotonic, get_timeout, get_lock, get_send_time, get_last_frame, is_empty, raises, later,
  call_sband, is_rf_ok, returning,
}
use oresat_c3_software_esi.Services.Radios.Sband
use oresat_c3_software_esi.Services.Radios.Sband.{
  SbandRadio, SbandState, off, code, Outcome, returned,
}

-- the socket of `send_edl_response`, an exception is logged
unfoldable pub socket_edl : Message → Action (Unit {0})
socket_edl message s =
    let s' = record s { socket_errors = later s.socket_errors } in
    if raises s.socket_errors
    then (ok tt, s')
    else (ok tt, record s' { edl_responses = s.edl_responses ++ (message ∷ []) })

unfoldable pub socket_beacon : Message → Action (Unit {0})
socket_beacon message s =
    let s' = record s { socket_errors = later s.socket_errors } in
    if raises s.socket_errors
    then (ok tt, s')
    else (ok tt, record s' { beacons = s.beacons ++ (message ∷ []) })

abbrev pub edl_route : Message → Bool → Action (Unit {0})
edl_route message true = Link.try_send_sband message
edl_route message false = socket_edl message

abbrev pub beacon_route : Message → Bool → Action (Unit {0})
beacon_route message true = Link.try_send_sband message
beacon_route message false = socket_beacon message

unfoldable pub send_edl_response : Message → Action (Unit {0})
unfolding socket_edl
send_edl_response message = do through ← Link.downlink_through_sband; edl_route message through

unfoldable pub send_beacon : Message → Action (Unit {0})
unfolding socket_beacon
send_beacon message = do through ← Link.downlink_through_sband; beacon_route message through

-- a call of `enable`, which may raise
abbrev pub outcome : Outcome → Action (Unit {0})
outcome returned s = (ok tt, s)
outcome Outcome.attribute_error s = (err attribute_error, s)

unfoldable pub enable_sband : Action (Unit {0})
enable_sband = do o ← call_sband Sband.enable returned; outcome o

unfoldable pub disable_sband : Action (Unit {0})
disable_sband = call_sband (λ r. (tt, Sband.disable r)) tt

abbrev pub ticks_per_second : ℕ
ticks_per_second = 9000

abbrev pub has_sband : Radios → Bool
has_sband s = elim s.sband [ none ↦ false | some _ ↦ true ]

abbrev pub start_timeout_at : ℕ → Action (Unit {0})
start_timeout_at now s =
    (ok tt, record s { timeout_timestamp = some (now + s.enable_timeout * ticks_per_second) })

-- `self._sband_timeout_timestamp = monotonic() + self._sband_timeout.value`
abbrev pub start_timeout : Action (Unit {0})
start_timeout = do now ← monotonic; start_timeout_at now

-- `_sband_should_enable_cb(True)`, with an S-band radio
unfoldable pub cb_on : Action (Unit {0})
unfolding enable_sband
cb_on = do enable_sband; start_timeout

abbrev pub clear_timeout : Action (Unit {0})
clear_timeout s = (ok tt, record s { timeout_timestamp = some 0 })

unfoldable pub cb_off : Action (Unit {0})
unfolding disable_sband
cb_off = disable_sband >> clear_timeout

abbrev pub cb : Bool → Action (Unit {0})
cb true = cb_on
cb false = cb_off

-- `_sband_should_enable_cb`
unfoldable pub should_enable_cb : Bool → Action (Unit {0})
unfolding cb_on cb_off
should_enable_cb value s = if has_sband s then cb value s else (ok tt, s)

-- `self._sband_enable.value = False; self._sband_should_enable_cb(False)`
unfoldable pub give_up : Action (Unit {0})
unfolding should_enable_cb
give_up = modify (λ s. record s { should_enable = false }) >> should_enable_cb false

-- `force_sband_send`
unfoldable pub force_sband_send : Action (Unit {0})
force_sband_send = do
  ended ← call_sband Sband.send_queued_messages returned
  outcome ended
  now ← monotonic
  send_time ← get_send_time
  modify (λ s. record s { ready_at = now + send_time; send_time = some 0 })

abbrev pub force_if : Bool → Action (Unit {0})
force_if true = force_sband_send
force_if false = skip

-- the second test of the last `if` of `_handle_sband`
abbrev pub force_recent : Bool → Action (Unit {0})
force_recent true = do
  last ← get_last_frame
  now ← monotonic
  force_if (ltb now (last + ticks_per_second))
force_recent false = skip

unfoldable pub maybe_force : Action (Unit {0})
unfolding force_sband_send
maybe_force = do send_time ← get_send_time; force_recent (ltb 0 send_time)

abbrev pub send_unless : Bool → Action (Unit {0})
send_unless true = skip
send_unless false = Link.send_queued

-- `not self.sband_queue.empty() and not self.sband_lock`
abbrev pub send_when : Bool → Action (Unit {0})
send_when true s =
    if is_empty s.queue then (ok tt, s) else (do locked ← get_lock; send_unless locked) s
send_when false s = (ok tt, s)

abbrev pub send_after : ℕ → Action (Unit {0})
send_after now s = send_when (ltb s.ready_at now) s

unfoldable pub maybe_send_queued : Action (Unit {0})
maybe_send_queued = do now ← monotonic; send_after now

abbrev pub timeout_by : Bool → Action (Unit {0})
timeout_by true = give_up
timeout_by false = maybe_send_queued >> maybe_force

abbrev pub timeout_at : ℕ → Action (Unit {0})
timeout_at timestamp = do now ← monotonic; timeout_by (ltb timestamp now)

-- `_handle_sband` from the test of the timeout on
unfoldable pub check_timeout : Action (Unit {0})
unfolding give_up maybe_send_queued maybe_force
check_timeout = do timestamp ← get_timeout; timeout_at timestamp

abbrev pub state_code : Radios → ℕ
state_code s = elim s.sband [ none ↦ 0 | some r ↦ code r.state ]

abbrev pub revive_by : Bool → Action (Unit {0})
revive_by true = give_up
revive_by false = enable_sband >> check_timeout

-- `_handle_sband` where the S-band is to be enabled
abbrev pub handle_by_ok : Bool → Action (Unit {0})
handle_by_ok true s = check_timeout s
handle_by_ok false s = revive_by (state_code s == 0xFF) s

abbrev pub handle_by : Bool → Action (Unit {0})
handle_by true s = (do rf_ok ← is_rf_ok; handle_by_ok rf_ok) s
handle_by false s = if state_code s == 0 then check_timeout s else give_up s

-- `_handle_sband`
unfoldable pub handle_sband : Action (Unit {0})
unfolding check_timeout
handle_sband s = if has_sband s then handle_by s.should_enable s else (ok tt, s)

-- What the hardware and the sockets give one round of `on_loop`. An empty `uplink` is a timeout, no
-- `rssi` an `OSError`.
pub record Inputs : Type 0 where
  pub uhf_ok : Bool
  pub lband_ok : Bool
  pub uplink : Message
  pub rssi : Option Message

-- `struct.unpack('b', payload)`, where the payload is one byte
abbrev pub signed_byte : ℕ → ℤ
signed_byte b = if ltb b 0x80 then pos b else negsuc (0xFF - b)

abbrev pub read_rssi : Option Message → Radios → Radios
read_rssi none s = s
read_rssi (some []) s = s
read_rssi (some (b ∷ [])) s = record s { rssi = signed_byte b }
read_rssi (some (_ ∷ _ ∷ _)) s = s

-- the health of the two radios
unfoldable pub check_health : Inputs → Radios → Radios
check_health i s = record s {
  uhf_resets = if i.uhf_ok then s.uhf_resets else s.uhf_resets + 1;
  synth_lock = i.lband_ok;
  lband_resets = if i.lband_ok then s.lband_resets else s.lband_resets + 1;
  synth_relock_count = if i.lband_ok then s.synth_relock_count else s.lband_resets + 1;
}

abbrev pub wants_sband : Radios → Bool
wants_sband s = has_sband s && (s.should_enable || not (state_code s == 0))

abbrev pub handle_if : Bool → Action (Unit {0})
handle_if true = handle_sband
handle_if false = skip

unfoldable pub receive : Inputs → Radios → Radios
receive i s = read_rssi i.rssi (record s {
  recv_queue = if length i.uplink == 0 then s.recv_queue else s.recv_queue ++ (i.uplink ∷ []);
})

-- `on_loop`
unfoldable pub on_loop : Inputs → Action (Unit {0})
unfolding check_health receive handle_sband
on_loop i = modify (check_health i) >> (λ s. handle_if (wants_sband s) s) >> modify (receive i)

-- What reaches the service, in any order: its loop, the two senders, and writes to `sdr_ctrl`.
pub data Event : Type 0 where
  loop : Inputs → Event
  beacon response : Message → Event
  write_enable write_downlink callback : Bool → Event

unfoldable pub handle : Event → Radios → Radios
unfolding on_loop send_beacon send_edl_response should_enable_cb
handle (loop i) s = (on_loop i s).1
handle (beacon message) s = (send_beacon message s).1
handle (response message) s = (send_edl_response message s).1
handle (write_enable value) s = record s { should_enable = value }
handle (write_downlink value) s = record s { sband_downlink = value }
handle (callback value) s = (should_enable_cb value s).1

unfoldable pub run : List Event → Radios → Radios
run [] s = s
run (e ∷ es) s = run es (handle e s)

-- `__init__` and `on_start`; the two `rf_reset_count`s start at 0.
abbrev pub new : Option SbandRadio → Bool → Bool → ℕ → ℕ → List ℕ → List Bool → List Bool → Radios
new sband should_enable sband_downlink enable_timeout clock ticks open_errors socket_errors =
    record {
      sband = sband;
      should_enable = should_enable;
      sband_downlink = sband_downlink;
      enable_timeout = enable_timeout;
      timeout_timestamp = none;
      ready_at = clock;
      queue = [];
      lock = none;
      send_time = none;
      last_frame = none;
      to_sdr = [];
      beacons = [];
      edl_responses = [];
      recv_queue = [];
      rssi = pos 0;
      synth_lock = false;
      synth_relock_count = 0;
      uhf_resets = 0;
      lband_resets = 0;
      clock = clock;
      ticks = ticks;
      open_errors = open_errors;
      socket_errors = socket_errors;
    }
