-- ===== src/Services/Radios/Link.antt =====
-- oresat_c3/services/radios.py: class RadiosService, its downlink over sockets or the S-band radio,
-- and its loop. A method is an action on the service that returns or raises, and that keeps what was
-- written before a raise.
--
-- Times are in ticks of 1/9000 second, so that the time of one S-band frame, 1275 / 675000 seconds,
-- is 17. `ticks` holds how far the clock moves before each coming reading. `open_errors` and
-- `socket_errors` hold whether each coming transfer to the SDR and each coming `sendto` raises; a
-- list that has run out raises no more. An attribute that `__init__` and `on_start` do not set is none.
use oresat_c3_software_esi.Base.{
  ℕ, ℤ, ◌+◌, ◌*◌, ◌/◌, Bool, true, false, Option, none, some, List, [], ◌∷◌, ◌++◌, length, ltb,
  if◌then◌else◌,
}
use oresat_c3_software_esi.Services.Radios.Sband
use oresat_c3_software_esi.Services.Radios.Sband.{SbandRadio, SbandState, Outcome, code}

abbrev pub Message : Type 0
Message = List ℕ

pub record Radios : Type 0 where
  pub sband : Option SbandRadio
  -- `sdr_ctrl` of the object dictionary: `should_enable`, `sband_downlink` and `enable_timeout`
  pub should_enable : Bool
  pub sband_downlink : Bool
  pub enable_timeout : ℕ
  pub timeout_timestamp : Option ℕ
  pub ready_at : ℕ
  pub queue : List Message
  pub lock : Option Bool
  pub send_time : Option ℕ
  pub last_frame : Option ℕ
  -- what went to the SDR and to the two sockets, and what came up, oldest first
  pub to_sdr : List Message
  pub beacons : List Message
  pub edl_responses : List Message
  pub recv_queue : List Message
  pub rssi : ℤ
  pub synth_lock : Bool
  pub synth_relock_count : ℕ
  pub uhf_resets : ℕ
  pub lband_resets : ℕ
  pub clock : ℕ
  pub ticks : List ℕ
  pub open_errors : List Bool
  pub socket_errors : List Bool

-- `AttributeError`, and a wait for a lock that no one else releases
pub data Error : Type 0 where
  attribute_error blocked : Error

pub data Result (A : Type 0) : Type 0 where
  ok : A → Result A
  err : Error → Result A

abbrev pub Action : Type 0 → Type 0
Action A = Radios → Result A × Radios

abbrev pub pure : {A : Type 0} → A → Action A
pure a s = (ok a, s)

abbrev pub after : {A B : Type 0} → (A → Action B) → Result A × Radios → Result B × Radios
after rest (ok value, s) = rest value s
after rest (err raised, s) = (err raised, s)

infixl 5 ◌>>=◌ ◌>>◌
abbrev pub ◌>>=◌ : {A B : Type 0} → Action A → (A → Action B) → Action B
◌>>=◌ first rest s = after rest (first s)

abbrev pub ◌>>◌ : {B : Type 0} → Action (Unit {0}) → Action B → Action B
m >> k = m >>= λ _. k

abbrev pub modify : (Radios → Radios) → Action (Unit {0})
modify f s = (ok tt, f s)

abbrev pub skip : Action (Unit {0})
skip s = (ok tt, s)

-- the value of an attribute
abbrev pub attribute : {A : Type 0} → Option A → Result A
attribute none = err attribute_error
attribute (some a) = ok a

abbrev pub get_lock : Action Bool
get_lock s = (attribute s.lock, s)

abbrev pub get_send_time : Action ℕ
get_send_time s = (attribute s.send_time, s)

abbrev pub get_last_frame : Action ℕ
get_last_frame s = (attribute s.last_frame, s)

abbrev pub get_timeout : Action ℕ
get_timeout s = (attribute s.timeout_timestamp, s)

abbrev pub passed : List ℕ → Radios → ℕ × Radios
passed [] s = (s.clock, s)
passed (tick ∷ ticks) s = (s.clock + tick, record s { clock = s.clock + tick; ticks = ticks })

abbrev pub returning : {A : Type 0} → A × Radios → Result A × Radios
returning (a, s) = (ok a, s)

-- `monotonic()`
abbrev pub monotonic : Action ℕ
monotonic s = returning (passed s.ticks s)

abbrev pub is_empty : List Message → Bool
is_empty [] = true
is_empty (_ ∷ _) = false

-- `_add_sband_time`, the time that it adds: `ceil(msg_len / 1097)` frames, or one
unfoldable pub sband_time : ℕ → ℕ
sband_time msg_len = if ltb msg_len 1097 then 17 else (msg_len + 1096) / 1097 * 17

unfoldable pub add_sband_time : ℕ → Action (Unit {0})
unfolding sband_time
add_sband_time msg_len = do
  send_time ← get_send_time
  modify (λ s. record s { send_time = some (send_time + sband_time msg_len) })

abbrev pub raises : List Bool → Bool
raises [] = false
raises (e ∷ _) = e

abbrev pub later : List Bool → List Bool
later [] = []
later (_ ∷ es) = es

-- the body of the `with` of `_send_on_sband`
unfoldable pub write_frame : Message → Action (Unit {0})
unfolding add_sband_time
write_frame message = do
  modify (λ s. record s { to_sdr = s.to_sdr ++ (message ∷ []) })
  add_sband_time (length message)
  now ← monotonic
  modify (λ s. record s { last_frame = some now })

abbrev pub send_to : Option SbandRadio → Message → Action (Unit {0})
send_to none message s = skip s
send_to (some _) message s =
    let s' = record s { open_errors = later s.open_errors } in
    if raises s.open_errors then (ok tt, s') else write_frame message s'

-- `_send_on_sband`
unfoldable pub send_on_sband : Message → Action (Unit {0})
unfolding write_frame
send_on_sband message s = send_to s.sband message s

-- the loop of `_send_queued`: each frame is taken from the queue before it is sent
unfoldable pub drain : List Message → Action (Unit {0})
unfolding send_on_sband
drain [] = skip
drain (frame ∷ frames) =
    modify (λ s. record s { queue = frames }) >> send_on_sband frame >> drain frames

-- the handler of `_send_queued`
abbrev pub drained : Result (Unit {0}) × Radios → Result (Unit {0}) × Radios
drained (ok _, s) = (ok tt, record s { lock = some false })
drained (err _, s) = (ok tt, record s { lock = some false; queue = [] })

unfoldable pub send_queued : Action (Unit {0})
unfolding drain
send_queued s = drained (drain s.queue (record s { lock = some true }))

-- `while self.sband_lock`
abbrev pub wait_unlocked : Bool → Action (Unit {0})
wait_unlocked true s = (err blocked, s)
wait_unlocked false s = (ok tt, s)

abbrev pub send_pending : Action (Unit {0})
send_pending s = if is_empty s.queue then (ok tt, s) else send_queued s

-- `try_send_sband`, with the link ready
unfoldable pub send_now : Message → Action (Unit {0})
unfolding send_queued send_on_sband
send_now message = do locked ← get_lock; wait_unlocked locked; send_pending; send_on_sband message

unfoldable pub send_at : ℕ → Message → Action (Unit {0})
unfolding send_now
send_at now message s =
    if ltb now s.ready_at
    then (ok tt, record s { queue = s.queue ++ (message ∷ []) })
    else send_now message s

unfoldable pub try_send_sband : Message → Action (Unit {0})
unfolding send_at
try_send_sband message = do now ← monotonic; send_at now message

abbrev pub when_sband :
    {A : Type 0} → (SbandRadio → A × SbandRadio) → A → Option SbandRadio → A × Option SbandRadio
when_sband f otherwise none = (otherwise, none)
when_sband f otherwise (some r) = let (a, r') = f r in (a, some r')

-- a call of a method of the S-band radio, where there is one
abbrev pub call_sband : {A : Type 0} → (SbandRadio → A × SbandRadio) → A → Action A
call_sband f otherwise s =
    let (a, r) = when_sband f otherwise s.sband in (ok a, record s { sband = r })

-- `self.sband.is_rf_ok()`
abbrev pub is_rf_ok : Action Bool
is_rf_ok = call_sband Sband.is_rf_ok false

-- `_downlink_through_sband`
unfoldable pub downlink_through_sband : Action Bool
downlink_through_sband s = if s.sband_downlink then is_rf_ok s else (ok false, s)
