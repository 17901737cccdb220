-- ===== src/Services/Radios/Sband.antt =====
-- oresat_c3/services/radios.py: class SbandRadio. What its calls of the node manager and of the SDR
-- over CAN give is up to them: `node_readings` holds what `node_status("sdr")` will return,
-- `sdo_errors` whether each coming `sdo_write` raises `SdoError`, and `sdr_readings` what each coming
-- `sdo_read` returns, with none for an `SdoError`. A list that has run out reads 0, and raises no more.
use oresat_c3_software_esi.Base.{
  ℕ, ◌+◌, Bool, true, false, Option, none, some, List, [], ◌∷◌, leb, ◌==◌, if◌then◌else◌,
}

-- `_state`: 0, 1, 2, 3, 4 and 255
pub data SbandState : Type 0 where
  off no_heartbeat starting ready stopping error : SbandState

abbrev pub code : SbandState → ℕ
code off = 0
code no_heartbeat = 1
code starting = 2
code ready = 3
code stopping = 4
code error = 255

-- what the radio asks of the node manager and of the SDR
pub data Command : Type 0 where
  node_enable node_disable power_on power_off send_cache : Command

-- How a call ends: `self.status` is no attribute of the class, and `_sdo_fault` is none at first.
pub data Outcome : Type 0 where
  returned attribute_error : Outcome

pub record SbandRadio : Type 0 where
  pub state : SbandState
  -- has `_sdo_fault` been set? `enable` in state 0 and `disable` set it, `__init__` does not.
  pub has_sdo_fault : Bool
  pub sdo_fault : ℕ
  pub od_status : SbandState
  pub rf_reset_count : ℕ
  -- newest first
  pub commands : List Command
  pub node_readings : List ℕ
  pub sdo_errors : List Bool
  pub sdr_readings : List (Option ℕ)

abbrev pub sdo_fault_limit : ℕ
sdo_fault_limit = 5

abbrev pub command : Command → SbandRadio → SbandRadio
command c r = record r { commands = c ∷ r.commands }

-- The handler of `SdoError`, where `_sdo_fault` is set, as it is in the states from 1 on.
abbrev pub count_fault : SbandRadio → SbandRadio
count_fault r = record r {
  sdo_fault = r.sdo_fault + 1;
  state = if leb sdo_fault_limit (r.sdo_fault + 1) then error else r.state;
}

-- what an `sdo_write` makes of the coming errors
abbrev pub written : List Bool → SbandRadio → SbandRadio
written [] r = r
written (false ∷ errors) r = record r { sdo_errors = errors }
written (true ∷ errors) r = count_fault (record r { sdo_errors = errors })

unfoldable pub sdo_write : Command → SbandRadio → SbandRadio
sdo_write c r = written r.sdo_errors (command c r)

unfoldable pub send_start_cmd : SbandRadio → SbandRadio
unfolding sdo_write
send_start_cmd r = sdo_write power_on r

unfoldable pub send_stop_cmd : SbandRadio → SbandRadio
unfolding sdo_write
send_stop_cmd r = sdo_write power_off r

-- An `sdo_write` where `_sdo_fault` is not set: the handler of `SdoError` raises.
abbrev pub uncounted : List Bool → SbandRadio → Outcome × SbandRadio
uncounted [] r = (returned, r)
uncounted (false ∷ errors) r = (returned, record r { sdo_errors = errors })
uncounted (true ∷ errors) r = (attribute_error, record r { sdo_errors = errors })

unfoldable pub send_queued_messages : SbandRadio → Outcome × SbandRadio
unfolding sdo_write
send_queued_messages r =
    if r.has_sdo_fault
    then (returned, sdo_write send_cache r)
    else uncounted r.sdo_errors (command send_cache r)

-- `_node_mgr.node_status("sdr")`
abbrev pub read_node : List ℕ → SbandRadio → ℕ × SbandRadio
read_node [] r = (0, r)
read_node (status ∷ readings) r = (status, record r { node_readings = readings })

abbrev pub read_sdr : List (Option ℕ) → SbandRadio → ℕ × SbandRadio
read_sdr [] r = (0, r)
read_sdr (some val ∷ readings) r = (val, record r { sdr_readings = readings })
read_sdr (none ∷ readings) r = (0, count_fault (record r { sdr_readings = readings }))

-- `_get_sdr_status`
unfoldable pub get_sdr_status : SbandRadio → ℕ × SbandRadio
get_sdr_status r = read_sdr r.sdr_readings r

-- `enable` in state 1, by the status of the node
unfoldable pub on_node_status : ℕ × SbandRadio → Outcome × SbandRadio
unfolding send_start_cmd
on_node_status (node_status, r) =
    if node_status == 2
    then (returned, record (send_start_cmd r) { state = starting })
    else if node_status == 0xFF
    then (attribute_error, record r { state = error })
    else (returned, r)

-- `enable` in state 2, by the status of the SDR
unfoldable pub on_sdr_status : ℕ × SbandRadio → Outcome × SbandRadio
unfolding send_start_cmd
on_sdr_status (val, r) =
    if val == 0
    then (returned, send_start_cmd r)
    else if val == 2
    then (returned, record r { state = ready })
    else if val == 0xFF
    then (attribute_error, record r { state = error })
    else (returned, r)

unfoldable pub enable_from : SbandState → SbandRadio → Outcome × SbandRadio
unfolding on_node_status on_sdr_status get_sdr_status
enable_from off r = (
  returned,
  record (command node_enable r) { state = no_heartbeat; has_sdo_fault = true; sdo_fault = 0 },
)
enable_from no_heartbeat r = on_node_status (read_node r.node_readings r)
enable_from starting r = on_sdr_status (get_sdr_status r)
enable_from ready r = (returned, record r { state = error })
enable_from stopping r = (returned, record r { state = error })
enable_from error r = (returned, record r { state = error })

-- `enable`
unfoldable pub enable : SbandRadio → Outcome × SbandRadio
unfolding enable_from
enable r = enable_from r.state r

unfoldable pub shut_down : SbandRadio → SbandRadio
unfolding send_stop_cmd
shut_down r = command node_disable (send_stop_cmd r)

-- `disable`
unfoldable pub disable : SbandRadio → SbandRadio
unfolding shut_down
disable r =
    record (shut_down (record r { state = stopping; has_sdo_fault = true; sdo_fault = 0 })) {
      state = off;
    }

abbrev pub is_ready : SbandState → Bool
is_ready ready = true
is_ready _ = false

-- `is_rf_ok`
abbrev pub is_rf_ok : SbandRadio → Bool × SbandRadio
is_rf_ok r = (is_ready r.state, record r { od_status = r.state })

abbrev pub rf_reset : SbandRadio → SbandRadio
rf_reset r = record r { rf_reset_count = r.rf_reset_count + 1 }

-- `__init__`
abbrev pub new : List ℕ → List Bool → List (Option ℕ) → SbandRadio
new node_readings sdo_errors sdr_readings = record {
  state = off;
  has_sdo_fault = false;
  sdo_fault = 0;
  od_status = off;
  rf_reset_count = 0;
  commands = [];
  node_readings = node_readings;
  sdo_errors = sdo_errors;
  sdr_readings = sdr_readings;
}
