-- ===== src/Services/Payload/Osiris.antt =====
-- oresat_c3/services/payload.py: class OsirisHandler. `node_readings` holds what `node_status` will
-- return for the science card and `scp_errors` whether each coming `subprocess.run` raises; a list that
-- has run out reads 0, and raises no more.
use oresat_c3_software_esi.Base.{
  ℕ, zero, suc, ◌-◌, Bool, true, false, not, ◌&&◌, List, [], ◌∷◌, ltb, ◌==◌, if◌then◌else◌,
}
use oresat_c3_software_esi.Services.Payload.PiPlasma.{NodeCall, disable, head_or_zero, tail}

pub record Osiris : Type 0 where
  pub state : ℕ
  pub last_state_val : ℕ
  pub timeout : ℕ
  -- the name of a file to send, none if empty
  pub file_register : List ℕ
  pub pwr_event : Bool
  pub mock : Bool
  pub node_readings : List ℕ
  pub scp_errors : List Bool
  -- newest first
  pub node_calls : List NodeCall
  pub sent : List (List ℕ)

-- `TypeError` of a call with a missing argument, and what `subprocess.run` raises
pub data Outcome : Type 0 where
  returned type_error scp_error : Outcome

-- `__init__`
abbrev pub new : ℕ → List ℕ → Bool → Bool → List ℕ → List Bool → Osiris
new state file_register pwr_event mock node_readings scp_errors = record {
  state = if ltb 1 state then 1 else state;
  last_state_val = 0;
  timeout = 0;
  file_register = file_register;
  pwr_event = pwr_event;
  mock = mock;
  node_readings = node_readings;
  scp_errors = scp_errors;
  node_calls = [];
  sent = [];
}

abbrev pub disable_card : Osiris → Osiris
disable_card o = record o { node_calls = disable ∷ o.node_calls }

abbrev pub node_status : Osiris → ℕ × Osiris
node_status o = (head_or_zero o.node_readings, record o { node_readings = tail o.node_readings })

-- `_idle`, which reads the status again if it is not 1
unfoldable pub idle : Osiris → Osiris
idle o =
    let (first, o1) = node_status o in
    let (second, o2) = node_status o1 in
    if first == 1 then disable_card o1 else if second == 2 then disable_card o2 else o2

-- the readings after the loop of `_startup`, which ends with the first that is not 1
abbrev pub past_boot : List ℕ → List ℕ
past_boot [] = []
past_boot (x ∷ xs) = let rest = past_boot xs in if x == 1 then rest else xs

unfoldable pub startup : Osiris → Osiris
startup o =
    let (first, o1) = node_status (record o { node_readings = past_boot o.node_readings }) in
    let (second, o2) = node_status o1 in
    if first == 0xFF
    then record o1 { state = 0xFF }
    else if second == 2
    then record o2 { state = 2 }
    else o2

-- `_bootup`: `_get_bootstate` is called without the argument that it takes
unfoldable pub bootup : Osiris → Outcome × Osiris
bootup o =
    if ltb 0 o.timeout then (returned, record o { timeout = o.timeout - 1 }) else (type_error, o)

abbrev pub head_or_false : List Bool → Bool
head_or_false [] = false
head_or_false (e ∷ _) = e

abbrev pub later : List Bool → List Bool
later [] = []
later (_ ∷ es) = es

abbrev pub is_empty : List ℕ → Bool
is_empty [] = true
is_empty (_ ∷ _) = false

-- `_send_file`, and the register cleared
unfoldable pub send_file : Osiris → Outcome × Osiris
send_file o =
    let o' = record o { scp_errors = later o.scp_errors } in
    if head_or_false o.scp_errors
    then (scp_error, o')
    else (returned, record o' { sent = o.file_register ∷ o.sent; file_register = [] })

abbrev pub then_save : Outcome × Osiris → Outcome × Osiris
then_save (returned, o) = (returned, if o.pwr_event then idle (record o { state = 5 }) else o)
then_save (raised, o) = (raised, o)

unfoldable pub active : Osiris → Outcome × Osiris
unfolding send_file idle
active o = then_save (if is_empty o.file_register then (returned, o) else send_file o)

unfoldable pub shut_down : Osiris → Osiris
shut_down o = record (disable_card o) { state = 0 }

unfoldable pub powersave : Osiris → Osiris
powersave o = let o' = disable_card o in record o' { state = if o.pwr_event then o.state else 1 }

-- the state that `loop` acts on
abbrev pub acted : Osiris → ℕ
acted o = if o.state == 0 && not (o.last_state_val == 0) then 4 else o.state

unfoldable pub by_state : ℕ → Osiris → Outcome × Osiris
unfolding idle startup bootup active shut_down powersave
by_state state_val o =
    if state_val == 0
    then (returned, idle o)
    else if state_val == 1
    then (returned, startup o)
    else if state_val == 2
    then bootup o
    else if state_val == 3
    then active o
    else if state_val == 4
    then (returned, shut_down o)
    else if state_val == 5
    then (returned, powersave o)
    else (returned, o)

-- A raise leaves `_last_state_val`.
abbrev pub ended : ℕ → Outcome × Osiris → Outcome × Osiris
ended state_val (returned, o) = (returned, record o { last_state_val = state_val })
ended state_val (raised, o) = (raised, o)

-- `loop`
unfoldable pub loop : Osiris → Outcome × Osiris
unfolding by_state
loop o = if o.mock then (returned, o) else ended (acted o) (by_state (acted o) o)

unfoldable pub run : ℕ → Osiris → Osiris
run zero o = o
run (suc n) o = run n (loop o).1
