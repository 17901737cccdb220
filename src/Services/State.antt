-- ===== src/Services/State.antt =====
-- oresat_c3/services/state.py: the main state machine, with oresat_c3/__init__.py's `C3State`.
--
-- `time()` and `monotonic()` are read in milliseconds; the timeouts of the object dictionary are
-- whole seconds, as are the timestamps that `int(time())` stores. A comparison of a difference with
-- a timeout is written with the subtraction moved to the other side, which is the same for all
-- values. What a pass of the loop finds around it is an `Env`; what it does to the outside is
-- appended to `effects`, the newest first.
pub mod Rules
pub mod Diagram
pub mod Fram
pub mod Deploy
pub mod Transmit
mod Tests
use oresat_c3_software_esi.Base.{
  ℕ, suc, ◌+◌, ◌*◌, ◌/◌, ◌%◌, Bool, true, false, not, ◌&&◌, ◌||◌, List, [], ◌∷◌, ltb, ◌==◌,
  if◌then◌else◌,
}

-- `ord("A")` to `ord("F")`: the values of the status object.
abbrev pub offline : ℕ
offline = 65

abbrev pub pre_deploy : ℕ
pre_deploy = 66

abbrev pub deploy : ℕ
deploy = 67

abbrev pub standby : ℕ
standby = 68

abbrev pub beacon : ℕ
beacon = 69

abbrev pub edl : ℕ
edl = 70

-- `value in list(C3State)`; `C3State(value)` raises `ValueError` for any other
abbrev pub is_state : ℕ → Bool
is_state v =
    v == offline || v == pre_deploy || v == deploy || v == standby || v == beacon || v == edl

pub data Effect : Type 0 where
  deploy_antennas : ℕ → ℕ → Effect
  stop_watchdog hard_reset store : Effect

pub record StateService : Type 0 where
  pub status : ℕ
  pub last_state : ℕ
  pub attempts : ℕ
  pub loops : ℕ
  pub last_antennas_deploy : ℕ
  pub start_time : ℕ
  pub reset_timeout : ℕ
  pub attempts_obj : ℕ
  pub deployed : Bool
  pub pre_deploy_timeout : ℕ
  pub ant_attempt_timeout : ℕ
  pub ant_attempt_between_timeout : ℕ
  pub ant_reattempt_timeout : ℕ
  pub tx_timeout : ℕ
  pub tx_enable : Bool
  pub last_tx_enable : ℕ
  pub last_edl : ℕ
  pub edl_timeout : ℕ
  pub control_mode : ℕ
  pub flight_mode : Bool
  pub effects : List Effect

-- `time` is read where a pass begins, `time_then` and `mono` in the method of the state, and
-- `mono_after` after the antennas were fired.
pub record Env : Type 0 where
  pub time : ℕ
  pub time_then : ℕ
  pub mono : ℕ
  pub mono_after : ℕ
  pub is_root : Bool
  pub is_updating : Bool
  pub watchdog_stops : Bool

-- `has_tx_timed_out`
abbrev pub has_tx_timed_out : ℕ → StateService → Bool
has_tx_timed_out time s = ltb ((s.last_tx_enable + s.tx_timeout) * 1000) time

-- `has_edl_timed_out`, which is true while the last EDL packet is recent
abbrev pub has_edl_timed_out : ℕ → StateService → Bool
has_edl_timed_out time s = ltb time ((s.last_edl + s.edl_timeout) * 1000)

-- `is_bat_lvl_good`
abbrev pub is_bat_lvl_good : Bool
is_bat_lvl_good = true

abbrev pub has_reset_timed_out : Env → StateService → Bool
has_reset_timed_out env s =
    if not env.is_root || not s.flight_mode
    then false
    else ltb (s.start_time + s.reset_timeout * 1000) env.mono

abbrev act : Effect → StateService → StateService
act e s = record s { effects = e ∷ s.effects }

-- `_reset`
pub system_reset : Env → StateService → StateService
system_reset env s =
    if env.is_updating
    then s
    else if env.watchdog_stops
    then act stop_watchdog s
    else act hard_reset (act stop_watchdog s)

-- `_pre_deploy`
pub on_pre_deploy : Env → StateService → StateService
on_pre_deploy env s =
    if ltb env.mono (s.start_time + s.pre_deploy_timeout * 1000)
    then (if s.tx_enable
        then s
        else record s { tx_enable = true; last_tx_enable = env.time_then / 1000 })
    else record s { status = deploy }

-- `_deploy`
pub on_deploy : Env → StateService → StateService
on_deploy env s =
    let fired = act (deploy_antennas s.ant_attempt_timeout s.ant_attempt_between_timeout) s in
    if not s.deployed && ltb s.attempts s.attempts_obj
    then (if ltb (s.last_antennas_deploy + s.ant_reattempt_timeout * 1000) env.mono
          && is_bat_lvl_good
        then record fired { last_antennas_deploy = env.mono_after; attempts = suc s.attempts }
        else s)
    else record s { control_mode = 3; status = standby; deployed = true; attempts = 0 }

-- `_standby`
pub on_standby : Env → StateService → StateService
on_standby env s =
    if has_edl_timed_out env.time_then s
    then record s { status = edl }
    else if has_reset_timed_out env s
    then system_reset env s
    else if not (has_tx_timed_out env.time_then s) && is_bat_lvl_good
    then record s { status = beacon }
    else s

-- `_beacon`
pub on_beacon : Env → StateService → StateService
on_beacon env s =
    if has_edl_timed_out env.time_then s
    then record s { status = edl }
    else if has_reset_timed_out env s
    then system_reset env s
    else if has_tx_timed_out env.time_then s || not is_bat_lvl_good
    then record s { status = standby }
    else s

-- `_edl`
pub on_edl : Env → StateService → StateService
on_edl env s =
    if has_edl_timed_out env.time_then s
    then s
    else if not (has_tx_timed_out env.time_then s) && is_bat_lvl_good
    then record s { status = beacon }
    else record s { status = standby }

-- `store_state`: nothing is stored in PRE_DEPLOY
pub store_state : StateService → StateService
store_state s = if s.status == pre_deploy then s else act store s

-- the end of `on_loop`, after the method of the state: the state is stored in every tenth pass
pub finish_pass : StateService → StateService
finish_pass s =
    let s' = record s { last_state = s.status; loops = (s.loops + 1) % 10 } in
    if s'.loops == 0 then store_state s' else s'

-- `on_loop` once the transmitter's timeout was looked at: the method of the state
unfoldable pub dispatch : Env → StateService → StateService
dispatch env s =
    if s.status == pre_deploy
    then finish_pass (on_pre_deploy env s)
    else if s.status == deploy
    then finish_pass (on_deploy env s)
    else if s.status == standby
    then finish_pass (on_standby env s)
    else if s.status == beacon
    then finish_pass (on_beacon env s)
    else if s.status == edl
    then finish_pass (on_edl env s)
    else record s { status = pre_deploy; last_state = pre_deploy }

-- the first lines of `on_loop`
abbrev pub check_tx : Env → StateService → StateService
check_tx env s =
    if has_tx_timed_out env.time s && s.tx_enable then record s { tx_enable = false } else s

-- How a pass ended: the message about a change of state names both states, and `C3State` raises
-- `ValueError` for a value that is none.
pub data Outcome : Type 0 where
  ok value_error : Outcome

abbrev pub raises_value_error : StateService → Bool
raises_value_error s =
    not (s.status == s.last_state) && not (is_state s.last_state && is_state s.status)

unfoldable pub on_loop : Env → StateService → Outcome × StateService
on_loop env s =
    let s' = check_tx env s in
    if raises_value_error s' then (value_error, s') else (ok, dispatch env s')

-- `on_start`, once the state was restored
unfoldable pub on_start : Env → StateService → StateService
on_start env s =
    let s1 = if s.tx_enable then s else record s { last_tx_enable = 0 } in
    let s2 = if s1.status == edl then record s1 { status = standby } else s1 in
    let s3 = if is_state s2.status then s2 else record s2 { status = pre_deploy } in
    record s3 { last_state = s3.status; start_time = env.mono }

-- `_on_write_tx_enable`
unfoldable pub write_tx_enable : Env → Bool → StateService → StateService
write_tx_enable env enable s = record s {
  tx_enable = enable;
  last_tx_enable = if enable then env.time / 1000 else 0;
}

-- The passes of a run, one for each environment; a pass that raises is followed by the next.
pub run : List Env → StateService → StateService
run [] s = s
run (env ∷ envs) s = run envs (on_loop env s).1
