-- ===== src/Services/Edl/Commands.antt =====
-- oresat_c3/services/edl.py: `_run_cmd`.
use oresat_c3_software_esi.Base.{
  ℕ, ◌%◌, ◌^◌, ◌/◌, Bool, true, false, not, ◌||◌, Option, none, some, List, [], ◌∷◌, ◌++◌, length,
  ◌==◌, if◌then◌else◌, lookup, insert,
}
use oresat_c3_software_esi.Protocols.EdlCommand.Struct.{Value, bool, int, float, bytes}
use oresat_c3_software_esi.Protocols.EdlCommand.Codes.{
  EdlCommandCode, tx_ctrl, c3_soft_reset, c3_hard_reset, c3_factory_reset, co_node_enable,
  co_node_status, co_sdo_write, co_sync, opd_sysenable, opd_scan, opd_probe, opd_enable, opd_reset,
  opd_status, rtc_set_time, time_sync, beacon_ping, ping, rx_test, co_sdo_read, co_node_flash,
}
use oresat_c3_software_esi.Protocols.EdlCommand.{EdlCommandRequest}
use oresat_c3_software_esi.Subsystems.Opd.Sband
use oresat_c3_software_esi.Subsystems.Opd.Sband.{AnyNode}
use oresat_c3_software_esi.Subsystems.Opd.System
use oresat_c3_software_esi.Subsystems.Opd.System.{Opd, OpdState}
use oresat_c3_software_esi.Services.NodeManager.{opd_value}
use oresat_c3_software_esi.Services.Edl.State.{
  EdlService, Env, Effect, soft_reset, hard_reset, factory_reset, send_sync, send_time_tpdo,
  send_beacon, sdo_write, set_rtc_time, set_system_time,
}

-- What `_run_cmd` ends with: the values of the response, or that it raises. No values are an empty
-- list, which is not answered.
pub data Answer : Type 0 where
  values : List Value → Answer
  raises : Answer

-- `value == 0`
abbrev pub is_zero : Value → Bool
is_zero (bool b) = not b
is_zero (int n) = n == 0
is_zero (float n) = n == 0 || n == 0x80000000
is_zero _ = false

-- `OpdState.value`
abbrev pub opd_state_value : OpdState → ℕ
opd_state_value OpdState.disabled = 0
opd_state_value OpdState.enabled = 1
opd_state_value OpdState.fault = 2
opd_state_value OpdState.dead = 3

abbrev pub Action : Type 0 → Type 0
Action Pdu = EdlService Pdu → Answer × EdlService Pdu

abbrev pub card_probe : AnyNode → Value × AnyNode
card_probe o = let (found, o') = Sband.probe false o in (bool found, o')

-- `node.status.value`
abbrev pub card_status : AnyNode → Value × AnyNode
card_status o = let (st, o') = Sband.status o in (int (opd_value st), o')

abbrev pub card_enable : Value → AnyNode → Value × AnyNode
card_enable arg o = card_status (if is_zero arg then Sband.disable o else Sband.enable false o)

abbrev pub card_reset : AnyNode → Value × AnyNode
card_reset o = card_status (Sband.reset 3 o)

abbrev answer : Option ℕ → Answer
answer none = raises
answer (some n) = values (int n ∷ [])

-- `CO_SDO_READ`, with "ERROR" for the data where the transfer was aborted
abbrev read_answer : ℕ → ℕ → ℕ → Option (ℕ × List ℕ) → Answer
read_answer node_id index subindex none = raises
read_answer node_id index subindex (some (ecode, found)) =
    let payload = if ecode == 0 then found else 69 ∷ 82 ∷ 82 ∷ 79 ∷ 82 ∷ [] in
    values (
      int node_id
      ∷ int index
      ∷ int subindex
      ∷ int ecode
      ∷ int (length payload)
      ∷ bytes payload
      ∷ [])

module _ {Pdu : Type 0} where
  abbrev do_effect : Effect → EdlService Pdu → EdlService Pdu
  do_effect e s = record s { effects = e ∷ s.effects }

  abbrev set_opd : Opd → EdlService Pdu → EdlService Pdu
  set_opd o s = record s { manager = record s.manager { opd = o } }

  -- `TX_CTRL`
  unfoldable pub run_tx_ctrl : ℕ → Value → Action Pdu
  run_tx_ctrl time arg s =
      if is_zero arg
      then (values (bool false ∷ []), record s { tx_enable = false; last_tx_enable = 0 })
      else (values (bool true ∷ []), record s { tx_enable = true; last_tx_enable = time / 1000 })

  -- the calls of `opd` that return nothing or raise, and then the status
  abbrev pub after_opd : System.Result (Unit {0}) → Opd → Action Pdu
  after_opd (System.ok _) o s = (values (int (opd_state_value o.status) ∷ []), set_opd o s)
  after_opd (System.err _) o s = (raises, set_opd o s)

  -- `OPD_SYSENABLE`
  unfoldable pub run_opd_sysenable : Value → Action Pdu
  run_opd_sysenable arg s =
      let (r1, o1) = System.enable s.manager.opd in
      let (r0, o0) = System.disable s.manager.opd in
      if is_zero arg then after_opd r0 o0 s else after_opd r1 o1 s

  abbrev pub after_scan : System.Result ℕ → Opd → Action Pdu
  after_scan (System.ok n) o s = (values (int n ∷ []), set_opd o s)
  after_scan (System.err _) o s = (raises, set_opd o s)

  -- `OPD_SCAN`
  unfoldable pub run_opd_scan : Action Pdu
  run_opd_scan s = let (r, o) = System.scan false s.manager.opd in after_scan r o s

  -- a command to the card at an address: `opd_addr_to_name[addr]` and `opd[name]` may raise
  -- `KeyError`
  unfoldable pub with_card : ℕ → (AnyNode → Value × AnyNode) → Action Pdu
  with_card addr f s = elim (lookup addr s.manager.opd_addr_to_name) [
    | none ↦ (raises, s)
    | some name ↦ elim (lookup name s.manager.opd.nodes) [
      | none ↦ (raises, s)
      | some o ↦
          let (v, o') = f o in
          (
            values (v ∷ []),
            set_opd (record s.manager.opd { nodes = insert name o' s.manager.opd.nodes }) s,
          )
    ]
  ]

  -- `node_id_to_name[node_id]` may raise `KeyError`.
  abbrev with_node : ℕ → Action Pdu → Action Pdu
  with_node node_id run s = elim (lookup node_id s.manager.node_id_to_name) [
    | none ↦ (raises, s)
    | some _ ↦ run s
  ]

  -- `RTC_SET_TIME`: the system time is set only if the clock was
  unfoldable pub run_rtc_set_time : Env → Value → Action Pdu
  run_rtc_set_time env ts s =
      let s' = do_effect (set_rtc_time ts) s in
      if env.rtc_set
      then (values (bool env.system_time_set ∷ []), do_effect set_system_time s')
      else (values (bool false ∷ []), s')

  abbrev queue_flash : Env → List Value → Action Pdu
  queue_flash env args s = (
    values (bool env.flash_queued ∷ []),
    if env.flash_queued then record s { flash_queue = s.flash_queue ++ (args ∷ []) } else s,
  )

  -- the write to the flight computer's own object dictionary; the counters are objects of four bytes
  unfoldable pub write_local : Env → List Value → EdlService Pdu → EdlService Pdu
  write_local env args s =
      let o = env.od_written args (record {
        flight_mode = s.flight_mode;
        sequence_count = s.sequence_count;
        rejected_count = s.rejected_count;
        last_edl = s.last_edl;
        tx_enable = s.tx_enable;
        last_tx_enable = s.last_tx_enable;
        active_key = s.active_key;
        keys = s.keys;
        manager = s.manager;
      }) in
      record s {
        flight_mode = o.flight_mode;
        sequence_count = o.sequence_count % 2 ^ 32;
        rejected_count = o.rejected_count % 2 ^ 32;
        last_edl = o.last_edl;
        tx_enable = o.tx_enable;
        last_tx_enable = o.last_tx_enable;
        active_key = o.active_key;
        keys = o.keys;
        manager = o.manager;
      }

  -- `CO_SDO_WRITE`
  unfoldable pub run_sdo_write : Env → ℕ → List Value → Action Pdu
  unfolding write_local
  run_sdo_write env node_id args s = (
    answer env.sdo_written,
    do_effect (sdo_write (int node_id ∷ args)) (if node_id == 1 then write_local env args s else s),
  )

  -- `_run_cmd`, by the code and the arguments that its format gives; others raise.
  unfoldable pub run_args : Env → EdlCommandCode → List Value → Action Pdu
  run_args env tx_ctrl (arg ∷ _) s = run_tx_ctrl env.time arg s
  run_args env c3_soft_reset _ s = (values [], do_effect soft_reset s)
  run_args env c3_hard_reset _ s = (values [], do_effect hard_reset s)
  run_args env c3_factory_reset _ s = (values [], do_effect factory_reset s)
  run_args env co_node_enable _ s = (values [], s)
  run_args env co_node_status (int node_id ∷ _) s =
      with_node node_id (λ s'. (answer env.node_state, s')) s
  run_args env co_sdo_write (int node_id ∷ a ∷ b ∷ c ∷ d ∷ []) s =
      with_node node_id (run_sdo_write env node_id (a ∷ b ∷ d ∷ [])) s
  run_args env co_sync _ s = (values (bool true ∷ []), do_effect send_sync s)
  run_args env opd_sysenable (arg ∷ _) s = run_opd_sysenable arg s
  run_args env opd_scan _ s = run_opd_scan s
  run_args env opd_probe (int addr ∷ _) s = with_card addr card_probe s
  run_args env opd_enable (int addr ∷ arg ∷ _) s = with_card addr (card_enable arg) s
  run_args env opd_reset (int addr ∷ _) s = with_card addr card_reset s
  run_args env opd_status (int addr ∷ _) s = with_card addr card_status s
  run_args env rtc_set_time (ts ∷ _) s = run_rtc_set_time env ts s
  run_args env time_sync _ s = (values (bool true ∷ []), do_effect send_time_tpdo s)
  run_args env beacon_ping _ s =
      (if env.beacon_sent then values [] else raises, do_effect send_beacon s)
  run_args env ping (v ∷ _) s = (values (v ∷ []), s)
  run_args env rx_test _ s = (values [], s)
  run_args env co_sdo_read (int node_id ∷ int index ∷ int subindex ∷ []) s =
      with_node node_id (λ s'. (read_answer node_id index subindex env.sdo_read, s')) s
  run_args env co_node_flash (a ∷ b ∷ c ∷ d ∷ e ∷ f ∷ []) s =
      queue_flash env (a ∷ b ∷ c ∷ d ∷ e ∷ f ∷ []) s
  run_args env _ _ s = (raises, s)

  unfoldable pub run_cmd : Env → EdlCommandRequest → Action Pdu
  run_cmd env r s = run_args env r.code r.args s
