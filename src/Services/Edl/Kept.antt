-- ===== src/Services/Edl/Kept.antt =====
-- oresat_c3/services/edl.py: what the commands and the responses leave alone.
use oresat_c3_software_esi.Base.{◌≡◌, refl, arith, ℕ, Bool, false, ◌==◌, List, ◌∷◌}
use oresat_c3_software_esi.Protocols.EdlCommand.Struct.{Value, int}
use oresat_c3_software_esi.Protocols.EdlCommand.Codes.{
  EdlCommandCode, co_sdo_write, tx_ctrl, opd_sysenable, opd_scan, opd_probe, opd_enable, opd_reset,
  opd_status, rtc_set_time,
}
use oresat_c3_software_esi.Protocols.EdlCommand.{EdlCommandRequest}
use oresat_c3_software_esi.Subsystems.Opd.Sband.{AnyNode}
use oresat_c3_software_esi.Services.Edl.State.{EdlService, Env}
use oresat_c3_software_esi.Services.Edl.Commands.{
  run_tx_ctrl, run_opd_sysenable, run_opd_scan, with_card, run_rtc_set_time, run_args, run_cmd,
  run_sdo_write, card_probe, card_status, card_enable, card_reset,
}

-- Is the command a write to the object dictionary of the flight computer itself, which is node 1?
abbrev pub is_local : EdlCommandCode → List Value → Bool
is_local co_sdo_write (int node_id ∷ _) = node_id == 1
is_local _ _ = false

module _ {Pdu : Type 0} where
  -- What authenticates and orders the frames, and the queues between the service and the router.
  pub record Kept (s t : EdlService Pdu) : Type 0 where
    pub flight_mode : t.flight_mode ≡ s.flight_mode
    pub sequence_count : t.sequence_count ≡ s.sequence_count
    pub rejected_count : t.rejected_count ≡ s.rejected_count
    pub last_edl : t.last_edl ≡ s.last_edl
    pub active_key : t.active_key ≡ s.active_key
    pub keys : t.keys ≡ s.keys
    pub cmd_uplink : t.cmd_uplink ≡ s.cmd_uplink
    pub file_uplink : t.file_uplink ≡ s.file_uplink
    pub cmd_downlink : t.cmd_downlink ≡ s.cmd_downlink
    pub file_downlink : t.file_downlink ≡ s.file_downlink

  Kept-all : (s : EdlService Pdu) → Kept s s
  Kept-all s = record {
    flight_mode = refl;
    sequence_count = refl;
    rejected_count = refl;
    last_edl = refl;
    active_key = refl;
    keys = refl;
    cmd_uplink = refl;
    file_uplink = refl;
    cmd_downlink = refl;
    file_downlink = refl;
  }

  with_card-Kept :
      (addr : ℕ) (f : AnyNode → Value × AnyNode) (s : EdlService Pdu)
      → Kept s (with_card addr f s).1
  unfolding with_card
  with_card-Kept addr f s = ground arith

  run_opd_sysenable-Kept : (arg : Value) (s : EdlService Pdu) → Kept s (run_opd_sysenable arg s).1
  unfolding run_opd_sysenable
  run_opd_sysenable-Kept arg s = ground arith

  run_opd_scan-Kept : (s : EdlService Pdu) → Kept s (run_opd_scan s).1
  unfolding run_opd_scan
  run_opd_scan-Kept s = ground arith

  run_tx_ctrl-Kept :
      (time : ℕ) (arg : Value) (s : EdlService Pdu) → Kept s (run_tx_ctrl time arg s).1
  unfolding run_tx_ctrl
  run_tx_ctrl-Kept time arg s = ground arith

  run_rtc_set_time-Kept :
      (env : Env) (arg : Value) (s : EdlService Pdu) → Kept s (run_rtc_set_time env arg s).1
  unfolding run_rtc_set_time
  run_rtc_set_time-Kept env arg s = ground arith

  run_args-Kept :
      (env : Env) (code : EdlCommandCode) (args : List Value) (s : EdlService Pdu)
      → is_local code args ≡ false
      → Kept s (run_args env code args s).1
  unfolding run_args run_sdo_write
  run_args-Kept env tx_ctrl (arg ∷ _) s h = run_tx_ctrl-Kept env.time arg s
  run_args-Kept env opd_sysenable (arg ∷ _) s h = run_opd_sysenable-Kept arg s
  run_args-Kept env opd_scan _ s h = run_opd_scan-Kept s
  run_args-Kept env opd_probe (int addr ∷ _) s h = with_card-Kept addr card_probe s
  run_args-Kept env opd_enable (int addr ∷ arg ∷ _) s h = with_card-Kept addr (card_enable arg) s
  run_args-Kept env opd_reset (int addr ∷ _) s h = with_card-Kept addr card_reset s
  run_args-Kept env opd_status (int addr ∷ _) s h = with_card-Kept addr card_status s
  run_args-Kept env rtc_set_time (ts ∷ _) s h = run_rtc_set_time-Kept env ts s
  run_args-Kept env _ _ s h = ground arith

  pub run_cmd-Kept :
      (env : Env) (r : EdlCommandRequest) (s : EdlService Pdu)
      → is_local r.code r.args ≡ false
      → Kept s (run_cmd env r s).1
  unfolding run_cmd
  run_cmd-Kept env r s h = run_args-Kept env r.code r.args s h
