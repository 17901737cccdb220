-- ===== src/Services/Edl/Typed.antt =====
-- oresat_c3/services/edl.py: the values of the responses, and the formats of their commands.
use oresat_c3_software_esi.Base.{
  ◌≡◌, refl, arith, ℕ, ◌≤◌, ◌<◌, Bool, true, false, ◌&&◌, Option, none, some, List, [], ◌∷◌, length,
  Option-cases, inl, inr, ltb, if◌then◌else◌, Dict, lookup,
}
use oresat_c3_software_esi.Protocols.EdlCommand.Struct.{u8, Value, int}
use oresat_c3_software_esi.Protocols.EdlCommand.Codes.{
  EdlCommandCode, tx_ctrl, opd_sysenable, opd_scan, opd_probe, opd_enable, opd_reset, opd_status,
  rtc_set_time,
}
use oresat_c3_software_esi.Protocols.EdlCommand.{format, edl_commands, EdlCommandRequest}
use oresat_c3_software_esi.Protocols.EdlCommand.RoundTrip.{fits_layout}
use oresat_c3_software_esi.Subsystems.Opd.Sband
use oresat_c3_software_esi.Subsystems.Opd.Sband.{AnyNode}
use oresat_c3_software_esi.Subsystems.Opd.System
use oresat_c3_software_esi.Subsystems.Opd.System.{Opd, OpdState, scan_nodes}
use oresat_c3_software_esi.Services.Edl.State.{EdlService, Env}
use oresat_c3_software_esi.Services.Edl.Commands.{
  Answer, values, raises, is_zero, opd_state_value, after_opd, run_tx_ctrl, run_opd_sysenable,
  run_opd_scan, with_card, run_rtc_set_time, run_args, run_cmd, card_probe, card_status,
  card_enable, card_reset, run_sdo_write,
}

-- The answer has no values, or values of the kinds and ranges of the command's response; that of
-- OPD_SYSENABLE has a flag, for which the code gives the number of a state. A raise has no values.
abbrev pub answer_fits : EdlCommandCode → Answer → Bool
answer_fits code (values []) = true
answer_fits opd_sysenable (values (int n ∷ [])) = ltb n 4
answer_fits code (values (v ∷ vs)) = fits_layout (edl_commands code).res (v ∷ vs)
answer_fits code raises = true

abbrev pub below : ℕ → Option ℕ → Bool
below bound none = true
below bound (some n) = ltb n bound

abbrev pub read_below : Option (ℕ × List ℕ) → Bool
read_below none = true
read_below (some (ecode, found)) = ltb ecode 0x100000000 && ltb (length found) 0x100000000

-- The state of a node is a byte; an abort code, and the length of what is read, have four.
abbrev pub env_in_range : Env → Bool
env_in_range env =
    below 0x100 env.node_state && below 0x100000000 env.sdo_written && read_below env.sdo_read

scan_nodes-bound : (r : Bool) (nodes : Dict AnyNode) → (scan_nodes r nodes).0 ≤ length nodes
unfolding scan_nodes
scan_nodes-bound r [] = omega arith
scan_nodes-bound r ((name, n) ∷ rest) = ground (arith, scan_nodes-bound r rest)

opd_state-fits : (o : OpdState) → ltb (opd_state_value o) 4 ≡ true
opd_state-fits o = ground arith

-- the status of a card is a byte
status-fits : (o : AnyNode) → fits_layout (format (u8 ∷ [])) ((card_status o).0 ∷ []) ≡ true
status-fits o = ground arith

module _ {Pdu : Type 0} where
  with_card-fits :
      (code : EdlCommandCode) (addr : ℕ) (f : AnyNode → Value × AnyNode) (s : EdlService Pdu)
      → ((n : AnyNode) → answer_fits code (values ((f n).0 ∷ [])) ≡ true)
      → answer_fits code (with_card addr f s).0 ≡ true
  unfolding with_card
  with_card-fits code addr f s h = elim (Option-cases (lookup addr s.manager.opd_addr_to_name)) [
    | inl e ↦ rw (with_card, e) refl
    | inr (name, e) ↦ elim (Option-cases (lookup name s.manager.opd.nodes)) [
      | inl e' ↦ rw (with_card, e, e') refl
      | inr (o, e') ↦ rw (with_card, e, e') (h o)
    ]
  ]

  after_opd-fits :
      (r : System.Result (Unit {0})) (o : Opd) (s : EdlService Pdu)
      → answer_fits opd_sysenable (after_opd r o s).0 ≡ true
  unfolding edl_commands
  after_opd-fits (System.ok x) o s = opd_state-fits o.status
  after_opd-fits (System.err x) o s = refl

  run_opd_sysenable-fits :
      (arg : Value) (s : EdlService Pdu)
      → answer_fits opd_sysenable (run_opd_sysenable arg s).0 ≡ true
  unfolding run_opd_sysenable
  run_opd_sysenable-fits arg s =
      let o1 = System.enable s.manager.opd in
      let o0 = System.disable s.manager.opd in
      ground (arith, after_opd-fits o1.0 o1.1 s, after_opd-fits o0.0 o0.1 s)

  run_opd_scan-fits :
      (s : EdlService Pdu)
      → length s.manager.opd.nodes < 0x100
      → answer_fits opd_scan (run_opd_scan s).0 ≡ true
  unfolding run_opd_scan System.scan edl_commands
  run_opd_scan-fits s n = ground (arith, n, scan_nodes-bound false s.manager.opd.nodes)

  run_args-fits :
      (env : Env) (code : EdlCommandCode) (args : List Value) (s : EdlService Pdu)
      → env_in_range env ≡ true
      → length s.manager.opd.nodes < 0x100
      → fits_layout (edl_commands code).req args ≡ true
      → answer_fits code (run_args env code args s).0 ≡ true
  unfolding run_args run_sdo_write edl_commands
  run_args-fits env tx_ctrl (arg ∷ _) s e n h = unfold run_tx_ctrl in ground arith
  run_args-fits env opd_sysenable (arg ∷ _) s e n h = run_opd_sysenable-fits arg s
  run_args-fits env opd_scan _ s e n h = run_opd_scan-fits s n
  run_args-fits env opd_probe (int addr ∷ _) s e n h =
      with_card-fits opd_probe addr card_probe s (λ o. refl)
  run_args-fits env opd_enable (int addr ∷ arg ∷ _) s e n h =
      with_card-fits opd_enable addr (card_enable arg) s
        (λ o. status-fits (if is_zero arg then Sband.disable o else Sband.enable false o))
  run_args-fits env opd_reset (int addr ∷ _) s e n h =
      with_card-fits opd_reset addr card_reset s (λ o. status-fits (Sband.reset 3 o))
  run_args-fits env opd_status (int addr ∷ _) s e n h =
      with_card-fits opd_status addr card_status s (λ o. status-fits o)
  run_args-fits env rtc_set_time (ts ∷ _) s e n h = unfold run_rtc_set_time in ground arith
  run_args-fits env _ _ s e n h = ground (arith, e, h)

  -- With what the nodes and the OPD report in range, and fewer than 256 cards, a request whose
  -- arguments are in range for its command is answered by no values, or by values of the kinds and in
  -- the ranges of its response, but for OPD_SYSENABLE, which gives the number of the state of the OPD.
  pub run_cmd-answer_fits :
      (env : Env) (r : EdlCommandRequest) (s : EdlService Pdu)
      → env_in_range env ≡ true
      → length s.manager.opd.nodes < 0x100
      → fits_layout (edl_commands r.code).req r.args ≡ true
      → answer_fits r.code (run_cmd env r s).0 ≡ true
  unfolding run_cmd
  run_cmd-answer_fits env r s e n h = run_args-fits env r.code r.args s e n h
