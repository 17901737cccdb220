-- ===== src/Services/Radios/Quiet.antt =====
-- oresat_c3/services/radios.py: booting the S-band radio and switching it off do not tell the SDR to
-- transmit.
use mathlib.Core.Path.{subst}
use oresat_c3_software_esi.Base.{
  ℕ, ◌≡◌, refl, sym, Bool, true, false, Option, none, some, List, [], ◌∷◌, arith,
}
use oresat_c3_software_esi.Services.Radios.Sband
use oresat_c3_software_esi.Services.Radios.Sband.{SbandRadio, Command, send_cache, written}

-- The newest command among these that tells the SDR to transmit: there is none.
abbrev pub NoTransmit : List Command → Type 0
NoTransmit [] = Unit
NoTransmit (send_cache ∷ cs) = ⊥
NoTransmit (_ ∷ cs) = NoTransmit cs

written-commands : (errors : List Bool) (r : SbandRadio) → (written errors r).commands ≡ r.commands
written-commands [] r = refl
written-commands (false ∷ errors) r = refl
written-commands (true ∷ errors) r = refl

on_node_status-NoTransmit :
    (status : ℕ) (r : SbandRadio)
    → NoTransmit r.commands
    → NoTransmit (Sband.on_node_status (status, r)).1.commands
unfolding Sband.on_node_status Sband.sdo_write
on_node_status-NoTransmit status r h =
    ground (arith, written-commands r.sdo_errors (Sband.command Sband.power_on r))

on_sdr_status-NoTransmit :
    (val : ℕ) (r : SbandRadio)
    → NoTransmit r.commands
    → NoTransmit (Sband.on_sdr_status (val, r)).1.commands
unfolding Sband.on_sdr_status Sband.sdo_write
on_sdr_status-NoTransmit val r h =
    ground (arith, written-commands r.sdo_errors (Sband.command Sband.power_on r))

read_node-NoTransmit :
    (readings : List ℕ) (r : SbandRadio)
    → NoTransmit r.commands
    → NoTransmit (Sband.on_node_status (Sband.read_node readings r)).1.commands
read_node-NoTransmit [] r h = on_node_status-NoTransmit 0 r h
read_node-NoTransmit (x ∷ xs) r h = on_node_status-NoTransmit x (record r { node_readings = xs }) h

read_sdr-NoTransmit :
    (readings : List (Option ℕ)) (r : SbandRadio)
    → NoTransmit r.commands
    → NoTransmit (Sband.on_sdr_status (Sband.read_sdr readings r)).1.commands
read_sdr-NoTransmit [] r h = on_sdr_status-NoTransmit 0 r h
read_sdr-NoTransmit (some x ∷ xs) r h =
    on_sdr_status-NoTransmit x (record r { sdr_readings = xs }) h
read_sdr-NoTransmit (none ∷ xs) r h =
    on_sdr_status-NoTransmit 0 (Sband.count_fault (record r { sdr_readings = xs })) h

pub enable_from-NoTransmit :
    (s : Sband.SbandState) (r : SbandRadio)
    → NoTransmit r.commands
    → NoTransmit (Sband.enable_from s r).1.commands
unfolding Sband.enable_from Sband.get_sdr_status
enable_from-NoTransmit Sband.off r h = h
enable_from-NoTransmit Sband.no_heartbeat r h = read_node-NoTransmit r.node_readings r h
enable_from-NoTransmit Sband.starting r h = read_sdr-NoTransmit r.sdr_readings r h
enable_from-NoTransmit Sband.ready r h = h
enable_from-NoTransmit Sband.stopping r h = h
enable_from-NoTransmit Sband.error r h = h

pub disable-NoTransmit :
    (r : SbandRadio) → NoTransmit r.commands → NoTransmit (Sband.disable r).commands
unfolding Sband.disable Sband.sdo_write
disable-NoTransmit r h =
    subst NoTransmit
      (sym (
        written-commands r.sdo_errors (
          Sband.command Sband.power_off
            (record r { state = Sband.stopping; has_sdo_fault = true; sdo_fault = 0 }))))
      h
