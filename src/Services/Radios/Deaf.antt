-- ===== src/Services/Radios/Deaf.antt =====
-- oresat_c3/services/radios.py: what the attributes that are never set do to the loop and to the
-- downlink.
use mathlib.Core.Path.{subst}
use oresat_c3_software_esi.Base.{
  ℕ, ◌+◌, ◌≤◌, ◌≡◌, refl, sym, ap, ◌∙◌, Bool, true, false, Option, none, some, List, [], ◌∷◌, ltb,
  not, ◌&&◌, ◌||◌, ◌==◌, if◌then◌else◌, arith,
}
use oresat_c3_software_esi.Services.Radios.Link
use oresat_c3_software_esi.Services.Radios.Link.{
  Radios, Message, Action, Result, ok, err, attribute_error, after,
}
use oresat_c3_software_esi.Services.Radios.Sband
use oresat_c3_software_esi.Services.Radios.Sband.{SbandRadio, ready}
use oresat_c3_software_esi.Services.Radios.Service
use oresat_c3_software_esi.Services.Radios.Service.{Inputs, Event}
use oresat_c3_software_esi.Services.Radios.Unsent.{
  IsUnset, NeverTransmits, maybe_force-unset, monotonic-Keeps, run-IsUnset,
}

-- From `on_start` on, over any events, whatever the radios, the node manager and the clock do: no
-- message is written to the SDR, and it is never told to transmit what it holds.
pub run_unsent :
    (es : List Event) (nodes : List ℕ) (sdo_errors : List Bool) (sdrs : List (Option ℕ))
    (enable downlink : Bool) (timeout clock : ℕ) (ticks : List ℕ) (opens sockets : List Bool)
    → ((Service.run es (
          Service.new
            (some (Sband.new nodes sdo_errors sdrs))
            enable
            downlink
            timeout
            clock
            ticks
            opens
            sockets)).to_sdr
        ≡ [])
      × NeverTransmits
          (Service.run es (
            Service.new
              (some (Sband.new nodes sdo_errors sdrs))
              enable
              downlink
              timeout
              clock
              ticks
              opens
              sockets)).sband
run_unsent es nodes sdo_errors sdrs enable downlink timeout clock ticks opens sockets =
    let u =
      run-IsUnset es
        (Service.new (some (Sband.new nodes sdo_errors sdrs)) enable downlink timeout clock ticks
          opens sockets)
        (refl, refl, refl, tt) in
    (u.2, u.3)

-- It raised, with these messages received.
abbrev pub Raised : List Message → Result (Unit {0}) × Radios → Type 0
Raised received p = (p.0 ≡ err attribute_error) × (p.1.recv_queue ≡ received)

forces : (s : Radios) → IsUnset s → Raised s.recv_queue (Service.maybe_force s)
forces s u = subst (Raised s.recv_queue) (sym (maybe_force-unset s u)) (refl, refl)

sends :
    (b : Bool) (s : Radios)
    → IsUnset s
    → Raised s.recv_queue (after (λ _. Service.maybe_force) (Service.send_when b s))
sends false s u = forces s u
sends true s u = by_queue (Link.is_empty s.queue)
  where
    locked :
        Raised s.recv_queue
          (after (λ _. Service.maybe_force) (after Service.send_unless (Link.attribute s.lock, s)))
    locked =
        subst
          (λ l.
            Raised s.recv_queue
              (after (λ _. Service.maybe_force) (after Service.send_unless (Link.attribute l, s))))
          (sym u.0) (refl, refl)

    by_queue :
        (b : Bool)
        → Raised s.recv_queue (
            after
              (λ _. Service.maybe_force)
              (if b then (ok tt, s) else after Service.send_unless (Link.attribute s.lock, s)))
    by_queue true = forces s u
    by_queue false = locked

-- the clock moved on
ticked : (ticks : List ℕ) (s : Radios) → (Link.passed ticks s).1.recv_queue ≡ s.recv_queue
ticked [] s = refl
ticked (t ∷ ts) s = refl

unsent_loop :
    (s : Radios)
    → IsUnset s
    → Raised s.recv_queue (after (λ _. Service.maybe_force) (Service.maybe_send_queued s))
unfolding Service.maybe_send_queued
unsent_loop s u =
    subst (λ q. Raised q (after (λ _. Service.maybe_force) (Service.maybe_send_queued s)))
      (ticked s.ticks s) (sends _ (Link.monotonic s).1 (monotonic-Keeps s u))

-- the next value of `monotonic()`
abbrev pub reading : ℕ → List ℕ → ℕ
reading clock [] = clock
reading clock (tick ∷ ticks) = clock + tick

pub passed-reading : (ticks : List ℕ) (s : Radios) → (Link.passed ticks s).0 ≡ reading s.clock ticks
passed-reading [] s = refl
passed-reading (t ∷ ts) s = refl

timeouts :
    (t : ℕ) (s : Radios)
    → IsUnset s
    → s.timeout_timestamp ≡ some t
    → reading s.clock s.ticks ≤ t
    → Raised s.recv_queue (Service.check_timeout s)
unfolding Service.check_timeout
timeouts t s u e h =
    subst (λ o. Raised s.recv_queue (after Service.timeout_at (Link.attribute o, s))) (sym e)
      in_time
  where
    moved : Radios
    moved = (Link.passed s.ticks s).1

    not_over : ltb t (Link.passed s.ticks s).0 ≡ false
    not_over = rw (passed-reading s.ticks s) (ground arith)

    in_time : Raised s.recv_queue (Service.timeout_by (ltb t (Link.passed s.ticks s).0) moved)
    in_time =
        subst (λ b. Raised s.recv_queue (Service.timeout_by b moved)) (sym not_over)
          (subst (λ q. Raised q (Service.timeout_by false moved)) (ticked s.ticks s)
            (unsent_loop moved (monotonic-Keeps s u)))

handled :
    (t : ℕ) (r : SbandRadio) (s : Radios)
    → IsUnset s
    → s.sband ≡ some r
    → r.state ≡ ready
    → s.should_enable ≡ true
    → s.timeout_timestamp ≡ some t
    → reading s.clock s.ticks ≤ t
    → Raised s.recv_queue (Service.handle_sband s)
unfolding Service.handle_sband
handled t r s u there up enabled e h =
    subst (Raised s.recv_queue) (sym same) (timeouts t seen unset e h)
  where
    seen : Radios
    seen = record s { sband = some (record r { od_status = r.state }) }

    unset : IsUnset seen
    unset = (u.0, u.1, u.2, subst NeverTransmits there u.3)

    asked : Option SbandRadio → Result (Unit {0}) × Radios
    asked o =
        let (rf_ok, o') = Link.when_sband Sband.is_rf_ok false o in
        after Service.handle_by_ok (ok rf_ok, record s { sband = o' })

    here : Option SbandRadio → Bool
    here o = elim o [ none ↦ false | some _ ↦ true ]

    same : Service.handle_sband s ≡ Service.check_timeout seen
    same =
        ap (λ o. if here o then Service.handle_by s.should_enable s else (ok tt, s)) there
        ∙ ap (λ b. Service.handle_by b s) enabled
        ∙ ap asked there
        ∙ ap (λ q. after Service.handle_by_ok (ok (Sband.is_ready q), seen)) up

-- While the S-band radio is enabled and ready and its timeout is not over, the loop raises
-- `AttributeError` and takes no EDL request from the uplink. So it is from `on_start` on, in every
-- state that the attributes have been unset in.
pub on_loop_deaf :
    (i : Inputs) (t : ℕ) (r : SbandRadio) (s : Radios)
    → IsUnset s
    → s.sband ≡ some r
    → r.state ≡ ready
    → s.should_enable ≡ true
    → s.timeout_timestamp ≡ some t
    → reading s.clock s.ticks ≤ t
    → Raised s.recv_queue (Service.on_loop i s)
unfolding Service.on_loop Service.check_health
on_loop_deaf i t r s u there up enabled e h =
    subst
      (λ b.
        Raised s.recv_queue
          (after (λ _. Link.modify (Service.receive i)) (Service.handle_if b checked)))
      (sym wants)
      (skipped (Service.handle_sband checked) (handled t r checked u there up enabled e h))
  where
    checked : Radios
    checked = Service.check_health i s

    here : Option SbandRadio → Bool
    here o = elim o [ none ↦ false | some _ ↦ true ]

    wants : Service.wants_sband checked ≡ true
    wants =
        ap (λ o. here o && (s.should_enable || not (Service.state_code s == 0))) there
        ∙ ap (λ b. b || not (Service.state_code s == 0)) enabled

    skipped :
        (p : Result (Unit {0}) × Radios)
        → Raised s.recv_queue p
        → Raised s.recv_queue (after (λ _. Link.modify (Service.receive i)) p)
    skipped p h =
        subst (λ q. Raised s.recv_queue (after (λ _. Link.modify (Service.receive i)) (q, p.1)))
          (sym h.0) (refl, h.1)
