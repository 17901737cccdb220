-- ===== src/Services/Radios/Unsent.antt =====
-- oresat_c3/services/radios.py: three attributes of the S-band downlink that are read and never set.
use mathlib.Core.Path.{subst}
use oresat_c3_software_esi.Base.{
  ℕ, ◌≡◌, sym, ap, Bool, true, false, Option, none, some, List, [], ◌∷◌, ◌++◌, length, ltb,
  if◌then◌else◌, ◌==◌, Bool-cases, inl, inr,
}
use oresat_c3_software_esi.Services.Radios.Link
use oresat_c3_software_esi.Services.Radios.Link.{
  Radios, Message, Action, Result, ok, err, attribute_error, after,
}
use oresat_c3_software_esi.Services.Radios.Quiet.{
  NoTransmit, enable_from-NoTransmit, disable-NoTransmit,
}
use oresat_c3_software_esi.Services.Radios.Sband
use oresat_c3_software_esi.Services.Radios.Sband.{SbandRadio, Command, send_cache, written}
use oresat_c3_software_esi.Services.Radios.Service
use oresat_c3_software_esi.Services.Radios.Service.{
  Inputs, Event, loop, beacon, response, write_enable, write_downlink, callback,
}

abbrev pub NeverTransmits : Option SbandRadio → Type 0
NeverTransmits none = Unit
NeverTransmits (some r) = NoTransmit r.commands

-- Nothing has gone to the SDR, and the attributes that would let it are not there.
abbrev pub IsUnset : Radios → Type 0
IsUnset s = (s.lock ≡ none) × (s.send_time ≡ none) × (s.to_sdr ≡ []) × NeverTransmits s.sband

-- An action that keeps that, however it ends.
abbrev pub Keeps : {A : Type 0} → Action A → Type 0
Keeps m = (s : Radios) → IsUnset s → IsUnset (m s).1

Keeps-bind :
    {A B : Type 0} (m : Action A) (f : A → Action B)
    → Keeps m
    → ((a : A) → Keeps (f a))
    → Keeps (λ s. after f (m s))
Keeps-bind {A} {B} m f first rest s u = by_result (m s) (first s u)
  where
    by_result : (p : Result A × Radios) → IsUnset p.1 → IsUnset (after f p).1
    by_result (ok a, s') u' = rest a s' u'
    by_result (err x, s') u' = u'

call_sband-Keeps :
    {A : Type 0} (f : SbandRadio → A × SbandRadio) (a : A)
    → ((r : SbandRadio) → NoTransmit r.commands → NoTransmit (f r).1.commands)
    → Keeps (Link.call_sband f a)
call_sband-Keeps f a keep s u = (u.0, u.1, u.2, by_radio s.sband u.3)
  where
    by_radio : (o : Option SbandRadio) → NeverTransmits o → NeverTransmits (Link.when_sband f a o).1
    by_radio none h = tt
    by_radio (some r) h = keep r h

pub monotonic-Keeps : Keeps Link.monotonic
monotonic-Keeps s u = by_ticks s.ticks
  where
    by_ticks : (ticks : List ℕ) → IsUnset (Link.returning (Link.passed ticks s)).1
    by_ticks [] = u
    by_ticks (t ∷ ts) = u

-- `sband_lock` is read first.
send_now-unset :
    (message : Message) (s : Radios)
    → IsUnset s
    → Link.send_now message s ≡ (err attribute_error, s)
unfolding Link.send_now
send_now-unset message s u = ap (λ l. after (attempt) (Link.attribute l, s)) u.0
  where
    attempt : Bool → Action (Unit {0})
    attempt locked =
        Link.◌>>◌ (Link.wait_unlocked locked)
          (Link.◌>>◌ Link.send_pending (Link.send_on_sband message))

send_at-Keeps : (now : ℕ) (message : Message) → Keeps (Link.send_at now message)
unfolding Link.send_at
send_at-Keeps now message s u = elim (Bool-cases (ltb now s.ready_at)) [
  | inl busy ↦ rw busy u
  | inr free ↦ rw (free, send_now-unset message s u) u
]

try_send_sband-Keeps : (message : Message) → Keeps (Link.try_send_sband message)
unfolding Link.try_send_sband
try_send_sband-Keeps message =
    Keeps-bind Link.monotonic (λ now. Link.send_at now message) monotonic-Keeps
      (λ now. send_at-Keeps now message)

either :
    (b : Bool) {A : Type 0} (p q : Result A × Radios)
    → IsUnset p.1
    → IsUnset q.1
    → IsUnset (if b then p else q).1
either true p q u v = u
either false p q u v = v

pub is_rf_ok-Keeps : Keeps Link.is_rf_ok
is_rf_ok-Keeps = call_sband-Keeps Sband.is_rf_ok false (λ r h. h)

downlink-Keeps : Keeps Link.downlink_through_sband
unfolding Link.downlink_through_sband
downlink-Keeps s u = either s.sband_downlink _ _ (is_rf_ok-Keeps s u) u

edl_route-Keeps : (message : Message) (through : Bool) → Keeps (Service.edl_route message through)
unfolding Service.socket_edl
edl_route-Keeps message true s u = try_send_sband-Keeps message s u
edl_route-Keeps message false s u = either (Link.raises s.socket_errors) _ _ u u

beacon_route-Keeps :
    (message : Message) (through : Bool) → Keeps (Service.beacon_route message through)
unfolding Service.socket_beacon
beacon_route-Keeps message true s u = try_send_sband-Keeps message s u
beacon_route-Keeps message false s u = either (Link.raises s.socket_errors) _ _ u u

send_edl_response-Keeps : (message : Message) → Keeps (Service.send_edl_response message)
unfolding Service.send_edl_response
send_edl_response-Keeps message =
    Keeps-bind Link.downlink_through_sband (Service.edl_route message) downlink-Keeps
      (edl_route-Keeps message)

send_beacon-Keeps : (message : Message) → Keeps (Service.send_beacon message)
unfolding Service.send_beacon
send_beacon-Keeps message =
    Keeps-bind Link.downlink_through_sband (Service.beacon_route message) downlink-Keeps
      (beacon_route-Keeps message)

enable_sband-Keeps : Keeps Service.enable_sband
unfolding Service.enable_sband Sband.enable
enable_sband-Keeps =
    Keeps-bind (Link.call_sband Sband.enable Sband.returned) Service.outcome
      (call_sband-Keeps Sband.enable Sband.returned (λ r h. enable_from-NoTransmit r.state r h))
      outcome-Keeps
  where
    outcome-Keeps : (o : Sband.Outcome) → Keeps (Service.outcome o)
    outcome-Keeps Sband.returned s u = u
    outcome-Keeps Sband.attribute_error s u = u

start_timeout-Keeps : Keeps Service.start_timeout
start_timeout-Keeps =
    Keeps-bind Link.monotonic Service.start_timeout_at monotonic-Keeps (λ now s u. u)

disable_sband-Keeps : Keeps Service.disable_sband
unfolding Service.disable_sband
disable_sband-Keeps = call_sband-Keeps (λ r. (tt, Sband.disable r)) tt disable-NoTransmit

cb-Keeps : (value : Bool) → Keeps (Service.cb value)
unfolding Service.cb_on Service.cb_off
cb-Keeps true =
    Keeps-bind Service.enable_sband (λ _. Service.start_timeout) enable_sband-Keeps
      (λ _. start_timeout-Keeps)
cb-Keeps false =
    Keeps-bind Service.disable_sband (λ _. Service.clear_timeout) disable_sband-Keeps (λ _ s u. u)

should_enable_cb-Keeps : (value : Bool) → Keeps (Service.should_enable_cb value)
unfolding Service.should_enable_cb
should_enable_cb-Keeps value s u = either (Service.has_sband s) _ _ (cb-Keeps value s u) u

give_up-Keeps : Keeps Service.give_up
unfolding Service.give_up
give_up-Keeps s u = should_enable_cb-Keeps false (record s { should_enable = false }) u

-- `_sband_send_time` is read first.
pub maybe_force-unset : (s : Radios) → IsUnset s → Service.maybe_force s ≡ (err attribute_error, s)
unfolding Service.maybe_force
maybe_force-unset s u =
    ap
      (λ t. after (λ (send_time : ℕ). Service.force_recent (ltb 0 send_time)) (Link.attribute t, s))
      u.1

maybe_force-Keeps : Keeps Service.maybe_force
maybe_force-Keeps s u = subst (λ p. IsUnset p.1) (sym (maybe_force-unset s u)) u

maybe_send_queued-Keeps : Keeps Service.maybe_send_queued
unfolding Service.maybe_send_queued
maybe_send_queued-Keeps =
    Keeps-bind Link.monotonic Service.send_after monotonic-Keeps
      (λ now s u. when (ltb s.ready_at now) s u)
  where
    locked :
        (s : Radios) → IsUnset s → IsUnset (after Service.send_unless (Link.attribute s.lock, s)).1
    locked s u =
        subst (λ l. IsUnset (after Service.send_unless (Link.attribute l, s)).1) (sym u.0) u

    when : (b : Bool) → Keeps (Service.send_when b)
    when true s u = either (Link.is_empty s.queue) _ _ u (locked s u)
    when false s u = u

check_timeout-Keeps : Keeps Service.check_timeout
unfolding Service.check_timeout
check_timeout-Keeps = Keeps-bind Link.get_timeout Service.timeout_at get-Keeps (λ timestamp.
    Keeps-bind Link.monotonic (λ now. Service.timeout_by (ltb timestamp now)) monotonic-Keeps
      (λ now. by (ltb timestamp now)))
  where
    get-Keeps : Keeps Link.get_timeout
    get-Keeps s u = u

    by : (b : Bool) → Keeps (Service.timeout_by b)
    by true = give_up-Keeps
    by false =
        Keeps-bind Service.maybe_send_queued (λ _. Service.maybe_force) maybe_send_queued-Keeps
          (λ _. maybe_force-Keeps)

handle_sband-Keeps : Keeps Service.handle_sband
unfolding Service.handle_sband
handle_sband-Keeps s u = either (Service.has_sband s) _ _ (by s.should_enable s u) u
  where
    revive : (b : Bool) → Keeps (Service.revive_by b)
    revive true = give_up-Keeps
    revive false =
        Keeps-bind Service.enable_sband (λ _. Service.check_timeout) enable_sband-Keeps
          (λ _. check_timeout-Keeps)

    by_ok : (b : Bool) → Keeps (Service.handle_by_ok b)
    by_ok true s u = check_timeout-Keeps s u
    by_ok false s u = revive (Service.state_code s == 0xFF) s u

    by : (b : Bool) → Keeps (Service.handle_by b)
    by true s u = Keeps-bind Link.is_rf_ok Service.handle_by_ok is_rf_ok-Keeps by_ok s u
    by false s u =
        either (Service.state_code s == 0) _ _ (check_timeout-Keeps s u) (give_up-Keeps s u)

handle_if-Keeps : (b : Bool) → Keeps (Service.handle_if b)
handle_if-Keeps true s u = handle_sband-Keeps s u
handle_if-Keeps false s u = u

on_loop-Keeps : (i : Inputs) → Keeps (Service.on_loop i)
unfolding Service.on_loop
on_loop-Keeps i s u =
    Keeps-bind handled (λ _. received) (λ s' u'. handle_if-Keeps (Service.wants_sband s') s' u')
      received-Keeps (Service.check_health i s) u
  where
    handled : Action (Unit {0})
    handled s = Service.handle_if (Service.wants_sband s) s

    received : Action (Unit {0})
    received = Link.modify (Service.receive i)

    received-Keeps : (a : Unit {0}) → Keeps received
    received-Keeps a s u = by_rssi i.rssi
      where
        by_rssi :
            (r : Option Message)
            → IsUnset (
                Service.read_rssi r (record s {
                  recv_queue =
                      if length i.uplink == 0
                      then s.recv_queue
                      else s.recv_queue ++ (i.uplink ∷ []);
                }))
        by_rssi none = u
        by_rssi (some []) = u
        by_rssi (some (b ∷ [])) = u
        by_rssi (some (b ∷ c ∷ bs)) = u

handle-IsUnset : (e : Event) (s : Radios) → IsUnset s → IsUnset (Service.handle e s)
unfolding Service.handle
handle-IsUnset (loop i) s u = on_loop-Keeps i s u
handle-IsUnset (beacon message) s u = send_beacon-Keeps message s u
handle-IsUnset (response message) s u = send_edl_response-Keeps message s u
handle-IsUnset (write_enable value) s u = u
handle-IsUnset (write_downlink value) s u = u
handle-IsUnset (callback value) s u = should_enable_cb-Keeps value s u

pub run-IsUnset : (es : List Event) (s : Radios) → IsUnset s → IsUnset (Service.run es s)
unfolding Service.run
run-IsUnset [] s u = u
run-IsUnset (e ∷ es) s u = run-IsUnset es (Service.handle e s) (handle-IsUnset e s u)
