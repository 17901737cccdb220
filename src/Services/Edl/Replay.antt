-- ===== src/Services/Edl/Replay.antt =====
-- oresat_c3/services/edl.py: the sequence numbers that `_frame_to_packet` takes.
use oresat_c3_software_esi.Base.{
  ◌≡◌, refl, ap, ◌∙◌, arith, ℕ, ◌≤◌, ◌<◌, true, false, some, List, [], ◌∷◌, Option-cases, inl, inr,
}
use mathlib.Core.Path.{subst}
use oresat_c3_software_esi.Protocols.EdlPacket.{
  EdlPacket, edl_packet_error, link, command, Result, ok, err,
}
use oresat_c3_software_esi.Protocols.Sdls.{TransferFrame}
use oresat_c3_software_esi.Services.Edl.Numbers.{zoned, all_zoned, read_frame-bound}
use oresat_c3_software_esi.Services.Edl.State.{Packages, EdlService}
use oresat_c3_software_esi.Services.Edl.Frames.{
  Received, packet, rejected, raised, hmac_key, read_frame, accept, receive, frame_to_packet,
}

module _ {Pdu : Type 0} (lib : Packages Pdu) where
  -- the frames of one channel, one after the other, and the packets that came out
  abbrev kept_packet : Received Pdu → List (EdlPacket Pdu) → List (EdlPacket Pdu)
  kept_packet (packet p) ps = p ∷ ps
  kept_packet _ ps = ps

  abbrev pub frames_to_packets :
      ℕ → List TransferFrame → EdlService Pdu → List (EdlPacket Pdu) × EdlService Pdu
  frames_to_packets time [] s = ([], s)
  frames_to_packets time (frame ∷ frames) s =
      let (r, s') = frame_to_packet lib time frame s in
      let (ps, s'') = frames_to_packets time frames s' in (kept_packet r ps, s'')

  -- The numbers ascend from `n`, with repetitions, to `m`.
  pub data Ascends : ℕ → List (EdlPacket Pdu) → ℕ → Type 0 where
    stays : {n : ℕ} → Ascends n [] n
    goes_on :
        {n m : ℕ} {p : EdlPacket Pdu} {ps : List (EdlPacket Pdu)}
        → n ≤ p.seq_num
        → Ascends p.seq_num ps m
        → Ascends n (p ∷ ps) m

  -- how `_frame_to_packet` ends in flight mode
  abbrev Ends : EdlService Pdu → Received Pdu × EdlService Pdu → Type 0
  Ends s (packet p, t) =
      (s.sequence_count ≤ p.seq_num) × (t.sequence_count ≡ p.seq_num) × (t.flight_mode ≡ true)
  Ends s (_, t) = (t.sequence_count ≡ s.sequence_count) × (t.flight_mode ≡ true)

  accept-Ends :
      (time : ℕ) (p : EdlPacket Pdu) (s : EdlService Pdu)
      → s.flight_mode ≡ true
      → p.seq_num < 0x100000000
      → Ends s (accept lib time p s)
  unfolding accept
  accept-Ends time p s f h = ground (arith, f, h)

  receive-Ends :
      (time : ℕ) (r : Result (EdlPacket Pdu)) (s : EdlService Pdu)
      → s.flight_mode ≡ true
      → ((p : EdlPacket Pdu) → r ≡ ok p → p.seq_num < 0x100000000)
      → Ends s (receive lib time r s)
  receive-Ends time (ok p) s f h = accept-Ends time p s f (h p refl)
  receive-Ends time (err edl_packet_error) s f h = (refl, f)
  receive-Ends time (err (link e)) s f h = ground (arith, f)
  receive-Ends time (err (command e)) s f h = ground (arith, f)

  frame_to_packet-Ends :
      (time : ℕ) (frame : TransferFrame) (s : EdlService Pdu)
      → s.flight_mode ≡ true
      → zoned frame.insert_zone ≡ true
      → Ends s (frame_to_packet lib time frame s)
  unfolding frame_to_packet
  frame_to_packet-Ends time frame s f h = elim (Option-cases (hmac_key lib s)) [
    | inl k ↦ rw (frame_to_packet, k) (refl, f)
    | inr (key, k) ↦
        rw (frame_to_packet, k)
          (receive-Ends time _ s f (λ p e. read_frame-bound lib frame key _ p h e))
  ]

  next-Ascends :
      (s : EdlService Pdu) (out : Received Pdu × EdlService Pdu) (ps : List (EdlPacket Pdu)) (m : ℕ)
      → Ends s out
      → Ascends out.1.sequence_count ps m
      → Ascends s.sequence_count (kept_packet out.0 ps) m
  next-Ascends s (packet p, t) ps m (n, e, f) h = goes_on n (subst (λ k. Ascends k ps m) e h)
  next-Ascends s (rejected, t) ps m (e, f) h = subst (λ k. Ascends k ps m) e h
  next-Ascends s (raised, t) ps m (e, f) h = subst (λ k. Ascends k ps m) e h

  Ends-in_flight :
      (s : EdlService Pdu) (out : Received Pdu × EdlService Pdu)
      → Ends s out
      → out.1.flight_mode ≡ true
  Ends-in_flight s (packet p, t) (n, e, f) = f
  Ends-in_flight s (rejected, t) (e, f) = f
  Ends-in_flight s (raised, t) (e, f) = f

  -- In flight mode, over any frames with a security header of six bytes, the numbers of the packets
  -- that `_frame_to_packet` returns ascend, with repetitions, from the sequence count before to the
  -- one after; and flight mode stays on.
  pub frames_to_packets-Ascends :
      (time : ℕ) (frames : List TransferFrame) (s : EdlService Pdu)
      → s.flight_mode ≡ true
      → all_zoned frames ≡ true
      → Ascends s.sequence_count
          (frames_to_packets time frames s).0
          (frames_to_packets time frames s).1.sequence_count
        × ((frames_to_packets time frames s).1.flight_mode ≡ true)
  frames_to_packets-Ascends time [] s f h = (stays, f)
  frames_to_packets-Ascends time (frame ∷ frames) s f h =
      let out = frame_to_packet lib time frame s in
      let ends = frame_to_packet-Ends time frame s f (ground (arith, h)) in
      let (rest, f') =
        frames_to_packets-Ascends time frames out.1 (Ends-in_flight s out ends)
          (ground (arith, h)) in
      (next-Ascends s out _ _ ends rest, f')

  frame_to_packet-receive :
      (time : ℕ) (frame : TransferFrame) (s : EdlService Pdu) (key : List ℕ)
      → hmac_key lib s ≡ some key
      → s.flight_mode ≡ true
      → frame_to_packet lib time frame s ≡ receive lib time (read_frame lib frame key false) s
  unfolding frame_to_packet
  frame_to_packet-receive time frame s key k f = rw (frame_to_packet, k, f) refl

  receive_again :
      (time time' : ℕ) (r : Result (EdlPacket Pdu)) (p : EdlPacket Pdu) (s : EdlService Pdu)
      → s.flight_mode ≡ true
      → ((q : EdlPacket Pdu) → r ≡ ok q → q.seq_num < 0x100000000)
      → (receive lib time r s).0 ≡ packet p
      → (hmac_key lib (receive lib time r s).1 ≡ hmac_key lib s)
        × ((receive lib time r s).1.flight_mode ≡ true)
        × ((receive lib time' r (receive lib time r s).1).0 ≡ packet p)
  unfolding accept
  receive_again time time' (ok q) p s f h e = ground (arith, f, h q refl, e)
  receive_again time time' (err x) p s f h e = ground (arith, e)

  -- A frame that was taken in flight mode, with a security header of six bytes, is taken again when it
  -- comes again, whatever the time: it gives the same packet.
  pub frame_to_packet-frame_to_packet :
      (time time' : ℕ) (frame : TransferFrame) (p : EdlPacket Pdu) (s : EdlService Pdu)
      → s.flight_mode ≡ true
      → zoned frame.insert_zone ≡ true
      → (frame_to_packet lib time frame s).0 ≡ packet p
      → (frame_to_packet lib time' frame (frame_to_packet lib time frame s).1).0 ≡ packet p
  unfolding frame_to_packet
  frame_to_packet-frame_to_packet time time' frame p s f h e =
      elim (Option-cases (hmac_key lib s)) [
        | inl k ↦
            let e' : ◌≡◌ {A = Received Pdu} raised (packet p) = rw (frame_to_packet, k) at e in
            ground (arith, e')
        | inr (key, k) ↦
            let step = frame_to_packet-receive time frame s key k f in
            let r = read_frame lib frame key false in
            let (k', f', again) =
              receive_again time time' r p s f (λ q. read_frame-bound lib frame key false q h)
                (rw step at e) in
            let s' = (receive lib time r s).1 in
            rw step
              (ap (λ out. out.0) (frame_to_packet-receive time' frame s' key (k' ∙ k) f') ∙ again)
      ]
