-- ===== src/Services/ChannelRouter/Routing.antt =====
-- oresat_c3/services/channel_router.py: where a pass puts the frames.
use oresat_c3_software_esi.Base.{
  ◌≡◌, refl, sym, ap, ◌∙◌, ℕ, ◌-◌, Bool, false, ◌&&◌, Bool-cases, inl, inr, none, some, map, Dict,
  List, [], ◌∷◌, ◌++◌, leb, ◌==◌, if◌then◌else◌, lookup, insert, lookup-insert,
}
use mathlib.Core.List.{append_assoc, append-nil}
use oresat_c3_software_esi.Protocols.EdlPacket.{idle}
use oresat_c3_software_esi.Protocols.Sdls
use oresat_c3_software_esi.Protocols.Sdls.{TransferFrame, source}
use oresat_c3_software_esi.Protocols.Uslp.{frame_header, make_frame, unpack_frame}
use oresat_c3_software_esi.Services.ChannelRouter.{
  Farms, ChannelRouter, Route, Env, own, emptied, all_clcw, send_queue, send_routes, send_idle,
  send_downlinks, send_clcws, route_frame, route_message, on_loop,
}

abbrev pub flatten : {A : Type 0} → List (List A) → List A
flatten [] = []
flatten (xs ∷ xss) = xs ++ flatten xss

abbrev pub queue_of : {A : Type 0} → ℕ × A → A
queue_of entry = entry.1

module _ {Farm : Type 0} (lib : Farms Farm) where
  send_queue-sent :
      (queue : List TransferFrame) (r : ChannelRouter Farm)
      → send_queue lib queue r ≡ record r { sent = r.sent ++ queue }
  unfolding send_queue
  send_queue-sent [] r = ap (λ l. record r { sent = l }) (sym (append-nil r.sent))
  send_queue-sent (msg ∷ queue) r =
      send_queue-sent queue (record r { sent = r.sent ++ (msg ∷ []) })
      ∙ ap (λ l. record r { sent = l }) (append_assoc r.sent (msg ∷ []) queue)

  send_routes-sent :
      (routes : Dict (List TransferFrame)) (r : ChannelRouter Farm)
      → send_routes lib routes r ≡ record r { sent = r.sent ++ flatten (map queue_of routes) }
  unfolding send_routes
  send_routes-sent [] r = ap (λ l. record r { sent = l }) (sym (append-nil r.sent))
  send_routes-sent ((vcid, dl) ∷ routes) r =
      ap (send_routes lib routes) (send_queue-sent dl r)
      ∙ send_routes-sent routes (record r { sent = r.sent ++ dl })
      ∙ ap (λ l. record r { sent = l }) (append_assoc r.sent dl (flatten (map queue_of routes)))

  send_downlinks-sent :
      (r : ChannelRouter Farm)
      → send_downlinks lib r ≡ record r {
        sent = r.sent ++ flatten (map queue_of r.downlink_routes);
        downlink_routes = emptied r.downlink_routes;
      }
  unfolding send_downlinks
  send_downlinks-sent r =
      ap (λ (s : ChannelRouter Farm). record s { downlink_routes = emptied r.downlink_routes })
        (send_routes-sent r.downlink_routes r)

  -- a frame of the idle channel with a control word, unsecured
  abbrev pub idle_with : List ℕ → TransferFrame
  idle_with word = record {
    header = frame_header (0 ∷ []) idle source none (some word) false false 0;
    insert_zone = none;
    tfdf_header = lib.tfdf_header;
    tfdz = 0 ∷ [];
    op_ctrl_field = some word;
  }

  abbrev pub idle_frames : List (List ℕ) → List TransferFrame
  idle_frames words = map idle_with words

  -- the control word of a route, if the COP manager has a service for it
  abbrev pub clcw_of : Dict (Farm × List TransferFrame) → ℕ × Route → List (List ℕ)
  clcw_of farms entry = elim (lookup entry.0 farms) [
    | none ↦ []
    | some farm ↦ lib.clcw entry.0 farm.0 ∷ []
  ]

  -- what the sending leaves alone
  send_idle-sent :
      (words : List (List ℕ)) (r : ChannelRouter Farm)
      → send_idle lib words r ≡ record r { sent = r.sent ++ idle_frames words }
  unfolding make_frame Sdls.get_sdls_len Sdls.spi_of Sdls.apply_sdls
  send_idle-sent [] r = ap (λ l. record r { sent = l }) (sym (append-nil r.sent))
  send_idle-sent (word ∷ words) r =
      let first = idle_frames (word ∷ []) in
      send_idle-sent words (record r { sent = r.sent ++ first })
      ∙ ap (λ l. record r { sent = l }) (append_assoc r.sent first (idle_frames words))

  abbrev pub is_due : Env → ChannelRouter Farm → Bool
  is_due env r = env.is_edl && leb env.clcw_interval (env.now - r.last_clcw_time)

  send_clcws-sent :
      (env : Env) (r : ChannelRouter Farm)
      → ((send_clcws lib env r).sent
          ≡ r.sent
            ++ (if is_due env r
                then idle_frames (all_clcw lib r.uplink_routes r.cop.farms)
                else []))
        × ((send_clcws lib env r).uplink_routes ≡ r.uplink_routes)
        × ((send_clcws lib env r).cop ≡ r.cop)
  unfolding send_clcws
  send_clcws-sent env r =
      let words = all_clcw lib r.uplink_routes r.cop.farms in
      let e = send_idle-sent words r in
      elim (Bool-cases (is_due env r)) [
        | inl d ↦
            rw (send_clcws, d) (ap (λ t. t.sent) e, ap (λ t. t.uplink_routes) e, ap (λ t. t.cop) e)
        | inr d ↦ rw (send_clcws, d) (sym (append-nil r.sent), refl, refl)
      ]

  route_frame-lookup :
      (frame : TransferFrame) (queue : List TransferFrame) (t : ChannelRouter Farm)
      → lookup frame.header.vcid t.uplink_routes ≡ some (own queue)
      → ((vcid : ℕ)
          → lookup vcid (route_frame lib (Sdls.ok frame) t).uplink_routes ≡ (
              if vcid == frame.header.vcid
              then some (own (queue ++ (frame ∷ [])))
              else lookup vcid t.uplink_routes))
        × ((route_frame lib (Sdls.ok frame) t).cop ≡ t.cop)
  route_frame-lookup frame queue t l =
      let q = own (queue ++ (frame ∷ [])) in
      let e : route_frame lib (Sdls.ok frame) t
          ≡ record t { uplink_routes = insert frame.header.vcid q t.uplink_routes } =
        rw (route_frame, l) refl in
      (
        λ vcid.
            ap (λ s. lookup vcid s.uplink_routes) e
            ∙ lookup-insert vcid frame.header.vcid q t.uplink_routes,
        ap (λ s. s.cop) e,
      )

  -- A message that unpacks to a frame of a channel with a queue of its own is put at the end of that
  -- queue, and the other routes and the COP manager are as they were.
  pub on_loop-lookup :
      (env : Env) (raw : List ℕ) (frame : TransferFrame) (queue : List TransferFrame)
      (r : ChannelRouter Farm)
      → env.message ≡ some raw
      → unpack_frame lib.unpack raw ≡ Sdls.ok frame
      → lookup frame.header.vcid r.uplink_routes ≡ some (own queue)
      → ((vcid : ℕ)
          → lookup vcid (on_loop lib env r).uplink_routes ≡ (
              if vcid == frame.header.vcid
              then some (own (queue ++ (frame ∷ [])))
              else lookup vcid r.uplink_routes))
        × ((on_loop lib env r).cop ≡ r.cop)
  unfolding on_loop
  on_loop-lookup env raw frame queue r m u l =
      let (e, routes', cop') = send_clcws-sent env (send_downlinks lib r) in
      let routes = routes' ∙ ap (λ s. s.uplink_routes) (send_downlinks-sent r) in
      let cop = cop' ∙ ap (λ s. s.cop) (send_downlinks-sent r) in
      let t = send_clcws lib env (send_downlinks lib r) in
      let l' = ap (lookup frame.header.vcid) routes ∙ l in
      let routed : on_loop lib env r ≡ route_frame lib (Sdls.ok frame) t =
        ap (λ message. route_message lib message t) m
        ∙ ap (λ unpacked. route_frame lib unpacked t) u in
      let (put, kept) = route_frame-lookup frame queue t l' in
      rw routed (
        λ vcid.
            put vcid
            ∙ ap
                (λ rs.
                  if vcid == frame.header.vcid
                  then some (own (queue ++ (frame ∷ [])))
                  else lookup vcid rs)
                routes,
        kept ∙ cop,
      )
