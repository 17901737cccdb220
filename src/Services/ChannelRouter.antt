-- ===== src/Services/ChannelRouter.antt =====
-- oresat_c3/services/channel_router.py and oresat_c3/services/cop_manager.py: the queues of the virtual
-- channels. FARM-1 is a package, whose services are a parameter; a frame that is sent stands for its
-- bytes, and a key of `_farms` has a service and the queue of what it released.
pub mod Routing
mod Tests
use oresat_c3_software_esi.Base.{
  ℕ, ◌+◌, ◌-◌, Bool, true, false, not, ◌&&◌, Option, none, some, List, [], ◌∷◌, ◌++◌, leb, ◌==◌,
  if◌then◌else◌, Dict, lookup, contains, insert,
}
use oresat_c3_software_esi.Protocols.EdlPacket.{idle}
use oresat_c3_software_esi.Protocols.Sdls
use oresat_c3_software_esi.Protocols.Sdls.{TransferFrame, PrimaryHeader, source}
use oresat_c3_software_esi.Protocols.Uslp.{make_frame, unpack_frame}

-- What the package does for a service: a frame that arrives, unless its buffer is full; the frame that
-- it releases to the higher procedure; its control word for a channel.
pub record Farms (Farm : Type 0) : Type 0 where
  pub new_farm : Farm
  pub arrive : TransferFrame → Farm → Option Farm
  pub release : Farm → Option TransferFrame × Farm
  pub clcw : ℕ → Farm → List ℕ
  pub digest : List ℕ → List ℕ → List ℕ
  pub pack_header : PrimaryHeader → List ℕ
  pub tfdf_header : List ℕ
  pub unpack : List ℕ → ℕ → Sdls.Result TransferFrame

pub record CopManager (Farm : Type 0) : Type 0 where
  pub farms : Dict (Farm × List TransferFrame)
  pub recv_queue : List TransferFrame

-- An uplink route has a queue of its own, or is the queue of the COP manager.
pub data Route : Type 0 where
  own : List TransferFrame → Route
  to_cop : Route

pub record ChannelRouter (Farm : Type 0) : Type 0 where
  pub cop : CopManager Farm
  pub uplink_routes : Dict Route
  pub downlink_routes : Dict (List TransferFrame)
  pub last_clcw_time : ℕ
  pub sent : List TransferFrame

-- What a pass finds: the status, the clock and interval in milliseconds, and a message of the radios.
pub record Env : Type 0 where
  pub is_edl : Bool
  pub now : ℕ
  pub clcw_interval : ℕ
  pub message : Option (List ℕ)

-- what the first loop of `on_loop` leaves of the queues
abbrev pub emptied : Dict (List TransferFrame) → Dict (List TransferFrame)
emptied [] = []
emptied ((vcid, queue) ∷ routes) = (vcid, []) ∷ emptied routes

module _ {Farm : Type 0} where
  -- `get_service`
  abbrev pub get_service : ℕ → Dict (Farm × List TransferFrame) → Option Farm
  get_service vcid farms = elim (lookup vcid farms) [ none ↦ none | some entry ↦ some entry.0 ]

module _ {Farm : Type 0} (lib : Farms Farm) where
  -- `_process_farm_lower`
  unfoldable pub process_farm_lower : CopManager Farm → CopManager Farm
  process_farm_lower c = elim c.recv_queue [
    | [] ↦ c
    | frame ∷ frames ↦
        let c' = record c { recv_queue = frames } in
        elim (lookup frame.header.vcid c.farms) [
          | none ↦ c'
          | some entry ↦ elim (lib.arrive frame entry.0) [
            | none ↦ c'
            | some farm ↦ record c' { farms = insert frame.header.vcid (farm, entry.1) c.farms }
          ]
        ]
  ]

  -- one service of `_process_farm_higher`
  abbrev pub put_released :
      List TransferFrame → Option TransferFrame × Farm → Farm × List TransferFrame
  put_released queue (none, farm) = (farm, queue)
  put_released queue (some frame, farm) = (farm, queue ++ (frame ∷ []))

  abbrev pub release_all : Dict (Farm × List TransferFrame) → Dict (Farm × List TransferFrame)
  release_all [] = []
  release_all ((vcid, entry) ∷ farms) =
      (vcid, put_released entry.1 (lib.release entry.0)) ∷ release_all farms

  unfoldable pub process_farm_higher : CopManager Farm → CopManager Farm
  process_farm_higher c = record c { farms = release_all c.farms }

  -- `CopManagerService.on_loop`
  unfoldable pub cop_loop : CopManager Farm → CopManager Farm
  cop_loop c = process_farm_lower (process_farm_higher c)

  unfoldable pub create_farm_service : ℕ → CopManager Farm → CopManager Farm
  create_farm_service vcid c = record c { farms = insert vcid (lib.new_farm, []) c.farms }

  -- none where it raises `KeyError`
  unfoldable pub request_uplink_route : ℕ → Bool → ChannelRouter Farm → Option (ChannelRouter Farm)
  request_uplink_route vcid use_cop r =
      if contains vcid r.uplink_routes
      then none
      else if use_cop
      then some (record r {
        cop = create_farm_service vcid r.cop;
        uplink_routes = insert vcid to_cop r.uplink_routes;
      })
      else some (record r { uplink_routes = insert vcid (own []) r.uplink_routes })

  -- `send_edl_response`
  abbrev pub send_edl_response : TransferFrame → ChannelRouter Farm → ChannelRouter Farm
  send_edl_response msg r = record r { sent = r.sent ++ (msg ∷ []) }

  -- the inner loop, until `get_nowait` raises `Empty`
  unfoldable pub send_queue : List TransferFrame → ChannelRouter Farm → ChannelRouter Farm
  send_queue [] r = r
  send_queue (msg ∷ queue) r = send_queue queue (send_edl_response msg r)

  -- the first loop of `on_loop`
  unfoldable pub send_routes : Dict (List TransferFrame) → ChannelRouter Farm → ChannelRouter Farm
  send_routes [] r = r
  send_routes ((vcid, dl) ∷ routes) r = send_routes routes (send_queue dl r)

  unfoldable pub send_downlinks : ChannelRouter Farm → ChannelRouter Farm
  send_downlinks r = record (send_routes r.downlink_routes r) {
    downlink_routes = emptied r.downlink_routes;
  }

  -- `_get_all_clcw`, each packed
  abbrev pub all_clcw : Dict Route → Dict (Farm × List TransferFrame) → List (List ℕ)
  all_clcw [] farms = []
  all_clcw ((vcid, route) ∷ routes) farms =
      let rest = all_clcw routes farms in
      elim (get_service vcid farms) [ none ↦ rest | some farm ↦ lib.clcw vcid farm ∷ rest ]

  -- an idle frame with a control word
  abbrev pub idle_frame : List ℕ → Sdls.Result TransferFrame
  idle_frame word =
      make_frame lib.digest lib.pack_header lib.tfdf_header (0 ∷ []) idle source none none
        (some word) 0 false false

  abbrev pub send_idle : List (List ℕ) → ChannelRouter Farm → ChannelRouter Farm
  send_idle [] r = r
  send_idle (word ∷ words) r =
      send_idle words
        (elim (idle_frame word) [ Sdls.ok frame ↦ send_edl_response frame r | Sdls.err e ↦ r ])

  unfoldable pub send_clcws : Env → ChannelRouter Farm → ChannelRouter Farm
  send_clcws env r =
      if env.is_edl && leb env.clcw_interval (env.now - r.last_clcw_time)
      then record (send_idle (all_clcw r.uplink_routes r.cop.farms) r) { last_clcw_time = env.now }
      else r

  abbrev pub put_route : ℕ → TransferFrame → Route → ChannelRouter Farm → ChannelRouter Farm
  put_route vcid frame (own queue) r = record r {
    uplink_routes = insert vcid (own (queue ++ (frame ∷ []))) r.uplink_routes;
  }
  put_route vcid frame to_cop r = record r {
    cop = record r.cop { recv_queue = r.cop.recv_queue ++ (frame ∷ []) };
  }

  abbrev pub route_frame : Sdls.Result TransferFrame → ChannelRouter Farm → ChannelRouter Farm
  route_frame (Sdls.err e) r = r
  route_frame (Sdls.ok frame) r = elim (lookup frame.header.vcid r.uplink_routes) [
    | none ↦ r
    | some route ↦ put_route frame.header.vcid frame route r
  ]

  abbrev pub route_message : Option (List ℕ) → ChannelRouter Farm → ChannelRouter Farm
  route_message none r = r
  route_message (some raw) r = route_frame (unpack_frame lib.unpack raw) r

  unfoldable pub on_loop : Env → ChannelRouter Farm → ChannelRouter Farm
  on_loop env r = route_message env.message (send_clcws env (send_downlinks r))

-- `request_downlink_route`, none where it raises `KeyError`
module _ {Farm : Type 0} where
  unfoldable pub request_downlink_route : ℕ → ChannelRouter Farm → Option (ChannelRouter Farm)
  request_downlink_route vcid r =
      if contains vcid r.downlink_routes
      then none
      else some (record r { downlink_routes = insert vcid [] r.downlink_routes })
