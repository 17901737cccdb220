-- ===== src/Services/ChannelRouter/Tests.antt =====
-- oresat_c3/services/channel_router.py: runs at fixed values.
use oresat_c3_software_esi.Base.{◌≡◌, refl, ℕ, true, Option, none, some, List, [], ◌∷◌}
use oresat_c3_software_esi.Protocols.Sample.{digest, pack_header, tfdf_header, plain}
use oresat_c3_software_esi.Protocols.Sdls
use oresat_c3_software_esi.Protocols.Sdls.{TransferFrame}
use oresat_c3_software_esi.Protocols.Uslp.{unpack_frame}
use oresat_c3_software_esi.Services.ChannelRouter.{
  Farms, ChannelRouter, Env, own, to_cop, cop_loop, process_farm_lower, process_farm_higher,
  request_uplink_route,
}

-- a service that has at most one frame, and whose control word is the number of its frames
abbrev release_first : List TransferFrame → Option TransferFrame × List TransferFrame
release_first [] = (none, [])
release_first (frame ∷ frames) = (some frame, frames)

abbrev arrive_empty : TransferFrame → List TransferFrame → Option (List TransferFrame)
arrive_empty frame [] = some (frame ∷ [])
arrive_empty frame (f ∷ frames) = none

abbrev lib : Farms (List TransferFrame)
lib = record {
  new_farm = [];
  arrive = arrive_empty;
  release = release_first;
  clcw = λ vcid farm. vcid ∷ 0 ∷ 0 ∷ 0 ∷ [];
  digest = digest;
  pack_header = pack_header;
  tfdf_header = tfdf_header;
  unpack = λ raw len. Sdls.ok plain;
}

abbrev router : ChannelRouter (List TransferFrame)
router = record {
  cop = record { farms = (1, ([], [])) ∷ []; recv_queue = [] };
  uplink_routes = (0, own []) ∷ (1, to_cop) ∷ [];
  downlink_routes = (0, plain ∷ []) ∷ (1, []) ∷ [];
  last_clcw_time = 0;
  sent = [];
}

abbrev raw : List ℕ
raw = 0xC4 ∷ 0xF5 ∷ 0x38 ∷ 0 ∷ 0 ∷ 0 ∷ 0 ∷ 0 ∷ 0 ∷ 0 ∷ 0 ∷ []

abbrev env : Env
env = record { is_edl = true; now = 5000; clcw_interval = 1000; message = some raw }

unpacked : unpack_frame lib.unpack raw ≡ Sdls.ok plain
unfolding unpack_frame Sdls.get_sdls_header_len Sdls.spi_of
unpacked = refl

-- A frame that arrives at a service is released to its queue in the next pass.
released :
    (cop_loop lib
      (cop_loop lib (record { farms = (0, ([], [])) ∷ []; recv_queue = plain ∷ [] }))).farms
    ≡ (0, ([], plain ∷ [])) ∷ []
unfolding cop_loop process_farm_lower process_farm_higher
released = refl

-- A channel is routed once.
claimed : request_uplink_route lib 1 true router ≡ none
unfolding request_uplink_route
claimed = refl
