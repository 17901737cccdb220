-- ===== src/Services/Edl/Rejected.antt =====
-- oresat_c3/services/edl.py: what the loop does with frames that are no command.
use oresat_c3_software_esi.Base.{
  ◌≡◌, refl, ap, ℕ, ◌+◌, ◌%◌, ◌^◌, Bool, true, false, some, List, ◌∷◌, ◌++◌, same,
}
use oresat_c3_software_esi.Protocols.EdlCommand.Struct
use oresat_c3_software_esi.Protocols.EdlCommand.{unpack_request}
use oresat_c3_software_esi.Protocols.EdlPacket.{
  link, command, err, c3_command, from_frame, unpack_payload,
}
use oresat_c3_software_esi.Protocols.Sdls
use oresat_c3_software_esi.Protocols.Sdls.{
  TransferFrame, dest, invalid_hmac, Sdls, sdls_oresat, spi_of, hmac_len, but_last, last_of,
  authenticated, verify_oresat, verify_sdls,
}
use oresat_c3_software_esi.Services.Edl.State.{Packages, EdlService, Env}
use oresat_c3_software_esi.Services.Edl.Frames.{hmac_key, read_frame, frame_to_packet}
use oresat_c3_software_esi.Services.Edl.Loop.{process_command, then_files, on_loop}

module _ {Pdu : Type 0} (lib : Packages Pdu) where
  -- the bytes that the HMAC of a frame is made of, and the HMAC that it has
  abbrev pub hmac_of : List ℕ → TransferFrame → List ℕ → List ℕ
  hmac_of key frame zone = lib.digest key (
      authenticated lib.digest lib.pack_header frame.header zone
        (but_last hmac_len (frame.tfdf_header ++ frame.tfdz)))

  read_frame_forged :
      (frame : TransferFrame) (key zone : List ℕ) (ignore_hmac : Bool)
      → spi_of frame.header.vcid ≡ some sdls_oresat
      → frame.insert_zone ≡ some zone
      → same (hmac_of key frame zone) (last_of hmac_len frame.tfdz) ≡ false
      → read_frame lib frame key ignore_hmac ≡ err (link invalid_hmac)
  unfolding from_frame verify_sdls verify_oresat
  read_frame_forged frame key zone ignore_hmac v z h =
      rw (from_frame, verify_sdls, v, verify_oresat, z, h) refl

  -- A frame on the command channel without the HMAC that the active key gives, in flight mode or not,
  -- is taken off the queue and counted, and changes nothing else: no command runs and nothing is sent.
  pub process_command_forged :
      (env : Env) (frame : TransferFrame) (frames : List TransferFrame) (key zone : List ℕ)
      (s : EdlService Pdu)
      → s.cmd_uplink ≡ frame ∷ frames
      → hmac_key lib s ≡ some key
      → spi_of frame.header.vcid ≡ some sdls_oresat
      → frame.insert_zone ≡ some zone
      → same (hmac_of key frame zone) (last_of hmac_len frame.tfdz) ≡ false
      → process_command lib env s
        ≡ (true, record s { cmd_uplink = frames; rejected_count = (s.rejected_count + 1) % 2 ^ 32 })
  unfolding process_command frame_to_packet
  process_command_forged env frame frames key zone s q k v z h =
      rw (process_command, q, frame_to_packet, k, read_frame_forged frame key zone _ v z h) refl

  read_frame_malformed :
      (frame opened : TransferFrame) (key : List ℕ) (ignore_hmac : Bool) (n : ℕ) (e : Struct.Error)
      → verify_sdls lib.digest lib.pack_header frame (some key) ≡ (Sdls.ok n, opened)
      → opened.header.vcid ≡ c3_command
      → opened.header.src_dest ≡ dest
      → unpack_request opened.tfdz ≡ Struct.err e
      → read_frame lib frame key ignore_hmac ≡ err (command e)
  unfolding from_frame unpack_payload
  read_frame_malformed frame opened key ignore_hmac n e v c d u =
      rw (from_frame, v, unpack_payload, c, d, u) refl

  process_command_malformed :
      (env : Env) (frame opened : TransferFrame) (frames : List TransferFrame) (key : List ℕ)
      (n : ℕ) (e : Struct.Error) (s : EdlService Pdu)
      → s.cmd_uplink ≡ frame ∷ frames
      → hmac_key lib s ≡ some key
      → verify_sdls lib.digest lib.pack_header frame (some key) ≡ (Sdls.ok n, opened)
      → opened.header.vcid ≡ c3_command
      → opened.header.src_dest ≡ dest
      → unpack_request opened.tfdz ≡ Struct.err e
      → process_command lib env s ≡ (false, record s { cmd_uplink = frames })
  unfolding process_command frame_to_packet
  process_command_malformed env frame opened frames key n e s q k v c d u =
      rw
        (
          process_command,
          q,
          frame_to_packet,
          k,
          read_frame_malformed frame opened key _ n e v c d u,
        )
        refl

  -- An authenticated frame whose payload does not unpack as a request raises out of `on_loop`: the
  -- frame is gone, `rejected_count` is what it was, and the files are not looked at.
  pub on_loop_malformed :
      (env : Env) (frame opened : TransferFrame) (frames : List TransferFrame) (key : List ℕ)
      (n : ℕ) (e : Struct.Error) (s : EdlService Pdu)
      → s.cmd_uplink ≡ frame ∷ frames
      → hmac_key lib s ≡ some key
      → verify_sdls lib.digest lib.pack_header frame (some key) ≡ (Sdls.ok n, opened)
      → opened.header.vcid ≡ c3_command
      → opened.header.src_dest ≡ dest
      → unpack_request opened.tfdz ≡ Struct.err e
      → on_loop lib env s ≡ (false, record s { cmd_uplink = frames })
  unfolding on_loop
  on_loop_malformed env frame opened frames key n e s q k v c d u =
      ap (then_files lib env)
        (process_command_malformed env frame opened frames key n e s q k v c d u)
