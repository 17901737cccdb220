-- ===== src/Services/NodeFlasher.antt =====
-- oresat_c3/services/node_flasher.py: class NodeFlasherService, which flashes an image to a node.
pub mod Order
pub mod Cleanup
mod Tests
use oresat_c3_software_esi.Base.{
  ℕ, Bool, true, false, not, Option, none, some, List, [], ◌∷◌, ◌++◌, ◌==◌, if◌then◌else◌, lookup,
}
use oresat_c3_software_esi.Services.NodeManager
use oresat_c3_software_esi.Services.NodeManager.{NodeManager}
use oresat_c3_software_esi.Services.NodeManager.Control.{set_node_updating}

-- an entry of `command_queue`
pub record Command : Type 0 where
  pub node_id : ℕ
  pub filename : ℕ
  pub throttled : Bool
  pub block_transfer : Bool
  pub request_crc : Bool
  pub confirm_image : Bool

-- What goes to the node: the NMT state, writes to PROGRAM_CTRL, the image, and the wait for bootup.
pub data Message : Type 0 where
  pre_operational stop clear start confirm wait_for_bootup : Message
  download : Bool → Bool → Message

-- What the rest answers: whether the image is a file, the node is remote and has the objects; for each
-- message in turn whether it raises; and the readings of the flash status in the two waits, of which
-- the later ones are taken half a second apart until the timeout. None is a reading that raises.
pub record Env : Type 0 where
  pub is_file : Bool
  pub is_remote : Bool
  -- `os.remove` raises no `OSError`
  pub removes : Bool
  pub has_objects : Bool
  pub failures : List Bool
  pub clear_status : List (Option ℕ)
  pub download_status : List (Option ℕ)
  pub clock : NodeManager.Env

-- `sent` has the messages that went through, in order; `send_throttled` says that `bus.send` is
-- replaced, and `removed` has the files that were deleted.
pub record Flasher : Type 0 where
  pub manager : NodeManager
  pub queue : List Command
  pub sent : List Message
  pub failures : List Bool
  pub send_throttled : Bool
  pub removed : List ℕ

-- A step returns whether it did not raise.
abbrev pub Step : Type 0
Step = Flasher → Bool × Flasher

abbrev pub then_do : Step → Bool × Flasher → Bool × Flasher
then_do next (true, s) = next s
then_do next (false, s) = (false, s)

infixr 5 ◌>>◌
abbrev pub ◌>>◌ : Step → Step → Step
(first >> next) s = then_do next (first s)

abbrev pub answer : Message → List Bool → Step
answer m [] s = (true, record s { sent = s.sent ++ (m ∷ []) })
answer m (true ∷ fs) s = (false, record s { failures = fs })
answer m (false ∷ fs) s = (true, record s { sent = s.sent ++ (m ∷ []); failures = fs })

unfoldable pub send : Message → Step
send m s = answer m s.failures s

-- `_wait_flash_status_ok`: the status it returns, none where a reading raises. The list ends where the
-- time is up.
unfoldable pub wait_flash_status_ok : ℕ → List (Option ℕ) → Option ℕ
wait_flash_status_ok status [] = some status
wait_flash_status_ok status (r ∷ readings) = elim (status == 0) [
  | true ↦ some status
  | false ↦ elim r [ none ↦ none | some n ↦ wait_flash_status_ok n readings ]
]

abbrev pub first_reading : List (Option ℕ) → Option ℕ
first_reading [] = none
first_reading (none ∷ readings) = none
first_reading (some status ∷ readings) = wait_flash_status_ok status readings

-- `if … != FLASH_STATUS_OK: raise`
abbrev pub is_ok : Option ℕ → Bool
is_ok none = false
is_ok (some status) = status == 0

abbrev pub check : List (Option ℕ) → Step
check readings s = (is_ok (first_reading readings), s)

abbrev pub confirm_if : Bool → Step
confirm_if false s = (true, s)
confirm_if true s = (send pre_operational >> send confirm) s

-- the `try` of `_execute_flash`, after the node was marked
unfoldable pub flash : Env → Command → Step
flash env c =
    send pre_operational
    >> send stop
    >> send clear
    >> check env.clear_status
    >> send (download c.block_transfer c.request_crc)
    >> check env.download_status
    >> send start
    >> send wait_for_bootup
    >> confirm_if c.confirm_image

abbrev mark : Env → ℕ → Bool → Flasher → Flasher
mark env node_id now s = record s { manager = set_node_updating env.clock node_id now s.manager }

-- the `finally`; `original` is what `bus.send` was before
abbrev pub finish : Env → Command → Bool → Flasher → Flasher
finish env c original s = record (mark env c.node_id false s) {
  send_throttled = if c.throttled then original else s.send_throttled;
  removed = if env.removes then c.filename ∷ s.removed else s.removed;
}

-- `_execute_flash`; a raise before the `try` is caught by `on_loop`.
unfoldable pub execute_flash : Env → Command → Flasher → Flasher
execute_flash env c s =
    if not env.is_file then s else elim (lookup c.node_id s.manager.node_id_to_name) [
      | none ↦ s
      | some name ↦
          if not env.is_remote
          then s
          else if not env.has_objects
          then s
          else let started =
              mark env c.node_id true
                (record s { send_throttled = if c.throttled then true else s.send_throttled }) in
            finish env c s.send_throttled (flash env c started).1
    ]

-- `enqueue_flash`, with the defaults of the service for what is none
abbrev pub or_default : Bool → Option Bool → Bool
or_default b none = b
or_default b (some given) = given

unfoldable pub enqueue_flash :
    Bool
    → Bool
    → Bool
    → Bool
    → ℕ
    → ℕ
    → Option Bool
    → Option Bool
    → Option Bool
    → Option Bool
    → Flasher
    → Flasher
enqueue_flash throttle block crc image node_id filename throttled block_transfer request_crc
      confirm_image s =
    let c : Command = record {
      node_id = node_id;
      filename = filename;
      throttled = or_default throttle throttled;
      block_transfer = or_default block block_transfer;
      request_crc = or_default crc request_crc;
      confirm_image = or_default image confirm_image;
    } in
    record s { queue = s.queue ++ (c ∷ []) }

abbrev next_command : Env → List Command → Flasher → Flasher
next_command env [] s = s
next_command env (c ∷ queue) s = execute_flash env c (record s { queue = queue })

unfoldable pub on_loop : Env → Flasher → Flasher
on_loop env s = next_command env s.queue (record s { failures = env.failures })
