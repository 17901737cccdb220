-- ===== src/Services/NodeFlasher/Cleanup.antt =====
-- oresat_c3/services/node_flasher.py: what is put back after a flash, and that the wait ends.
use oresat_c3_software_esi.Base.{
  ◌≡◌, refl, ap, ◌∙◌, arith, ℕ, Bool, true, false, Option, some, List, [], ◌∷◌, if◌then◌else◌,
  lookup, insert, lookup-insert,
}
use oresat_c3_software_esi.Services.NodeManager.{updating, ManagedNode, NodeManager}
use oresat_c3_software_esi.Services.NodeManager.Control.{set_node_updating, update_node}
use oresat_c3_software_esi.Services.NodeFlasher.{
  Command, Message, pre_operational, stop, clear, start, confirm, wait_for_bootup, download, Env,
  Flasher, Step, then_do, ◌>>◌, answer, send, check, confirm_if, flash, execute_flash,
}

-- what the messages to the node leave alone
record Same (s t : Flasher) : Type 0 where
  manager : t.manager ≡ s.manager
  removed : t.removed ≡ s.removed
  queue : t.queue ≡ s.queue
  send_throttled : t.send_throttled ≡ s.send_throttled

abbrev Keeps : Step → Type 0
Keeps step = (s : Flasher) → Same s (step s).1

answer-Same : (m : Message) (fs : List Bool) (s : Flasher) → Same s (answer m fs s).1
answer-Same m [] s = record { manager = refl; removed = refl; queue = refl; send_throttled = refl }
answer-Same m (true ∷ fs) s = record {
  manager = refl;
  removed = refl;
  queue = refl;
  send_throttled = refl;
}
answer-Same m (false ∷ fs) s = record {
  manager = refl;
  removed = refl;
  queue = refl;
  send_throttled = refl;
}

then_do-Same :
    (s : Flasher) (rest : Step) (out : Bool × Flasher)
    → Keeps rest
    → Same s out.1
    → Same s (then_do rest out).1
then_do-Same s rest (true, t) h e =
    let e' = h t in
    record {
      manager = e'.manager ∙ e.manager;
      removed = e'.removed ∙ e.removed;
      queue = e'.queue ∙ e.queue;
      send_throttled = e'.send_throttled ∙ e.send_throttled;
    }
then_do-Same s rest (false, t) h e = e

send-Keeps : (m : Message) → Keeps (send m)
unfolding send
send-Keeps m s = answer-Same m s.failures s

then-Keeps : (first rest : Step) → Keeps first → Keeps rest → Keeps (first >> rest)
then-Keeps first rest h k s = then_do-Same s rest (first s) k (h s)

check-Keeps : (readings : List (Option ℕ)) → Keeps (check readings)
check-Keeps readings s = record {
  manager = refl;
  removed = refl;
  queue = refl;
  send_throttled = refl;
}

confirm_if-Keeps : (b : Bool) → Keeps (confirm_if b)
confirm_if-Keeps true s =
    then-Keeps (send pre_operational) (send confirm) (send-Keeps pre_operational)
      (send-Keeps confirm) s
confirm_if-Keeps false s = record {
  manager = refl;
  removed = refl;
  queue = refl;
  send_throttled = refl;
}

send_then : (m : Message) (rest : Step) → Keeps rest → Keeps (send m >> rest)
send_then m rest k = then-Keeps (send m) rest (send-Keeps m) k

flash-Keeps : (env : Env) (c : Command) → Keeps (flash env c)
unfolding flash
flash-Keeps env c =
    let r1 : Step = confirm_if c.confirm_image in
    let r2 : Step = send wait_for_bootup >> r1 in
    let r3 : Step = send start >> r2 in
    let r4 : Step = check env.download_status >> r3 in
    let r5 : Step = send (download c.block_transfer c.request_crc) >> r4 in
    let r6 : Step = check env.clear_status >> r5 in
    let r7 : Step = send clear >> r6 in
    let r8 : Step = send stop >> r7 in
    let k2 = send_then wait_for_bootup r1 (confirm_if-Keeps c.confirm_image) in
    let k4 =
      then-Keeps (check env.download_status) r3 (check-Keeps env.download_status)
        (send_then start r2 k2) in
    let k5 = send_then (download c.block_transfer c.request_crc) r4 k4 in
    let k6 = then-Keeps (check env.clear_status) r5 (check-Keeps env.clear_status) k5 in
    send_then pre_operational r8 (send_then stop r7 (send_then clear r6 k6))

-- The state after `finish` on what a run leaves alone.
module _ (env : Env) (c : Command) (name : ℕ) (n : ManagedNode) where
  abbrev flagged : Bool → ManagedNode → ManagedNode
  flagged true m = record m { is_updating = true; status = updating }
  flagged false m = record m { is_updating = false; last_enable = env.clock.mono_enable }

  set_node_updating-flagged :
      (now : Bool) (m : NodeManager) (k : ManagedNode)
      → lookup c.node_id m.node_id_to_name ≡ some name
      → lookup name m.managed ≡ some k
      → set_node_updating env.clock c.node_id now m
        ≡ record m { managed = insert name (flagged now k) m.managed }
  unfolding set_node_updating
  set_node_updating-flagged true m k i e = rw (set_node_updating, i, update_node, e) refl
  set_node_updating-flagged false m k i e = rw (set_node_updating, i, update_node, e) refl

  set_node_updating-lookup :
      (now : Bool) (m : NodeManager) (k : ManagedNode)
      → lookup c.node_id m.node_id_to_name ≡ some name
      → lookup name m.managed ≡ some k
      → (lookup name (set_node_updating env.clock c.node_id now m).managed ≡ some (flagged now k))
        × (lookup c.node_id (set_node_updating env.clock c.node_id now m).node_id_to_name
            ≡ some name)
  set_node_updating-lookup now m k i e =
      rw (set_node_updating-flagged now m k i e)
        (lookup-insert name name (flagged now k) m.managed ∙ ground arith, i)

  -- Once a flash was begun, whatever raises and whatever the status reads, the node is no longer marked
  -- as updating, its boot timeout starts again, the file is deleted unless `os.remove` raises `OSError`,
  -- and `bus.send` and the queue are what they were.
  pub execute_flash-lookup :
      (s : Flasher)
      → env.is_file ≡ true
      → env.is_remote ≡ true
      → env.has_objects ≡ true
      → lookup c.node_id s.manager.node_id_to_name ≡ some name
      → lookup name s.manager.managed ≡ some n
      → let t = execute_flash env c s in
        (lookup name t.manager.managed
          ≡ some (record n {
            status = updating;
            is_updating = false;
            last_enable = env.clock.mono_enable;
          }))
        × (t.removed ≡ (if env.removes then c.filename ∷ s.removed else s.removed))
        × (t.send_throttled ≡ s.send_throttled)
        × (t.queue ≡ s.queue)
  unfolding execute_flash flash
  execute_flash-lookup s f r o i e =
      let s0 = record s {
        send_throttled = if c.throttled then true else s.send_throttled;
        manager = set_node_updating env.clock c.node_id true s.manager;
      } in
      let (e1, i1) = set_node_updating-lookup true s.manager n i e in
      let kept = flash-Keeps env c s0 in
      let t = (flash env c s0).1 in
      let (e2, i2) =
        set_node_updating-lookup false t.manager (flagged true n) (rw kept.manager i1)
          (rw kept.manager e1) in
      rw (execute_flash, f, i, r, o)
        (
          e2,
          ap (λ l. if env.removes then c.filename ∷ l else l) kept.removed,
          ground (arith, kept.send_throttled),
          kept.queue,
        )
