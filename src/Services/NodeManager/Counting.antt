-- ===== src/Services/NodeManager/Counting.antt =====
-- oresat_c3/services/node_manager.py: the counters that `on_loop` writes.
use oresat_c3_software_esi.Base.{
  ◌≡◌, refl, arith, ℕ, suc, ◌+◌, ◌≤◌, true, false, Bool-cases, inl, inr, Option, none, some,
  Option-cases, List, [], ◌∷◌, length, ◌==◌, if◌then◌else◌, Dict, contains,
}
use oresat_c3_software_esi.Subsystems.Opd.System.{Opd}
use oresat_c3_software_esi.Services.NodeManager.Monitor.{monitor, observe, also, count, counted}
use oresat_c3_software_esi.Services.NodeManager.{
  NodeState, off, boot, on, error, not_found, bootloader, updating, dead, ManagedNode, Counts, Env,
  c3,
}

-- The number of entries of the flight computer itself.
abbrev pub own_entries : Dict ManagedNode → ℕ
own_entries [] = 0
own_entries (entry ∷ rest) = let n = own_entries rest in if entry.0 == c3 then suc n else n

-- The six counters together.
abbrev pub total : Counts → ℕ
total c =
    c.nodes_off + c.nodes_booting + c.nodes_on + c.nodes_with_errors + c.nodes_not_found
    + c.nodes_dead

total-counted :
    (states : List NodeState) → total (counted states) + count bootloader states ≡ length states
total-counted [] = refl
total-counted (off ∷ states) = omega (arith, total-counted states)
total-counted (boot ∷ states) = omega (arith, total-counted states)
total-counted (on ∷ states) = omega (arith, total-counted states)
total-counted (error ∷ states) = omega (arith, total-counted states)
total-counted (not_found ∷ states) = omega (arith, total-counted states)
total-counted (bootloader ∷ states) = omega (arith, total-counted states)
total-counted (updating ∷ states) = omega (arith, total-counted states)
total-counted (dead ∷ states) = omega (arith, total-counted states)

also-some :
    (state : NodeState) (r : Option (List NodeState)) (states : List NodeState)
    → also state r ≡ some states
    → (rest : List NodeState) × (r ≡ some rest) × (length states ≡ suc (length rest))
also-some state none states h = ground arith
also-some state (some rest) states h = (rest, refl, ground (arith, h))

monitor-length :
    (envs : ℕ → Env) (managed : Dict ManagedNode) (opd : Opd) (states : List NodeState)
    → (monitor envs managed opd).0 ≡ some states
    → length states + own_entries managed ≡ length managed
unfolding monitor
monitor-length envs [] opd states h = ground arith
monitor-length envs ((name, node) ∷ rest) opd states h = elim (Bool-cases (name == c3)) [
  | inl e ↦
      let h' : (monitor envs rest opd).0 ≡ some states = rw (monitor, e) at h in
      ground (arith, e, monitor-length envs rest opd states h')
  | inr e ↦ elim (Option-cases (observe (envs name) name node opd).0) [
    | inl q ↦ let h' : none ≡ some states = rw (monitor, e, q) at h in ground arith
    | inr (s, q) ↦
        let opd' = (observe (envs name) name node opd).1 in
        let h' : also s (monitor envs rest opd').0 ≡ some states = rw (monitor, e, q) at h in
        let (states', r, n) = also-some s (monitor envs rest opd').0 states h' in
        ground (arith, e, n, monitor-length envs rest opd' states' r)
  ]
]

-- In a first loop that does not raise, the six counters, the nodes found in BOOTLOADER, which no
-- counter counts, and the entry of the flight computer itself are all the nodes.
pub monitor-counted :
    (envs : ℕ → Env) (managed : Dict ManagedNode) (opd : Opd) (states : List NodeState)
    → (monitor envs managed opd).0 ≡ some states
    → total (counted states) + count bootloader states + own_entries managed ≡ length managed
monitor-counted envs managed opd states h =
    omega (arith, total-counted states, monitor-length envs managed opd states h)

contains-own_entries :
    (managed : Dict ManagedNode) → contains c3 managed ≡ true → 1 ≤ own_entries managed
contains-own_entries [] h = ground arith
contains-own_entries (entry ∷ rest) h = elim (Bool-cases (entry.0 == c3)) [
  | inl e ↦ ground (arith, e)
  | inr e ↦
      let h' : contains c3 rest ≡ true = rw e at h in
      ground (arith, e, contains-own_entries rest h')
]

-- Where the flight computer itself is an entry, a first loop that does not raise never finds as
-- many nodes missing as there are entries.
pub monitor-not_found :
    (envs : ℕ → Env) (managed : Dict ManagedNode) (opd : Opd) (states : List NodeState)
    → contains c3 managed ≡ true
    → (monitor envs managed opd).0 ≡ some states
    → ((counted states).nodes_not_found == length managed) ≡ false
monitor-not_found envs managed opd states c h =
    ground (arith, monitor-counted envs managed opd states h, contains-own_entries managed c)
