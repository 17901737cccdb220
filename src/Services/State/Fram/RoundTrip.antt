-- ===== src/Services/State/Fram/RoundTrip.antt =====
-- oresat_c3/services/state.py: what store_state writes is what restore_state finds.
use oresat_c3_software_esi.Base.{
  ◌≡◌, refl, sym, ap, ◌∙◌, inl, inr, Bool-cases, arith, ℕ, ◌+◌, ◌≤◌, true, false, List, [], ◌∷◌,
  length, map, ◌==◌,
}
use mathlib.Core.Path.{subst}
use oresat_c3_software_esi.Drivers.Fm24cl64b.{Fm24cl64b, size, transferred, slice, splice}
use oresat_c3_software_esi.Drivers.Fm24cl64b.RoundTrip.{
  IsReady, slice-splice, slice_before, length-splice, transferred_quiet, write_quiet,
}
use oresat_c3_software_esi.Services.State.{pre_deploy}
use oresat_c3_software_esi.Services.State.Fram.{
  DataType, domain, octet_string, encoded, FramObj, is_domain, store_objs, store_state,
  restore_state,
}
use oresat_c3_software_esi.Services.State.Fram.Held.{
  width, total, AllKept, restart, recovered, Held, restore_objs-Held,
}

kind_len :
    (d : DataType) (v l : ℕ)
    → is_domain d ≡ false
    → v ≡ l
    → elim d [ domain ↦ 0 | octet_string ↦ l | encoded ↦ v ] ≡ v
kind_len domain v l h e = cc
kind_len octet_string v l h e = sym e
kind_len encoded v l h e = refl

store_domain :
    (o : FramObj) (os : List FramObj) (offset : ℕ) (f : Fm24cl64b)
    → is_domain o.data_type ≡ true
    → store_objs (o ∷ os) offset f ≡ store_objs os offset f
unfolding store_objs
store_domain o os offset f h = rw h refl

-- the chip once the value was written
abbrev pub written : FramObj → ℕ → Fm24cl64b → Fm24cl64b
written o offset f = record (transferred f) { memory = splice offset o.value f.memory }

store_kept :
    (o : FramObj) (os : List FramObj) (offset : ℕ) (f : Fm24cl64b)
    → is_domain o.data_type ≡ false
    → f.bus_errors ≡ []
    → 1 ≤ length o.value
    → length o.value ≡ length o.default
    → offset + length o.value ≤ size
    → store_objs (o ∷ os) offset f ≡ store_objs os (offset + length o.value) (written o offset f)
unfolding store_objs
store_kept o os offset f h q l e b =
    rw (h, write_quiet offset o.value f q l b)
      (ap (λ n. store_objs os (offset + n) (written o offset f))
        (kind_len o.data_type (length o.value) (length o.default) h e))

pub written-IsReady :
    (o : FramObj) (offset : ℕ) (f : Fm24cl64b)
    → IsReady f
    → offset + length o.value ≤ size
    → IsReady (written o offset f)
written-IsReady o offset f v b = record {
  full = length-splice offset o.value f.memory (omega (arith, b, v.full)) ∙ v.full;
  quiet = (transferred_quiet f v.quiet).0;
}

-- The chip `g` after the objects were stored in `f` from `offset` on.
record Stored (os : List FramObj) (offset : ℕ) (f g : Fm24cl64b) : Type 0 where
  ready : IsReady g
  before : (i n : ℕ) → i + n ≤ offset → slice i n g.memory ≡ slice i n f.memory
  held : Held os offset g.memory

StoresAll : List FramObj → ℕ → Fm24cl64b → Type 0
StoresAll os offset f =
    ((store_objs os offset f).0 ≡ true) × Stored os offset f (store_objs os offset f).1

store_next_domain :
    (o : FramObj) (os : List FramObj) (offset : ℕ) (f : Fm24cl64b)
    → is_domain o.data_type ≡ true
    → StoresAll os offset f
    → StoresAll (o ∷ os) offset f
unfolding StoresAll
store_next_domain o os offset f h (done, s) =
    let e : offset ≡ offset + width o = rw h (omega arith) in
    rw (store_domain o os offset f h) (
      done,
      record {
        ready = s.ready;
        before = s.before;
        held = (λ k. cc, subst (λ n. Held os n (store_objs os offset f).1.memory) e s.held);
      },
    )

store_next_kept :
    (o : FramObj) (os : List FramObj) (offset : ℕ) (f : Fm24cl64b)
    → is_domain o.data_type ≡ false
    → IsReady f
    → 1 ≤ length o.value
    → length o.value ≡ length o.default
    → offset + length o.value ≤ size
    → StoresAll os (offset + length o.value) (written o offset f)
    → StoresAll (o ∷ os) offset f
unfolding StoresAll
store_next_kept o os offset f h v l e b (done, s) =
    let inside : offset ≤ length f.memory = omega (arith, b, v.full) in
    let next = (store_objs os (offset + length o.value) (written o offset f)).1 in
    let w : offset + length o.value ≡ offset + width o = rw (h, e) refl in
    rw (store_kept o os offset f h v.quiet l e b) (
      done,
      record {
        ready = s.ready;
        before = λ i n k.
            s.before i n (omega (arith, k)) ∙ slice_before i n offset o.value f.memory k inside;
        held = (
          λ _.
              s.before offset (length o.value) (omega arith)
              ∙ slice-splice offset o.value f.memory inside,
          subst (λ n. Held os n next.memory) w s.held,
        );
      },
    )

store_objs-Stored :
    (os : List FramObj) (offset : ℕ) (f : Fm24cl64b)
    → AllKept os
    → IsReady f
    → offset + total os ≤ size
    → StoresAll os offset f
unfolding StoresAll store_objs
store_objs-Stored [] offset f k v b =
    (refl, record { ready = v; before = λ i n h. refl; held = tt })
store_objs-Stored (o ∷ os) offset f (k, ks) v b = elim (Bool-cases (is_domain o.data_type)) [
  | inl h ↦
      store_next_domain o os offset f h (store_objs-Stored os offset f ks v (omega (arith, b)))
  | inr h ↦
      let (l, e) = k h in
      let w : width o ≡ length o.value = rw h (sym e) in
      let fits : offset + length o.value ≤ size = omega (arith, b, w) in
      store_next_kept o os offset f h v l e fits (
        store_objs-Stored os (offset + length o.value) (written o offset f) ks
          (written-IsReady o offset f v fits) (omega (arith, b, w)))
]

-- Objects whose values are not empty, are as long as their defaults and fit into the chip, stored
-- outside of PRE_DEPLOY in a ready chip: store_state returns, and then restore_state, from objects
-- that have their defaults, returns too and gives each object that is no domain the value that was
-- stored.
pub restore_state-store_state :
    (c3_state : ℕ) (objs : List FramObj) (fram : Fm24cl64b)
    → (c3_state == pre_deploy) ≡ false
    → AllKept objs
    → total objs ≤ size
    → IsReady fram
    → let (stored, fram') = store_state c3_state objs fram in
      let (restored, objs', _) = restore_state (map restart objs) fram' in
      (stored ≡ true) × (restored ≡ true) × (objs' ≡ map recovered objs)
unfolding store_state restore_state StoresAll
restore_state-store_state c3_state objs fram h k b v =
    let (stored, s) = store_objs-Stored objs 0 fram k v (omega (arith, b)) in
    let (restored, same) =
      restore_objs-Held objs 0 (store_objs objs 0 fram).1 k s.ready.quiet (omega (arith, b))
        s.held in
    rw h (stored, restored, same)
