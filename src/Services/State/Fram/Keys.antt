-- ===== src/Services/State/Fram/Keys.antt =====
-- oresat_c3/services/state.py: what restore_state finds after clear_state.
use oresat_c3_software_esi.Base.{
  ◌≡◌, refl, sym, ap, ◌∙◌, inl, inr, Bool-cases, arith, ℕ, ◌+◌, ◌/◌, ◌≤◌, true, false, List, [],
  ◌∷◌, length, length-replicate, replicate, drop, map,
}
use mathlib.Core.Path.{subst}
use oresat_c3_software_esi.Drivers.Fm24cl64b.{Fm24cl64b, size, transferred, slice, splice, clear}
use oresat_c3_software_esi.Drivers.Fm24cl64b.RoundTrip.{
  IsReady, slice-splice, slice_before, length-splice, transferred_quiet, write_quiet,
}
use oresat_c3_software_esi.Services.State.Fram.{
  FramObj, is_domain, restore_objs, restore_state, store_keys, clear_state,
}
use oresat_c3_software_esi.Services.State.Fram.Held.{
  width, total, AllKept, restart, recovered, Held, restore_objs-Held,
}
use oresat_c3_software_esi.Services.State.Fram.RoundTrip.{written, written-IsReady}
use oresat_c3_software_esi.Services.State.Fram.Zeroed.{
  zeroed, ZeroFrom, slice-replicate, zeroed_other, zeroed_key, restart-zeroed, zeroed-AllKept,
  total-zeroed, written-ZeroFrom,
}

-- The chip `g` after the keys were stored in `f` from `offset` on.
record Cleared (os : List FramObj) (offset : ℕ) (f g : Fm24cl64b) : Type 0 where
  ready : IsReady g
  before : (i n : ℕ) → i + n ≤ offset → slice i n g.memory ≡ slice i n f.memory
  held : Held (map zeroed os) offset g.memory

StoresKeys : List FramObj → ℕ → Fm24cl64b → Type 0
StoresKeys os offset f =
    ((store_keys os offset f).0 ≡ true) × Cleared os offset f (store_keys os offset f).1

keys_domain :
    (o : FramObj) (os : List FramObj) (offset : ℕ) (f : Fm24cl64b)
    → is_domain o.data_type ≡ true
    → StoresKeys os offset f
    → StoresKeys (o ∷ os) offset f
unfolding StoresKeys store_keys
keys_domain o os offset f h (done, s) =
    let e : offset ≡ offset + width o = rw h (omega arith) in
    rw h (
      done,
      record {
        ready = s.ready;
        before = s.before;
        held = (
          λ k. cc,
          subst (λ n. Held (map zeroed os) n (store_keys os offset f).1.memory) e s.held,
        );
      },
    )

store_other :
    (o : FramObj) (os : List FramObj) (offset : ℕ) (f : Fm24cl64b)
    → is_domain o.data_type ≡ false
    → o.is_key ≡ false
    → length o.value ≡ length o.default
    → store_keys (o ∷ os) offset f ≡ store_keys os (offset + length o.default) f
unfolding store_keys
store_other o os offset f h k e = rw (h, k, e) refl

store_key :
    (o : FramObj) (os : List FramObj) (offset : ℕ) (f : Fm24cl64b)
    → is_domain o.data_type ≡ false
    → o.is_key ≡ true
    → f.bus_errors ≡ []
    → 1 ≤ length o.value
    → length o.value ≡ length o.default
    → offset + length o.value ≤ size
    → store_keys (o ∷ os) offset f ≡ store_keys os (offset + length o.value) (written o offset f)
unfolding store_keys
store_key o os offset f h k q l e b = rw (h, k, write_quiet offset o.value f q l b, sym e) refl

keys_other :
    (o : FramObj) (os : List FramObj) (offset : ℕ) (f : Fm24cl64b)
    → is_domain o.data_type ≡ false
    → o.is_key ≡ false
    → length o.value ≡ length o.default
    → offset + length o.default ≤ size / 2
    → ZeroFrom offset f.memory
    → StoresKeys os (offset + length o.default) f
    → StoresKeys (o ∷ os) offset f
unfolding StoresKeys
keys_other o os offset f h k e b z (done, s) =
    let l = length o.default in
    let zeros : List ℕ = replicate l 0 in
    let len : length zeros ≡ l = length-replicate {A = ℕ} l 0 in
    let next = (store_keys os (offset + l) f).1 in
    let w : offset + l ≡ offset + width o = rw h refl in
    let found : slice offset (length zeros) next.memory ≡ zeros =
      ap (λ n. slice offset n next.memory) len
      ∙ s.before offset l (omega arith)
      ∙ z offset l (omega arith) (omega (arith, b)) in
    let kept : slice offset (length (zeroed o).value) next.memory ≡ (zeroed o).value =
      subst (λ v. slice offset (length v) next.memory ≡ v) (sym (zeroed_other o k)) found in
    rw (store_other o os offset f h k e) (
      done,
      record {
        ready = s.ready;
        before = λ i n j. s.before i n (omega (arith, j));
        held = (λ _. kept, subst (λ n. Held (map zeroed os) n next.memory) w s.held);
      },
    )

keys_key :
    (o : FramObj) (os : List FramObj) (offset : ℕ) (f : Fm24cl64b)
    → is_domain o.data_type ≡ false
    → o.is_key ≡ true
    → IsReady f
    → 1 ≤ length o.value
    → length o.value ≡ length o.default
    → offset + length o.value ≤ size
    → StoresKeys os (offset + length o.value) (written o offset f)
    → StoresKeys (o ∷ os) offset f
unfolding StoresKeys
keys_key o os offset f h k v l e b (done, s) =
    let inside : offset ≤ length f.memory = omega (arith, b, v.full) in
    let next = (store_keys os (offset + length o.value) (written o offset f)).1 in
    let w : offset + length o.value ≡ offset + width o = rw (h, e) refl in
    let found : slice offset (length o.value) next.memory ≡ o.value =
      s.before offset (length o.value) (omega arith)
      ∙ slice-splice offset o.value f.memory inside in
    let kept : slice offset (length (zeroed o).value) next.memory ≡ (zeroed o).value =
      subst (λ v. slice offset (length v) next.memory ≡ v) (sym (zeroed_key o k)) found in
    rw (store_key o os offset f h k v.quiet l e b) (
      done,
      record {
        ready = s.ready;
        before = λ i n j.
            s.before i n (omega (arith, j)) ∙ slice_before i n offset o.value f.memory j inside;
        held = (λ _. kept, subst (λ n. Held (map zeroed os) n next.memory) w s.held);
      },
    )

store_keys-Cleared :
    (os : List FramObj) (offset : ℕ) (f : Fm24cl64b)
    → AllKept os
    → IsReady f
    → ZeroFrom offset f.memory
    → offset + total os ≤ size / 2
    → StoresKeys os offset f
unfolding StoresKeys store_keys
store_keys-Cleared [] offset f k v z b =
    (refl, record { ready = v; before = λ i n h. refl; held = tt })
store_keys-Cleared (o ∷ os) offset f (k, ks) v z b = elim (Bool-cases (is_domain o.data_type)) [
  | inl h ↦ keys_domain o os offset f h (store_keys-Cleared os offset f ks v z (omega (arith, b)))
  | inr h ↦
      let (l, e) = k h in
      let w : width o ≡ length o.value = rw h (sym e) in
      let fits : offset + length o.value ≤ size = omega (arith, b, w) in
      elim (Bool-cases o.is_key) [
        | inl key ↦ keys_key o os offset f h key v l e fits (
            store_keys-Cleared os (offset + length o.value) (written o offset f) ks
              (written-IsReady o offset f v fits) (written-ZeroFrom o offset f v fits z)
              (omega (arith, b, w)))
        | inr other ↦ keys_other o os offset f h other e (omega (arith, b, w, e)) z (
            store_keys-Cleared os (offset + length o.default) f ks v
              (λ i n j. z i n (omega (arith, j))) (omega (arith, b, w, e)))
      ]
]

-- Objects whose values are not empty, are as long as their defaults and fit into the lower half of a
-- ready chip: clear_state returns, and then restore_state, from objects that have their defaults,
-- returns too and gives each crypto key its value, and any other object that is no domain zeros.
pub restore_state-clear_state :
    (objs : List FramObj) (fram : Fm24cl64b)
    → AllKept objs
    → total objs ≤ size / 2
    → IsReady fram
    → let (cleared, fram') = clear_state objs fram in
      let (restored, objs', _) = restore_state (map restart objs) fram' in
      (cleared ≡ true) × (restored ≡ true) × (objs' ≡ map recovered (map zeroed objs))
unfolding clear_state restore_state clear StoresKeys
restore_state-clear_state objs fram k b v =
    let zeros : List ℕ = replicate (size / 2) 0 in
    let len : length zeros ≡ 4096 = length-replicate {A = ℕ} (size / 2) 0 in
    let f = record (transferred fram) { memory = splice 0 zeros fram.memory } in
    let ready : IsReady f = record {
      full = length-splice 0 zeros fram.memory (omega (arith, len, v.full)) ∙ v.full;
      quiet = (transferred_quiet fram v.quiet).0;
    } in
    let (cleared, s) =
      store_keys-Cleared objs 0 f k ready
        (λ i n _ h. slice-replicate i n (size / 2) (drop (length zeros) fram.memory) h)
        (omega (arith, b)) in
    let (restored, same) =
      restore_objs-Held (map zeroed objs) 0 (store_keys objs 0 f).1 (zeroed-AllKept objs k)
        s.ready.quiet (omega (arith, b, total-zeroed objs)) s.held in
    rw (write_quiet 0 zeros fram v.quiet (omega (arith, len)) (omega (arith, len))) (
      cleared,
      subst (λ os. (restore_objs os 0 (store_keys objs 0 f).1).0 ≡ true) (restart-zeroed objs)
          restored,
      subst (λ os. (restore_objs os 0 (store_keys objs 0 f).1).1 ≡ map recovered (map zeroed objs))
          (restart-zeroed objs) same,
    )
