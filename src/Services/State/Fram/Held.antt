-- ===== src/Services/State/Fram/Held.antt =====
-- oresat_c3/services/state.py: restore_state on a memory that has the values of the objects.
use oresat_c3_software_esi.Base.{
  ◌≡◌, refl, sym, ap, ◌∙◌, inl, inr, Bool-cases, if◌then◌else◌, arith, ℕ, ◌+◌, ◌≤◌, Bool, true,
  false, List, [], ◌∷◌, length, map,
}
use mathlib.Core.Path.{subst}
use oresat_c3_software_esi.Drivers.Fm24cl64b.{Fm24cl64b, size, transferred, slice}
use oresat_c3_software_esi.Drivers.Fm24cl64b.RoundTrip.{transferred_quiet, read_all}
use oresat_c3_software_esi.Services.State.Fram.{
  DataType, domain, octet_string, encoded, FramObj, is_domain, raw_or, and_then, restore_objs,
}

-- what an object of the F-RAM takes of it
abbrev pub width : FramObj → ℕ
width o = if is_domain o.data_type then 0 else length o.default

abbrev pub total : List FramObj → ℕ
total [] = 0
total (o ∷ os) = width o + total os

-- An object that is no domain has a value that is not empty and as long as its default.
abbrev pub IsKept : FramObj → Type 0
IsKept o =
    is_domain o.data_type ≡ false → (1 ≤ length o.value) × (length o.value ≡ length o.default)

abbrev pub AllKept : List FramObj → Type 0
AllKept [] = Unit
AllKept (o ∷ os) = IsKept o × AllKept os

-- the object after a restart: its value is its default
abbrev pub restart : FramObj → FramObj
restart o = record o { value = o.default }

abbrev pub recovered : FramObj → FramObj
recovered o = if is_domain o.data_type then restart o else o

-- The values of the objects are in the memory, one after the other from `offset` on.
abbrev pub Held : List FramObj → ℕ → List ℕ → Type 0
Held [] offset memory = Unit
Held (o ∷ os) offset memory =
    (is_domain o.data_type ≡ false → slice offset (length o.value) memory ≡ o.value)
    × Held os (offset + width o) memory

raw_or_lem : (s : Bool) (raw : List ℕ) → 1 ≤ length raw → raw_or s raw ≡ raw
raw_or_lem true [] h = absurd (omega (arith, h))
raw_or_lem true (b ∷ bs) h = refl
raw_or_lem false raw h = refl

kind_value :
    (d : DataType) (s : Bool) (old raw : List ℕ)
    → is_domain d ≡ false
    → 1 ≤ length raw
    → elim d [ domain ↦ old | octet_string ↦ raw | encoded ↦ raw_or s raw ] ≡ raw
kind_value domain s old raw h l = cc
kind_value octet_string s old raw h l = refl
kind_value encoded s old raw h l = raw_or_lem s raw l

restore_domain :
    (o : FramObj) (os : List FramObj) (offset : ℕ) (f : Fm24cl64b)
    → is_domain o.data_type ≡ true
    → restore_objs (o ∷ os) offset f ≡ and_then o (restore_objs os offset f)
unfolding restore_objs
restore_domain o os offset f h = rw h refl

restore_kept :
    (o : FramObj) (os : List FramObj) (offset : ℕ) (f : Fm24cl64b)
    → is_domain o.data_type ≡ false
    → f.bus_errors ≡ []
    → 1 ≤ length o.default
    → offset + length o.default ≤ size
    → let raw = slice offset (length o.default) f.memory in
      1 ≤ length raw
      → restore_objs (o ∷ os) offset f
        ≡ and_then
            (record o { value = raw })
            (restore_objs os (offset + length o.default) (transferred f))
unfolding restore_objs
restore_kept o os offset f h q l b m =
    let raw = slice offset (length o.default) f.memory in
    rw (h, read_all offset (length o.default) f q l b)
      (ap
        (λ v.
          and_then (record o { value = v })
            (restore_objs os (offset + length o.default) (transferred f)))
        (kind_value o.data_type o.is_status o.value raw h m))

-- What the loop of `restore_state` returns for these objects.
abbrev pub Restores : List FramObj → ℕ → Fm24cl64b → Type 0
Restores os offset f =
    ((restore_objs (map restart os) offset f).0 ≡ true)
    × ((restore_objs (map restart os) offset f).1 ≡ map recovered os)

restore_next_domain :
    (o : FramObj) (os : List FramObj) (offset : ℕ) (f : Fm24cl64b)
    → is_domain o.data_type ≡ true
    → Restores os offset f
    → Restores (o ∷ os) offset f
restore_next_domain o os offset f h (done, e) =
    rw (restore_domain (restart o) (map restart os) offset f h, h)
      (done, ap (λ zs. restart o ∷ zs) e)

restore_next_kept :
    (o : FramObj) (os : List FramObj) (offset : ℕ) (f : Fm24cl64b)
    → is_domain o.data_type ≡ false
    → f.bus_errors ≡ []
    → 1 ≤ length o.value
    → length o.value ≡ length o.default
    → offset + length o.value ≤ size
    → slice offset (length o.value) f.memory ≡ o.value
    → Restores os (offset + length o.value) (transferred f)
    → Restores (o ∷ os) offset f
restore_next_kept o os offset f h q l e b held (done, r) =
    let raw : slice offset (length o.default) f.memory ≡ o.value =
      ap (λ n. slice offset n f.memory) (sym e) ∙ held in
    let found =
      restore_kept (restart o) (map restart os) offset f h q (omega (arith, l, e))
        (omega (arith, b, e)) (omega (arith, l, ap length raw)) in
    rw (found, sym e, h, held) (done, ap (λ zs. o ∷ zs) r)

pub restore_objs-Held :
    (os : List FramObj) (offset : ℕ) (f : Fm24cl64b)
    → AllKept os
    → f.bus_errors ≡ []
    → offset + total os ≤ size
    → Held os offset f.memory
    → Restores os offset f
unfolding restore_objs
restore_objs-Held [] offset f k q b h = (refl, refl)
restore_objs-Held (o ∷ os) offset f (k, ks) q b (held, hs) =
    elim (Bool-cases (is_domain o.data_type)) [
      | inl h ↦
          let e : offset + width o ≡ offset = rw h (omega arith) in
          restore_next_domain o os offset f h (
            restore_objs-Held os offset f ks q (omega (arith, b))
              (subst (λ n. Held os n f.memory) e hs))
      | inr h ↦
          let (l, e) = k h in
          let w : width o ≡ length o.value = rw h (sym e) in
          let (quiet, same) = transferred_quiet f q in
          let next : Held os (offset + length o.value) (transferred f).memory =
            subst (Held os (offset + length o.value)) (sym same)
              (subst (λ n. Held os (offset + n) f.memory) w hs) in
          restore_next_kept o os offset f h q l e (omega (arith, b, w)) (held h) (
            restore_objs-Held os (offset + length o.value) (transferred f) ks quiet
              (omega (arith, b, w)) next)
    ]
