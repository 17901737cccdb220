-- ===== src/Services/State/Fram/Zeroed.antt =====
-- oresat_c3/services/state.py: the memory that clear_state leaves, and the objects as it has them.
use oresat_c3_software_esi.Base.{
  ◌≡◌, refl, ap, ◌∙◌, inl, inr, Bool-cases, if◌then◌else◌, arith, ℕ, zero, suc, ◌+◌, ◌/◌, ◌≤◌, true,
  false, List, [], ◌∷◌, ◌++◌, length, length-replicate, replicate, take, map,
}
use oresat_c3_software_esi.Drivers.Fm24cl64b.{Fm24cl64b, size, slice}
use oresat_c3_software_esi.Drivers.Fm24cl64b.RoundTrip.{IsReady, slice_elsewhere}
use oresat_c3_software_esi.Services.State.Fram.{FramObj}
use oresat_c3_software_esi.Services.State.Fram.Held.{width, total, AllKept, restart}
use oresat_c3_software_esi.Services.State.Fram.RoundTrip.{written}

-- the object as the cleared memory has it: zeros but for a key
abbrev pub zeroed : FramObj → FramObj
zeroed o = record o { value = if o.is_key then o.value else replicate (length o.default) 0 }

-- The memory is zero from `offset` to its half.
abbrev pub ZeroFrom : ℕ → List ℕ → Type 0
ZeroFrom offset memory =
    (i n : ℕ) → offset ≤ i → i + n ≤ size / 2 → slice i n memory ≡ replicate n 0

take-replicate : (n k : ℕ) (rest : List ℕ) → n ≤ k → take n (replicate k 0 ++ rest) ≡ replicate n 0
take-replicate zero k rest h = refl
take-replicate (suc n) zero rest h = absurd (omega (arith, h))
take-replicate (suc n) (suc k) rest h =
    ap (λ zs. 0 ∷ zs) (take-replicate n k rest (omega (arith, h)))

pub slice-replicate :
    (i n k : ℕ) (rest : List ℕ) → i + n ≤ k → slice i n (replicate k 0 ++ rest) ≡ replicate n 0
slice-replicate zero n k rest h = take-replicate n k rest (omega (arith, h))
slice-replicate (suc i) n zero rest h = absurd (omega (arith, h))
slice-replicate (suc i) n (suc k) rest h = slice-replicate i n k rest (omega (arith, h))

-- the value in the cleared memory
pub zeroed_other :
    (o : FramObj) → o.is_key ≡ false → (zeroed o).value ≡ replicate (length o.default) 0
zeroed_other o k = rw k refl

pub zeroed_key : (o : FramObj) → o.is_key ≡ true → (zeroed o).value ≡ o.value
zeroed_key o k = rw k refl

pub written-ZeroFrom :
    (o : FramObj) (offset : ℕ) (f : Fm24cl64b)
    → IsReady f
    → offset + length o.value ≤ size
    → ZeroFrom offset f.memory
    → ZeroFrom (offset + length o.value) (written o offset f).memory
written-ZeroFrom o offset f v b z i n h k =
    slice_elsewhere i n offset o.value f.memory (omega (arith, b, v.full)) (inr h)
    ∙ z i n (omega (arith, h)) k

pub restart-zeroed : (os : List FramObj) → map restart (map zeroed os) ≡ map restart os
restart-zeroed [] = refl
restart-zeroed (o ∷ os) = ap (λ zs. restart o ∷ zs) (restart-zeroed os)

pub zeroed-AllKept : (os : List FramObj) → AllKept os → AllKept (map zeroed os)
zeroed-AllKept [] k = tt
zeroed-AllKept (o ∷ os) (k, ks) = (
  λ h.
      let (l, e) = k h in
      let len : length (replicate (length o.default) 0) ≡ length o.default =
        length-replicate {A = ℕ} (length o.default) 0 in
      elim (Bool-cases o.is_key) [
        | inl key ↦ rw (zeroed_key o key) (l, e)
        | inr other ↦ rw (zeroed_other o other) (omega (arith, len, l, e), len)
      ],
  zeroed-AllKept os ks,
)

pub total-zeroed : (os : List FramObj) → total (map zeroed os) ≡ total os
total-zeroed [] = refl
total-zeroed (o ∷ os) = ap (λ n. width o + n) (total-zeroed os)
