-- ===== src/Services/Payload/NextFile.antt =====
-- oresat_c3/services/payload.py: the search of `_make_file` for a name that is free.
use oresat_c3_software_esi.Base.{
  ℕ, zero, suc, ◌+◌, ◌≤◌, ◌<◌, ◌≡◌, refl, sym, ◌∙◌, true, false, List, [], ◌∷◌, length, ◌==◌,
  if◌then◌else◌, arith, Bool-cases, inl, inr,
}
use oresat_c3_software_esi.Protocols.CacheStore.{has}
use oresat_c3_software_esi.Services.Payload.PiPlasma.{next_free, free_name}

without : ℕ → List ℕ → List ℕ
without t [] = []
without t (n ∷ names) = let rest = without t names in if t == n then rest else n ∷ rest

has-without : (t k : ℕ) (names : List ℕ) → t < k → has k (without t names) ≡ has k names
unfolding without
has-without t k [] h = refl
has-without t k (n ∷ names) h = ground (arith, has-without t k names)

length-without-le : (t : ℕ) (names : List ℕ) → length (without t names) ≤ length names
unfolding without
length-without-le t [] = omega arith
length-without-le t (n ∷ names) = ground (arith, length-without-le t names)

length-without :
    (t : ℕ) (names : List ℕ) → has t names ≡ true → length (without t names) < length names
unfolding without
length-without t [] h = cc
length-without t (n ∷ names) h = ground (arith, length-without t names, length-without-le t names)

-- The `n` names from `t` on are taken.
abbrev pub Taken : ℕ → ℕ → List ℕ → Type 0
Taken zero t names = Unit
Taken (suc n) t names = (has t names ≡ true) × Taken n (t + 1) names

pub record Found (t : ℕ) (names : List ℕ) (bound r : ℕ) : Type 0 where
  pub past : ℕ
  pub at : r ≡ t + past
  pub free : has r names ≡ false
  pub first : Taken past t names
  pub soon : past < bound

search :
    (fuel t : ℕ) (names rest : List ℕ)
    → ((k : ℕ) → t ≤ k → has k names ≡ has k rest)
    → length rest < fuel
    → Found t names fuel (next_free fuel t names)
unfolding next_free
search zero t names rest agree h = absurd (omega arith)
search (suc fuel) t names rest agree h = elim (Bool-cases (has t names)) [
  | inl taken ↦
      let f =
        search fuel (t + 1) names (without t rest)
          (λ k l. agree k (omega arith) ∙ sym (has-without t k rest (omega arith)))
          (omega (arith, length-without t rest (sym (agree t (omega arith)) ∙ taken))) in
      rw taken (record {
        past = suc f.past;
        at = omega (arith, f.at);
        free = f.free;
        first = (taken, f.first);
        soon = omega (arith, f.soon);
      })
  | inr free ↦
      rw free (record { past = 0; at = omega arith; free = free; first = tt; soon = omega arith })
]

-- For any time and any names in the file cache the search ends, after no more tests than there are
-- files and one. Its name is free, and every name from the time on up to it is taken.
pub free_name-Found :
    (t : ℕ) (names : List ℕ) → Found t names (suc (length names)) (free_name t names)
free_name-Found t names = search (suc (length names)) t names names (λ k l. refl) (omega arith)
