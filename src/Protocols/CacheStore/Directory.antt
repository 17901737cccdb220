-- ===== src/Protocols/CacheStore/Directory.antt =====
-- oresat_c3/protocols/cachestore.py: how often a name is in the cache.
use oresat_c3_software_esi.Base.{
  ◌≡◌, refl, arith, ℕ, zero, suc, ◌-◌, Bool, not, List, [], ◌∷◌, ◌++◌, length, take, drop, ◌==◌,
  if◌then◌else◌,
}
use oresat_c3_software_esi.Protocols.CacheStore.{has, remove, bisect_left, insort_left}

abbrev pub count : ℕ → List ℕ → ℕ
count name [] = 0
count name (n ∷ names) = if name == n then suc (count name names) else count name names

pub has-count : (name : ℕ) (names : List ℕ) → has name names ≡ not (count name names == 0)
has-count name [] = refl
has-count name (n ∷ names) = ground (arith, has-count name names)

pub count-remove :
    (other name : ℕ) (names : List ℕ)
    → count other (remove name names)
      ≡ (if other == name then count other names - 1 else count other names)
count-remove other name [] = ground arith
count-remove other name (n ∷ names) = ground (arith, count-remove other name names)

count-put :
    (other name i : ℕ) (names : List ℕ)
    → count other (take i names ++ (name ∷ drop i names))
      ≡ (if other == name then suc (count other names) else count other names)
count-put other name zero names = refl
count-put other name (suc i) [] = refl
count-put other name (suc i) (n ∷ names) = ground (arith, count-put other name i names)

pub count-insort_left :
    (before : ℕ → ℕ → Bool) (other name : ℕ) (names : List ℕ)
    → count other (insort_left before name names)
      ≡ (if other == name then suc (count other names) else count other names)
count-insort_left before other name names =
    count-put other name (bisect_left before name names (length names)) names
