-- ===== src/Protocols/CacheStore/Tests.antt =====
-- oresat_c3/protocols/cachestore.py: runs at fixed values.
use oresat_c3_software_esi.Base.{
  ◌≡◌, refl, arith, ℕ, ◌+◌, Bool, true, false, none, some, List, [], ◌∷◌, ◌++◌, ltb, ◌==◌,
  if◌then◌else◌,
}
use oresat_c3_software_esi.Protocols.Sdls.{be32}
use oresat_c3_software_esi.Protocols.CacheStore.{
  Files, CacheStore, returned, replace_success, replace_file, file_exists,
}
use oresat_c3_software_esi.Protocols.CacheStore.Mapped.{
  rename, is_some, IsValid, call, promised, call-Refines,
}
use oresat_c3_software_esi.Protocols.CacheStore.Checksum.{ok, modular, calculate_checksum}
use oresat_c3_software_esi.Protocols.CacheStore.Checksums.{calculate_checksum-sum_words}

-- Two files, 4 and 7.
abbrev dir : Files
dir name =
    if name == 4 then some (1 ∷ 2 ∷ 3 ∷ 4 ∷ 5 ∷ []) else if name == 7 then some (9 ∷ []) else none

abbrev cache : CacheStore
cache = record { names = 4 ∷ 7 ∷ []; dir = dir }

cache-IsValid : IsValid cache
cache-IsValid name = ground arith

abbrev valid : ℕ → Bool
valid name = ltb name 100

call-Refines_example :
    ((call valid ltb (rename 4 5) cache).0 ≡ (promised valid (rename 4 5) dir).0)
    × ((name : ℕ)
        → (call valid ltb (rename 4 5) cache).1.dir name ≡ (promised valid (rename 4 5) dir).1 name)
    × IsValid (call valid ltb (rename 4 5) cache).1
call-Refines_example = call-Refines valid ltb (rename 4 5) cache cache-IsValid refl

-- A file that replaces itself leaves the cache, but not the directory.
replaced_by_itself :
    ((replace_file 4 4 cache).0 ≡ returned replace_success)
    × (file_exists 4 (replace_file 4 4 cache).1 ≡ false)
    × (is_some ((replace_file 4 4 cache).1.dir 4) ≡ true)
unfolding replace_file file_exists
replaced_by_itself = (refl, refl, refl)

-- a sum in place of a CRC
abbrev sum : List ℕ → ℕ → ℕ
sum [] current = current
sum (b ∷ bs) current = sum bs (current + b)

sum-append : (xs ys : List ℕ) (current : ℕ) → sum (xs ++ ys) current ≡ sum ys (sum xs current)
sum-append [] ys current = refl
sum-append (x ∷ xs) ys current = sum-append xs ys (current + x)

calculate_checksum-sum_words_example :
    calculate_checksum sum sum 0 0 modular 4 5 0 cache 3 ≡ ok (be32 0x06020304)
calculate_checksum-sum_words_example =
    calculate_checksum-sum_words sum sum 0 0 4 5 0 3 (1 ∷ 2 ∷ 3 ∷ 4 ∷ 5 ∷ []) cache (refl, refl)
      (omega arith)
