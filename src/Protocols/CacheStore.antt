-- ===== src/Protocols/CacheStore.antt =====
-- oresat_c3/protocols/cachestore.py: the files that CFDP reads and writes. Names are only compared, so
-- they are numbers here; which of them `OreSatFile` takes, and how it orders them, is a parameter.
pub mod Directory
pub mod Mapped
pub mod Checksum
pub mod Checksums
mod Tests
use oresat_c3_software_esi.Base.{
  ℕ, zero, suc, ◌+◌, ◌-◌, ◌*◌, ◌/◌, ◌%◌, ◌^◌, Bool, true, false, Option, none, some, List, [], ◌∷◌,
  ◌++◌, length, take, drop, replicate, ltb, ◌==◌, if◌then◌else◌,
}

-- what is in a directory, by name
abbrev pub Files : Type 0
Files = ℕ → Option (List ℕ)

abbrev pub set : ℕ → Option (List ℕ) → Files → Files
set name content files other = if other == name then content else files other

-- `_data` has the names in the cache, in order; `dir` is the directory.
pub record CacheStore : Type 0 where
  pub names : List ℕ
  pub dir : Files

-- `FilestoreResult`, where a method returns it
pub data FilestoreResult : Type 0 where
  create_success create_not_allowed : FilestoreResult
  delete_success delete_file_does_not_exist : FilestoreResult
  rename_success rename_not_performed rename_old_file_does_not_exist : FilestoreResult
  replace_success to_be_replaced_does_not_exist replace_source_not_exist : FilestoreResult

-- What a method that changes files ends with: a result, nothing, or `FileNotFoundError`.
pub data Outcome : Type 0 where
  returned : FilestoreResult → Outcome
  done file_not_found : Outcome

-- `any(name == f.name for f in self._data)`
abbrev pub has : ℕ → List ℕ → Bool
has name [] = false
has name (n ∷ names) = if name == n then true else has name names

-- `self._data.remove(f)`
abbrev pub remove : ℕ → List ℕ → List ℕ
remove name [] = []
remove name (n ∷ names) = let rest = remove name names in if name == n then names else n ∷ rest

-- `bytes[offset:][:read_len]`, as `seek` and `read` have it
abbrev pub read_at : ℕ → Option ℕ → List ℕ → List ℕ
read_at offset none content = drop offset content
read_at offset (some n) content = take n (drop offset content)

-- `write` at an offset: past the end the file is filled with zeros, and writing nothing does nothing.
abbrev pub write_at : ℕ → List ℕ → List ℕ → List ℕ
write_at offset [] content = content
write_at offset (b ∷ bytes) content =
    take offset (content ++ replicate (offset - length content) 0)
    ++ ((b ∷ bytes) ++ drop (offset + length (b ∷ bytes)) content)

unfoldable pub file_exists : ℕ → CacheStore → Bool
file_exists file s = has file s.names

-- none where it raises `FileNotFoundError`
unfoldable pub read_data : ℕ → ℕ → Option ℕ → CacheStore → Option (List ℕ)
read_data file offset read_len s =
    if has file s.names
    then elim (s.dir file) [ none ↦ none | some content ↦ some (read_at offset read_len content) ]
    else none

unfoldable pub file_size : ℕ → CacheStore → Option ℕ
file_size file s =
    if has file s.names
    then elim (s.dir file) [ none ↦ none | some content ↦ some (length content) ]
    else none

-- `open(…, "w")` makes a file that is not there.
unfoldable pub truncate_file : ℕ → CacheStore → Outcome × CacheStore
truncate_file file s =
    if has file s.names
    then (done, record s { dir = set file (some []) s.dir })
    else (file_not_found, s)

-- `write_data` with an offset from the start
unfoldable pub write_data : ℕ → List ℕ → ℕ → CacheStore → Outcome × CacheStore
write_data file bytes offset s =
    if has file s.names
    then elim (s.dir file) [
      | none ↦ (file_not_found, s)
      | some content ↦
          (done, record s { dir = set file (some (write_at offset bytes content)) s.dir })
    ]
    else (file_not_found, s)

-- `write_data` with the offset 0 from the end (`from_what=2`)
unfoldable pub append_data : ℕ → List ℕ → CacheStore → Outcome × CacheStore
append_data file bytes s =
    if has file s.names
    then elim (s.dir file) [
      | none ↦ (file_not_found, s)
      | some content ↦ (done, record s { dir = set file (some (content ++ bytes)) s.dir })
    ]
    else (file_not_found, s)

unfoldable pub delete_file : ℕ → CacheStore → Outcome × CacheStore
delete_file file s =
    if has file s.names
    then elim (s.dir file) [
      | none ↦ (file_not_found, s)
      | some content ↦ (
        returned delete_success,
        record { names = remove file s.names; dir = set file none s.dir },
      )
    ]
    else (returned delete_file_does_not_exist, s)

-- the move of a file to a name, which may be its own, after its old entry was removed
abbrev pub move : ℕ → ℕ → FilestoreResult → List ℕ → CacheStore → Outcome × CacheStore
move old new result names s = elim (s.dir old) [
  | none ↦ (file_not_found, record s { names = remove old s.names })
  | some content ↦
      (returned result, record { names = names; dir = set new (some content) (set old none s.dir) })
]

unfoldable pub replace_file : ℕ → ℕ → CacheStore → Outcome × CacheStore
replace_file replaced source s =
    if has replaced s.names
    then if has source s.names
      then move source replaced replace_success (remove source s.names) s
      else (returned replace_source_not_exist, s)
    else (returned to_be_replaced_does_not_exist, s)

-- `bisect_left`, on what is left of the list; `fuel` is its length
abbrev pub bisect_left : (ℕ → ℕ → Bool) → ℕ → List ℕ → ℕ → ℕ
bisect_left before name names zero = 0
bisect_left before name names (suc fuel) = elim (drop (length names / 2) names) [
  | [] ↦ 0
  | mid ∷ above ↦
      if before mid name
      then suc (length names / 2) + bisect_left before name above fuel
      else bisect_left before name (take (length names / 2) names) fuel
]

abbrev pub insort_left : (ℕ → ℕ → Bool) → ℕ → List ℕ → List ℕ
insort_left before name names =
    let i = bisect_left before name names (length names) in take i names ++ (name ∷ drop i names)

-- `touch` leaves a file that is there.
abbrev pub touch : ℕ → Files → Files
touch file files = elim (files file) [ none ↦ set file (some []) files | some content ↦ files ]

-- `valid` says which names `OreSatFile` takes, `before` is its order.
module _ (valid : ℕ → Bool) (before : ℕ → ℕ → Bool) where
  unfoldable pub create_file : ℕ → CacheStore → Outcome × CacheStore
  create_file file s =
      if valid file
      then if has file s.names then (returned create_not_allowed, s) else (
        returned create_success,
        record { names = insort_left before file s.names; dir = touch file s.dir },
      )
      else (returned create_not_allowed, s)

  unfoldable pub rename_file : ℕ → ℕ → CacheStore → Outcome × CacheStore
  rename_file old new s =
      if has old s.names
      then if valid new
        then move old new rename_success (insort_left before new (remove old s.names)) s
        else (returned rename_not_performed, s)
      else (returned rename_old_file_does_not_exist, s)
