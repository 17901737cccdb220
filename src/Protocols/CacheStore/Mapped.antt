-- ===== src/Protocols/CacheStore/Mapped.antt =====
-- oresat_c3/protocols/cachestore.py: the cache as a map from names to contents.
use oresat_c3_software_esi.Base.{
  ◌≡◌, arith, refl, sym, ap, zero, suc, ◌+◌, ◌-◌, ◌∷◌, [], ◌++◌, take, drop, length, replicate,
  Option-cases, inl, inr, ◌∙◌, ℕ, Bool, true, false, not, Option, none, some, List, [], ◌==◌,
  if◌then◌else◌,
}
use oresat_c3_software_esi.Protocols.CacheStore.{
  Files, set, CacheStore, FilestoreResult, create_success, create_not_allowed, delete_success,
  delete_file_does_not_exist, rename_success, rename_not_performed, rename_old_file_does_not_exist,
  replace_success, to_be_replaced_does_not_exist, replace_source_not_exist, Outcome, returned, done,
  file_not_found, has, remove, write_at, truncate_file, write_data, delete_file, replace_file,
  create_file, rename_file,
}
use oresat_c3_software_esi.Protocols.CacheStore.Directory.{
  count, has-count, count-remove, count-insort_left,
}

-- the calls that change files
pub data Call : Type 0 where
  truncate delete create : ℕ → Call
  write : ℕ → List ℕ → ℕ → Call
  rename replace : ℕ → ℕ → Call

abbrev pub is_some : Option (List ℕ) → Bool
is_some none = false
is_some (some content) = true

-- Each name is in the cache once if the directory has the file, and not at all if not.
abbrev pub IsValid : CacheStore → Type 0
IsValid s = (name : ℕ) → count name s.names ≡ (if is_some (s.dir name) then 1 else 0)

-- `bytes` over the start of `content`
abbrev over : List ℕ → List ℕ → List ℕ
over [] content = content
over (b ∷ bytes) [] = b ∷ over bytes []
over (b ∷ bytes) (x ∷ content) = b ∷ over bytes content

-- `bytes` over `content` from `offset` on, after zeros where the content is shorter
abbrev laid : ℕ → List ℕ → List ℕ → List ℕ
laid zero bytes content = over bytes content
laid (suc offset) bytes [] = 0 ∷ laid offset bytes []
laid (suc offset) bytes (x ∷ content) = x ∷ laid offset bytes content

-- the content after a write, which is the same where nothing is written
abbrev pub overwritten : ℕ → List ℕ → List ℕ → List ℕ
overwritten offset [] content = content
overwritten offset (b ∷ bytes) content = laid offset (b ∷ bytes) content

drop-nil : (n : ℕ) → drop {A = ℕ} n [] ≡ []
drop-nil zero = refl
drop-nil (suc n) = refl

over-drop : (bytes content : List ℕ) → bytes ++ drop (length bytes) content ≡ over bytes content
over-drop [] content = refl
over-drop (b ∷ bytes) [] =
    ap (λ l. b ∷ l) (ap (λ l. bytes ++ l) (sym (drop-nil (length bytes))) ∙ over-drop bytes [])
over-drop (b ∷ bytes) (x ∷ content) = ap (λ l. b ∷ l) (over-drop bytes content)

-- What the calls promise on a map from names to contents.
module _ (valid : ℕ → Bool) where
  abbrev moved : ℕ → ℕ → FilestoreResult → Files → Outcome × Files
  moved old new result files = (returned result, set new (files old) (set old none files))

  abbrev pub promised : Call → Files → Outcome × Files
  promised (truncate file) files =
      if is_some (files file) then (done, set file (some []) files) else (file_not_found, files)
  promised (delete file) files =
      if is_some (files file)
      then (returned delete_success, set file none files)
      else (returned delete_file_does_not_exist, files)
  promised (create file) files =
      if is_some (files file)
      then (returned create_not_allowed, files)
      else if valid file
      then (returned create_success, set file (some []) files)
      else (returned create_not_allowed, files)
  promised (write file bytes offset) files = elim (files file) [
    | none ↦ (file_not_found, files)
    | some content ↦ (done, set file (some (overwritten offset bytes content)) files)
  ]
  promised (rename old new) files =
      if is_some (files old)
      then if valid new
        then moved old new rename_success files
        else (returned rename_not_performed, files)
      else (returned rename_old_file_does_not_exist, files)
  promised (replace replaced source) files =
      if is_some (files replaced)
      then if is_some (files source)
        then moved source replaced replace_success files
        else (returned replace_source_not_exist, files)
      else (returned to_be_replaced_does_not_exist, files)

laid-take :
    (offset : ℕ) (bytes content : List ℕ)
    → take offset (content ++ replicate (offset - length content) 0)
        ++ (bytes ++ drop (offset + length bytes) content)
      ≡ laid offset bytes content
laid-take zero bytes content =
    let e : 0 + length bytes ≡ length bytes = omega arith in rw e (over-drop bytes content)
laid-take (suc offset) bytes [] =
    let e1 : suc offset - 0 ≡ suc (offset - 0) = omega arith in
    let e2 : drop (suc offset + length bytes) [] ≡ drop (offset + length bytes) [] =
      drop-nil (suc offset + length bytes) ∙ sym (drop-nil (offset + length bytes)) in
    rw (e1, e2) (ap (λ l. 0 ∷ l) (laid-take offset bytes []))
laid-take (suc offset) bytes (x ∷ content) =
    let e1 : suc offset - suc (length content) ≡ offset - length content = omega arith in
    let e2 : suc offset + length bytes ≡ suc (offset + length bytes) = omega arith in
    rw (e1, e2) (ap (λ l. x ∷ l) (laid-take offset bytes content))

write_at-overwritten :
    (offset : ℕ) (bytes content : List ℕ)
    → write_at offset bytes content ≡ overwritten offset bytes content
write_at-overwritten offset [] content = refl
write_at-overwritten offset (b ∷ bytes) content = laid-take offset (b ∷ bytes) content

-- No file is renamed to a name that the cache has, and none replaces itself.
abbrev pub is_plain : Call → CacheStore → Bool
is_plain (rename old new) s = not (is_some (s.dir new))
is_plain (replace replaced source) s = not (replaced == source)
is_plain _ s = true

module _ (valid : ℕ → Bool) (before : ℕ → ℕ → Bool) where
  unfoldable pub call : Call → CacheStore → Outcome × CacheStore
  call (truncate file) s = truncate_file file s
  call (delete file) s = delete_file file s
  call (create file) s = create_file valid before file s
  call (write file bytes offset) s = write_data file bytes offset s
  call (rename old new) s = rename_file valid before old new s
  call (replace replaced source) s = replace_file replaced source s

  has-is_some : (name : ℕ) (s : CacheStore) → IsValid s → has name s.names ≡ is_some (s.dir name)
  has-is_some name s v = ground (arith, has-count name s.names, v name)

  -- A call does what it promises on the map, and keeps the cache valid.
  abbrev Refines : Call → CacheStore → Type 0
  Refines c s =
      ((call c s).0 ≡ (promised valid c s.dir).0)
      × ((name : ℕ) → (call c s).1.dir name ≡ (promised valid c s.dir).1 name)
      × IsValid (call c s).1

  delete-Refines : (file : ℕ) (s : CacheStore) → IsValid s → Refines (delete file) s
  unfolding call delete_file
  delete-Refines file s v =
      let h = has-is_some file s v in
      (
        ground (arith, h),
        λ name. ground (arith, h),
        λ name. ground (arith, h, v name, v file, count-remove name file s.names),
      )

  truncate-Refines : (file : ℕ) (s : CacheStore) → IsValid s → Refines (truncate file) s
  unfolding call truncate_file
  truncate-Refines file s v =
      let h = has-is_some file s v in
      (ground (arith, h), λ name. ground (arith, h), λ name. ground (arith, h, v name, v file))

  write-Refines :
      (file offset : ℕ) (bytes : List ℕ) (s : CacheStore)
      → IsValid s
      → Refines (write file bytes offset) s
  unfolding call write_data
  write-Refines file offset bytes s v =
      let h = has-is_some file s v in
      elim (Option-cases (s.dir file)) [
        | inl e ↦ (
          ground (arith, h, e),
          λ name. ground (arith, h, e),
          λ name. ground (arith, h, e, v name, v file),
        )
        | inr (content, e) ↦
            let w = write_at-overwritten offset bytes content in
            (
              ground (arith, h, e, w),
              λ name. ground (arith, h, e, w),
              λ name. ground (arith, h, e, w, v name, v file),
            )
      ]

  create-Refines : (file : ℕ) (s : CacheStore) → IsValid s → Refines (create file) s
  unfolding call create_file
  create-Refines file s v =
      let h = has-is_some file s v in
      (
        ground (arith, h),
        λ name. ground (arith, h),
        λ name. ground (arith, h, v name, v file, count-insort_left before name file s.names),
      )

  rename-Refines :
      (old new : ℕ) (s : CacheStore)
      → IsValid s
      → is_some (s.dir new) ≡ false
      → Refines (rename old new) s
  unfolding call rename_file
  rename-Refines old new s v p =
      let h = has-is_some old s v in
      (
        ground (arith, h),
        λ name. ground (arith, h),
        λ name. ground (
          arith,
          h,
          p,
          v name,
          v old,
          v new,
          count-remove name old s.names,
          count-insort_left before name new (remove old s.names),
        ),
      )

  replace-Refines :
      (replaced source : ℕ) (s : CacheStore)
      → IsValid s
      → (replaced == source) ≡ false
      → Refines (replace replaced source) s
  unfolding call replace_file
  replace-Refines replaced source s v p =
      let h = has-is_some replaced s v in
      let h' = has-is_some source s v in
      (
        ground (arith, h, h'),
        λ name. ground (arith, h, h', p),
        λ name.
            ground
              (arith, h, h', p, v name, v replaced, v source, count-remove name source s.names),
      )

  -- On a cache whose names are those of the directory, a truncation, a deletion, a creation, a write at
  -- an offset, a rename to a name that is not there and a replacement by another file returns what the map from names to contents
  -- promises and leaves the directory that it promises, and the names are those of the directory again.
  pub call-Refines : (c : Call) (s : CacheStore) → IsValid s → is_plain c s ≡ true → Refines c s
  call-Refines (truncate file) s v p = truncate-Refines file s v
  call-Refines (delete file) s v p = delete-Refines file s v
  call-Refines (create file) s v p = create-Refines file s v
  call-Refines (write file bytes offset) s v p = write-Refines file offset bytes s v
  call-Refines (rename old new) s v p = rename-Refines old new s v (ground (arith, p))
  call-Refines (replace replaced source) s v p =
      replace-Refines replaced source s v (ground (arith, p))

  -- A file of a valid cache that is renamed to another name that the cache has overwrites that file,
  -- and the cache then has the name twice: it is not valid.
  pub rename_overwrites :
      (old new : ℕ) (s : CacheStore)
      → IsValid s
      → is_some (s.dir old) ≡ true
      → is_some (s.dir new) ≡ true
      → (new == old) ≡ false
      → valid new ≡ true
      → let t = (call (rename old new) s).1 in (t.dir new ≡ s.dir old) × (count new t.names ≡ 2)
  unfolding call rename_file
  rename_overwrites old new s v o n d y =
      let h = has-is_some old s v in
      (
        ground (arith, h, o, d, y),
        ground (
          arith,
          h,
          o,
          n,
          d,
          y,
          v new,
          count-remove new old s.names,
          count-insort_left before new new (remove old s.names),
        ),
      )
