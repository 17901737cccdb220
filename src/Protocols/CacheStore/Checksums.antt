-- ===== src/Protocols/CacheStore/Checksums.antt =====
-- oresat_c3/protocols/cachestore.py: the checksums of a file, and that their loops end.
use oresat_c3_software_esi.Base.{
  ◌≡◌, refl, sym, ap, ◌∙◌, arith, ℕ, zero, suc, ◌+◌, ◌-◌, ◌*◌, ◌%◌, ◌^◌, ◌≤◌, ◌<◌, true, false,
  Bool-cases, inl, inr, some, List, [], ◌∷◌, ◌++◌, length, take, drop, ltb, ◌==◌,
}
use oresat_c3_software_esi.Protocols.Sdls.{be32}
use oresat_c3_software_esi.Protocols.CacheStore.{CacheStore, has, read_data}
use oresat_c3_software_esi.Protocols.CacheStore.Checksum.{
  modular, crc_32, ok, then_pack, modulo, word_of, modular_loop, calc_modular_checksum, segment,
  crc_loop, calculate_checksum,
}

-- The sum of the words of four bytes, the highest byte first, the last of them filled with zeros.
abbrev pub sum_words : List ℕ → ℕ
sum_words [] = 0
sum_words (a ∷ []) = a * 0x1000000
sum_words (a ∷ b ∷ []) = a * 0x1000000 + b * 0x10000
sum_words (a ∷ b ∷ c ∷ []) = a * 0x1000000 + b * 0x10000 + c * 0x100
sum_words (a ∷ b ∷ c ∷ d ∷ rest) = a * 0x1000000 + b * 0x10000 + c * 0x100 + d + sum_words rest

drop_nil : (n : ℕ) → drop {A = ℕ} n [] ≡ []
drop_nil zero = refl
drop_nil (suc n) = refl

take_nil : (n : ℕ) → take {A = ℕ} n [] ≡ []
take_nil zero = refl
take_nil (suc n) = refl

drop-drop : (a b : ℕ) (xs : List ℕ) → drop (a + b) xs ≡ drop b (drop a xs)
drop-drop zero b xs = ground arith
drop-drop (suc a) b [] = ground (arith, drop_nil (suc a + b), drop_nil b)
drop-drop (suc a) b (x ∷ xs) =
    let e : suc a + b ≡ suc (a + b) = omega arith in rw e (drop-drop a b xs)

take_more : (a b : ℕ) (xs : List ℕ) → take (a + b) xs ≡ take a xs ++ take b (drop a xs)
take_more zero b xs = ground arith
take_more (suc a) b [] = ground (arith, take_nil (suc a + b), take_nil b)
take_more (suc a) b (x ∷ xs) =
    let e : suc a + b ≡ suc (a + b) = omega arith in rw e (ap (λ ys. x ∷ ys) (take_more a b xs))

module _ (file : ℕ) (content : List ℕ) (s : CacheStore) where
  -- The file is in the cache and in the directory.
  abbrev pub Holds : Type 0
  Holds = (has file s.names ≡ true) × (s.dir file ≡ some content)

  read_data_lem :
      (offset n : ℕ)
      → Holds
      → read_data file offset (some n) s ≡ some (take n (drop offset content))
  unfolding read_data
  read_data_lem offset n (h, d) = rw (read_data, h, d) refl

  past :
      (offset : ℕ) (rest : List ℕ)
      → drop offset content ≡ rest
      → drop (offset + 4) content ≡ drop 4 rest
  past offset rest e = drop-drop offset 4 content ∙ ap (drop 4) e

  modular_loop-sum_words :
      (offset n : ℕ) (rest : List ℕ) (fuel : ℕ)
      → Holds
      → drop offset content ≡ rest
      → length rest + 4 ≤ 4 * fuel
      → modular_loop file offset n s fuel ≡ ok (n + sum_words rest)
  unfolding modular_loop
  modular_loop-sum_words offset n rest zero h e l = absurd (omega (arith, l))
  modular_loop-sum_words offset n [] (suc fuel) h e l =
      rw (modular_loop, read_data_lem offset 4 h, e) (ap ok (omega arith))
  modular_loop-sum_words offset n (a ∷ []) (suc fuel) h e l =
      rw (modular_loop, read_data_lem offset 4 h, e)
        (modular_loop-sum_words (offset + 4) (n + word_of (a ∷ [])) [] fuel h (past offset _ e)
            (omega (arith, l))
          ∙ ap ok (omega arith))
  modular_loop-sum_words offset n (a ∷ b ∷ []) (suc fuel) h e l =
      rw (modular_loop, read_data_lem offset 4 h, e)
        (modular_loop-sum_words (offset + 4) (n + word_of (a ∷ b ∷ [])) [] fuel h (past offset _ e)
            (omega (arith, l))
          ∙ ap ok (omega arith))
  modular_loop-sum_words offset n (a ∷ b ∷ c ∷ []) (suc fuel) h e l =
      rw (modular_loop, read_data_lem offset 4 h, e)
        (modular_loop-sum_words (offset + 4) (n + word_of (a ∷ b ∷ c ∷ [])) [] fuel h
            (past offset _ e) (omega (arith, l))
          ∙ ap ok (omega arith))
  modular_loop-sum_words offset n (a ∷ b ∷ c ∷ d ∷ rest) (suc fuel) h e l =
      rw (modular_loop, read_data_lem offset 4 h, e)
        (modular_loop-sum_words (offset + 4) (n + word_of (a ∷ b ∷ c ∷ d ∷ [])) rest fuel h
            (past offset _ e) (omega (arith, l))
          ∙ ap ok (omega arith))

  calc_modular_checksum-sum_words :
      (fuel : ℕ)
      → Holds
      → length content + 4 ≤ 4 * fuel
      → calc_modular_checksum file s fuel ≡ ok (be32 (sum_words content % 2 ^ 32))
  unfolding calc_modular_checksum
  calc_modular_checksum-sum_words fuel h l =
      ap (λ r. then_pack (modulo r))
        (modular_loop-sum_words 0 0 content fuel h refl l ∙ ap ok (omega arith))

  -- `crc` continues from what it gave for the bytes before.
  module _ (crc : List ℕ → ℕ → ℕ) (crc-nil : (current : ℕ) → crc [] current ≡ current)
      (crc-append : (xs ys : List ℕ) (current : ℕ)
        → crc (xs ++ ys) current ≡ crc ys (crc xs current)) where
    joined :
        (offset n size current : ℕ)
        → n + (size - (offset + n)) ≡ size - offset
        → crc
            (take (size - (offset + n)) (drop (offset + n) content))
            (crc (take n (drop offset content)) current)
          ≡ crc (take (size - offset) (drop offset content)) current
    joined offset n size current w =
        let rest = drop offset content in
        let m = size - (offset + n) in
        ap (λ ys. crc (take m ys) (crc (take n rest) current)) (drop-drop offset n content)
        ∙ sym (crc-append (take n rest) (take m (drop n rest)) current)
        ∙ ap (λ ys. crc ys current) (sym (take_more n m rest) ∙ ap (λ k. take k rest) w)

    crc_loop-take :
        (offset size segment_len current fuel : ℕ)
        → Holds
        → 0 < segment_len
        → size - offset < fuel
        → crc_loop crc file offset size segment_len current s fuel
          ≡ ok (crc (take (size - offset) (drop offset content)) current)
    unfolding crc_loop
    crc_loop-take offset size segment_len current zero h p l = absurd (omega (arith, l))
    crc_loop-take offset size segment_len current (suc fuel) h p l =
        elim (Bool-cases (ltb offset size)) [
          | inl t ↦
              let n = segment crc offset size segment_len in
              let ih =
                crc_loop-take (offset + n) size segment_len
                  (crc (take n (drop offset content)) current) fuel h p (ground (arith, p, l, t)) in
              rw (crc_loop, t, read_data_lem offset n h)
                (ih ∙ ap ok (joined offset n size current (ground (arith, t, p))))
          | inr t ↦
              let e : size - offset ≡ 0 = ground (arith, t) in
              rw (crc_loop, t, e) (ap ok (sym (crc-nil current)))
        ]

module _ (crc crc_c : List ℕ → ℕ → ℕ) (start start_c : ℕ) where
  -- The modular checksum of a file in the cache is the sum of its words of four bytes, the last of them
  -- filled with zeros, modulo 2 ^ 32, whatever the size and the segment length; a fourth of the
  -- length of the file, rounded up, and one more rounds are enough.
  pub calculate_checksum-sum_words :
      (file size segment_len fuel : ℕ) (content : List ℕ) (s : CacheStore)
      → Holds file content s
      → length content + 4 ≤ 4 * fuel
      → calculate_checksum crc crc_c start start_c modular file size segment_len s fuel
        ≡ ok (be32 (sum_words content % 2 ^ 32))
  unfolding calculate_checksum
  calculate_checksum-sum_words file size segment_len fuel content s h l =
      rw (calculate_checksum, h.0) (calc_modular_checksum-sum_words file content s fuel h l)

  -- Where a function of fastcrc goes on from what it gave for the bytes before, the CRC-32 of a file in
  -- the cache is that of its first bytes up to the size, for any segment length but zero; one round
  -- more than the size is enough.
  pub calculate_checksum-take :
      (file size segment_len fuel : ℕ) (content : List ℕ) (s : CacheStore)
      → ((current : ℕ) → crc [] current ≡ current)
      → ((xs ys : List ℕ) (current : ℕ) → crc (xs ++ ys) current ≡ crc ys (crc xs current))
      → Holds file content s
      → 0 < segment_len
      → size < fuel
      → calculate_checksum crc crc_c start start_c crc_32 file size segment_len s fuel
        ≡ ok (be32 (crc (take size content) start))
  unfolding calculate_checksum
  calculate_checksum-take file size segment_len fuel content s crc-nil crc-append h p l =
      let z : (segment_len == 0) ≡ false = ground (arith, p) in
      rw (calculate_checksum, h.0, z)
        (ap then_pack (
          crc_loop-take file content s crc crc-nil crc-append 0 size segment_len start fuel h p
            (omega (arith, l))
          ∙ ap (λ k. ok (crc (take k content) start)) (omega arith)))
