-- ===== src/Protocols/Sdls/Authentic.antt =====
-- oresat_c3/protocols/sdls.py: the frames that are accepted are those that were made with the key.
use oresat_c3_software_esi.Base.{
  ◌≡◌, refl, sym, ap, ◌∙◌, arith, ℕ, zero, suc, ◌+◌, ◌-◌, ◌≤◌, ◌<◌, true, Bool-cases, inl, inr,
  Option, some, List, [], ◌∷◌, ◌++◌, length, take, drop, take-append, drop-append, length-append,
  same, same_self, same_eq, ltb,
}
use mathlib.Core.List.{append_assoc}
use mathlib.Core.Path.{subst}
use oresat_c3_software_esi.Protocols.Sdls.{
  invalid_hmac, ok, err, PrimaryHeader, TransferFrame, sdls_oresat, spi_of, hmac_len, be32, from_be,
  sdls_header, authenticated, but_last, last_of, apply_oresat, verify_oresat, apply_sdls,
  verify_sdls,
}

from_be-be32 : (n : ℕ) → from_be 0 (be32 n) ≡ n
from_be-be32 n = omega arith

but_last-append : (xs ys : List ℕ) (n : ℕ) → length ys ≡ n → but_last n (xs ++ ys) ≡ xs
but_last-append xs ys n h =
    let e : length (xs ++ ys) - n ≡ length xs = omega (arith, h, length-append xs ys) in
    rw e (take-append xs ys)

last_of-append : (xs ys : List ℕ) (n : ℕ) → length ys ≡ n → last_of n (xs ++ ys) ≡ ys
last_of-append xs ys n h =
    let e : length (xs ++ ys) - n ≡ length xs = omega (arith, h, length-append xs ys) in
    rw e (drop-append xs ys)

take-drop : (n : ℕ) (xs : List ℕ) → take n xs ++ drop n xs ≡ xs
take-drop zero [] = refl
take-drop (suc n) [] = refl
take-drop zero (x ∷ xs) = refl
take-drop (suc n) (x ∷ xs) = ap (λ ys. x ∷ ys) (take-drop n xs)

module _ (digest : List ℕ → List ℕ → List ℕ) (pack_header : PrimaryHeader → List ℕ)
    (length-digest : (key message : List ℕ) → length (digest key message) ≡ hmac_len) where
  verify_oresat-apply_oresat :
      (frame : TransferFrame) (seq_num : ℕ) (key : List ℕ)
      → let zone = sdls_header seq_num in
        let mac =
          digest key (
            authenticated digest pack_header frame.header zone (frame.tfdf_header ++ frame.tfdz)) in
        verify_oresat digest pack_header
          (record frame { insert_zone = some zone; tfdz = frame.tfdz ++ mac })
          (some key)
        ≡ (ok seq_num, record frame { insert_zone = some zone })
  unfolding verify_oresat
  verify_oresat-apply_oresat frame seq_num key =
      let body = frame.tfdf_header ++ frame.tfdz in
      let message = authenticated digest pack_header frame.header (sdls_header seq_num) body in
      let mac = digest key message in
      let l = length-digest key message in
      let payload : but_last hmac_len (frame.tfdf_header ++ (frame.tfdz ++ mac)) ≡ body =
        ap (but_last hmac_len) (sym (append_assoc frame.tfdf_header frame.tfdz mac))
        ∙ but_last-append body mac hmac_len l in
      let actual : last_of hmac_len (frame.tfdz ++ mac) ≡ mac =
        last_of-append frame.tfdz mac hmac_len l in
      let stripped : but_last hmac_len (frame.tfdz ++ mac) ≡ frame.tfdz =
        but_last-append frame.tfdz mac hmac_len l in
      rw (payload, actual, stripped, same_self mac, from_be-be32 seq_num) refl

  -- A frame of a channel with the HMAC that was made with a key and a sequence number of four bytes is
  -- accepted with that key; the number comes back, and the HMAC is taken off the data.
  pub verify_sdls-apply_sdls :
      (frame : TransferFrame) (seq_num : ℕ) (key : List ℕ)
      → spi_of frame.header.vcid ≡ some sdls_oresat
      → seq_num < 0x100000000
      → (frame' : TransferFrame) × (apply_sdls digest pack_header frame seq_num (some key)
          ≡ ok frame')
        × (verify_sdls digest pack_header frame' (some key)
            ≡ (ok seq_num, record frame { insert_zone = some (sdls_header seq_num) }))
  unfolding apply_sdls verify_sdls apply_oresat
  verify_sdls-apply_sdls frame seq_num key v h =
      let zone = sdls_header seq_num in
      let mac =
        digest key
          (authenticated digest pack_header frame.header zone (frame.tfdf_header ++ frame.tfdz)) in
      let fits : ltb seq_num 0x100000000 ≡ true = ground (arith, h) in
      (
        record frame { insert_zone = some zone; tfdz = frame.tfdz ++ mac },
        rw (apply_sdls, v, fits) refl,
        rw (verify_sdls, v) (verify_oresat-apply_oresat frame seq_num key),
      )

take_past : (k n : ℕ) (xs ys : List ℕ) → k ≡ length xs + n → take k (xs ++ ys) ≡ xs ++ take n ys
take_past k n [] ys h = let e : k ≡ n = omega (arith, h) in rw e refl
take_past zero n (x ∷ xs) ys h = absurd (omega (arith, h))
take_past (suc k) n (x ∷ xs) ys h = ap (λ zs. x ∷ zs) (take_past k n xs ys (omega (arith, h)))

but_last_past :
    (n : ℕ) (xs ys : List ℕ) → n ≤ length ys → but_last n (xs ++ ys) ≡ xs ++ but_last n ys
but_last_past n xs ys h =
    take_past (length (xs ++ ys) - n) (length ys - n) xs ys (omega (arith, h, length-append xs ys))

module _ (digest : List ℕ → List ℕ → List ℕ) (pack_header : PrimaryHeader → List ℕ) where
  -- the same for a frame with the security header of the number
  apply_oresat-verify_oresat :
      (frame : TransferFrame) (seq_num : ℕ) (key : List ℕ)
      → seq_num < 0x100000000
      → hmac_len ≤ length frame.tfdz
      → let f = record frame { insert_zone = some (sdls_header seq_num) } in
        (verify_oresat digest pack_header f (some key)).0 ≡ ok seq_num
        → apply_oresat digest pack_header
            (verify_oresat digest pack_header f (some key)).1
            seq_num
            (some key)
          ≡ ok f
  unfolding apply_oresat verify_oresat
  apply_oresat-verify_oresat frame seq_num key h l e =
      let zone = sdls_header seq_num in
      let rest = but_last hmac_len frame.tfdz in
      let expected = digest key (
        authenticated digest pack_header frame.header zone
          (but_last hmac_len (frame.tfdf_header ++ frame.tfdz))) in
      let actual = last_of hmac_len frame.tfdz in
      let fits : ltb seq_num 0x100000000 ≡ true = ground (arith, h) in
      let past : but_last hmac_len (frame.tfdf_header ++ frame.tfdz) ≡ frame.tfdf_header ++ rest =
        but_last_past hmac_len frame.tfdf_header frame.tfdz l in
      let whole : rest ++ actual ≡ frame.tfdz =
        take-drop (length frame.tfdz - hmac_len) frame.tfdz in
      elim (Bool-cases (same expected actual)) [
        | inl s ↦
            let mac : expected ≡ actual = same_eq expected actual s in
            rw (fits, sym past, mac, whole) refl
        | inr s ↦ let e' : err invalid_hmac ≡ ok seq_num = rw s at e in ground (arith, e')
      ]

  verify_sdls-oresat :
      (frame : TransferFrame) (key : Option (List ℕ))
      → spi_of frame.header.vcid ≡ some sdls_oresat
      → verify_sdls digest pack_header frame key ≡ verify_oresat digest pack_header frame key
  unfolding verify_sdls
  verify_sdls-oresat frame key v = rw (verify_sdls, v) refl

  apply_sdls-oresat :
      (frame : TransferFrame) (seq_num : ℕ) (key : Option (List ℕ))
      → spi_of frame.header.vcid ≡ some sdls_oresat
      → apply_sdls digest pack_header frame seq_num key
        ≡ apply_oresat digest pack_header frame seq_num key
  unfolding apply_sdls
  apply_sdls-oresat frame seq_num key v = rw (apply_sdls, v) refl

  -- Whatever frame of a channel with the HMAC is accepted, if its security header is that of its
  -- sequence number and its data are no shorter than an HMAC, is what applying the key and that number
  -- to the frame without its HMAC makes.
  pub apply_sdls-verify_sdls :
      (frame : TransferFrame) (seq_num : ℕ) (key : List ℕ)
      → spi_of frame.header.vcid ≡ some sdls_oresat
      → seq_num < 0x100000000
      → frame.insert_zone ≡ some (sdls_header seq_num)
      → hmac_len ≤ length frame.tfdz
      → (verify_sdls digest pack_header frame (some key)).0 ≡ ok seq_num
      → apply_sdls digest pack_header
          (verify_sdls digest pack_header frame (some key)).1
          seq_num
          (some key)
        ≡ ok frame
  unfolding apply_sdls verify_sdls verify_oresat
  apply_sdls-verify_sdls frame seq_num key v h z l =
      let f = record frame { insert_zone = some (sdls_header seq_num) } in
      let same_frame : f ≡ frame = ap (λ zone. record frame { insert_zone = zone }) (sym z) in
      subst
        (λ g.
          (verify_sdls digest pack_header g (some key)).0 ≡ ok seq_num
          → apply_sdls digest pack_header (verify_sdls digest pack_header g (some key)).1 seq_num
              (some key)
            ≡ ok g)
        same_frame
        (λ e.
          let e' : (verify_oresat digest pack_header f (some key)).0 ≡ ok seq_num =
            rw (verify_sdls, v) at e in
          rw (verify_sdls-oresat f (some key) v) (
            apply_sdls-oresat (verify_oresat digest pack_header f (some key)).1 seq_num (some key) v
            ∙ apply_oresat-verify_oresat frame seq_num key h l e'))
