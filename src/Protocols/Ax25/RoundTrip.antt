-- ===== src/Protocols/Ax25/RoundTrip.antt =====
-- oresat_c3/protocols/ax25.py: a packed frame unpacks to its fields.
use Prim.Native.Nat.{bit_or}
use oresat_c3_software_esi.Base.{
  pos, ◌≡◌, refl, ◌∙◌, arith, ℕ, ◌+◌, ◌≤◌, Bool, true, false, some, List, [], ◌∷◌, ◌++◌, length,
  take, drop, length-append, ltb,
}
use oresat_c3_software_esi.Protocols.Ax25.Callsign.{
  length-pack_callsign, unpack_callsign-pack_callsign, unpack_ssid-ssid_byte,
}
use oresat_c3_software_esi.Protocols.Ax25.{
  ok, ax25_pack, ax25_unpack, frame, pack_callsign, unpack_callsign, ssid_byte, unpack_ssid, c_bit,
  is_ascii, rstrip, callsign_len, header_len, payload_max_len,
}

-- a list of six elements is the list of its six elements
six : (A : List ℕ) → length A ≡ 6 → (a b c d e f : ℕ) × (A ≡ a ∷ b ∷ c ∷ d ∷ e ∷ f ∷ [])
six [] h = absurd (omega (arith, h))
six (a ∷ []) h = absurd (omega (arith, h))
six (a ∷ (b ∷ [])) h = absurd (omega (arith, h))
six (a ∷ (b ∷ (c ∷ []))) h = absurd (omega (arith, h))
six (a ∷ (b ∷ (c ∷ (d ∷ [])))) h = absurd (omega (arith, h))
six (a ∷ (b ∷ (c ∷ (d ∷ (e ∷ []))))) h = absurd (omega (arith, h))
six (a ∷ (b ∷ (c ∷ (d ∷ (e ∷ (f ∷ [])))))) h = (a, b, c, d, e, f, refl)
six (a ∷ (b ∷ (c ∷ (d ∷ (e ∷ (f ∷ (g ∷ A))))))) h = absurd (omega (arith, h))

-- what is unpacked from the parts of a frame
unpack_parts :
    (A B D S payload : List ℕ) (d s c p : ℕ)
    → length A ≡ 6
    → length B ≡ 6
    → unpack_callsign A ≡ some D
    → unpack_callsign B ≡ some S
    → ax25_unpack (A ++ (d ∷ (B ++ (s ∷ c ∷ p ∷ payload))))
      ≡ ok (record {
        dest_callsign = D;
        dest_ssid = unpack_ssid d;
        src_callsign = S;
        src_ssid = unpack_ssid s;
        control = c;
        pid = p;
        command = c_bit d;
        response = c_bit s;
        payload = payload;
      })
unfolding ax25_unpack
unpack_parts A B D S payload d s c p lA lB uA uB =
    let (a0, a1, a2, a3, a4, a5, eA) = six A lA in
    let (b0, b1, b2, b3, b4, b5, eB) = six B lB in
    let rest : List ℕ = B ++ (s ∷ c ∷ p ∷ payload) in
    let long : ltb (length (A ++ (d ∷ rest))) 16 ≡ false =
      ground (arith, lA, lB, length-append A (d ∷ rest), length-append B (s ∷ c ∷ p ∷ payload)) in
    let fA : take 6 (A ++ (d ∷ rest)) ≡ A = rw eA refl in
    let fB : take 6 (drop 7 (A ++ (d ∷ rest))) ≡ B = rw (eA, eB) refl in
    rw (long, fA, uA, fB, uB) (rw (eA, eB) refl)

-- Two callsigns of at most six ASCII characters, SSIDs up to 15, a control and a PID that are bytes
-- and at most 1024 bytes of payload are packed into 16 bytes and the payload, which unpack to the
-- same fields, the callsigns without the white space at their ends.
pub ax25_unpack-ax25_pack :
    (dest src payload : List ℕ) (dest_ssid src_ssid control pid : ℕ) (command response : Bool)
    → is_ascii dest ≡ true
    → length dest ≤ callsign_len
    → is_ascii src ≡ true
    → length src ≤ callsign_len
    → dest_ssid ≤ 15
    → src_ssid ≤ 15
    → control ≤ 0xFF
    → pid ≤ 0xFF
    → length payload ≤ payload_max_len
    → (raw : List ℕ) × (ax25_pack dest
          (pos dest_ssid)
          src
          (pos src_ssid)
          (pos control)
          (pos pid)
          command
          response
          payload
        ≡ ok raw)
      × (length raw ≡ header_len + length payload)
      × (ax25_unpack raw
          ≡ ok (record {
            dest_callsign = rstrip dest;
            dest_ssid = dest_ssid;
            src_callsign = rstrip src;
            src_ssid = src_ssid;
            control = control;
            pid = pid;
            command = command;
            response = response;
            payload = payload;
          }))
unfolding ax25_pack frame
ax25_unpack-ax25_pack dest src payload dest_ssid src_ssid control pid command response ad ld asc ls
      hd hs hc hp hl =
    let A = pack_callsign dest in
    let B = pack_callsign src in
    let lA = length-pack_callsign dest ad ld in
    let lB = length-pack_callsign src asc ls in
    let d = ssid_byte dest_ssid command in
    let s = bit_or (ssid_byte src_ssid response) 1 in
    let (d_ssid, d_bit, _, _) = unpack_ssid-ssid_byte dest_ssid command hd in
    let (_, _, s_ssid, s_bit) = unpack_ssid-ssid_byte src_ssid response hs in
    let tail : List ℕ = s ∷ control ∷ pid ∷ payload in
    (
      A ++ (d ∷ (B ++ tail)),
      ground (arith, ld, ls, hd, hs, hc, hp, hl),
      omega (arith, lA, lB, length-append A (d ∷ (B ++ tail)), length-append B tail),
      unpack_parts A B (rstrip dest) (rstrip src) payload d s control pid lA lB
            (unpack_callsign-pack_callsign dest ad) (unpack_callsign-pack_callsign src asc)
          ∙ rw (d_ssid, d_bit, s_ssid, s_bit) refl,
    )
