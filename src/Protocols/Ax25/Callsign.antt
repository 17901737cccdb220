-- ===== src/Protocols/Ax25/Callsign.antt =====
-- oresat_c3/protocols/ax25.py: the callsigns and the SSIDs of a frame come back as they were.
use Prim.Native.Nat.{bit_or}
use oresat_c3_software_esi.Base.{
  ◌≡◌, refl, ap, ◌∙◌, inl, inr, Bool-cases, ==_iff, arith, ℕ, zero, suc, ◌+◌, ◌-◌, ◌*◌, ◌/◌, ◌%◌,
  ◌≤◌, ◌<◌, Bool, true, false, not, ◌&&◌, some, List, [], ◌∷◌, ◌++◌, length, replicate,
  length-append, length-replicate, ◌==◌, if◌then◌else◌,
}
use oresat_c3_software_esi.Protocols.Ax25.{
  encode, shift_left, shift_right, top_bit, pad, ssid_byte, pack_callsign, rstrip, is_ascii,
  unpack_callsign, unpack_ssid, c_bit, callsign_len,
}

is_ascii-append :
    (xs ys : List ℕ) → is_ascii xs ≡ true → is_ascii ys ≡ true → is_ascii (xs ++ ys) ≡ true
is_ascii-append [] ys h k = k
is_ascii-append (x ∷ xs) ys h k = ground (arith, is_ascii-append xs ys, h, k)

is_ascii-replicate : (n : ℕ) → is_ascii (replicate n 0x20) ≡ true
is_ascii-replicate zero = refl
is_ascii-replicate (suc n) = is_ascii-replicate n

encode_ascii : (cs : List ℕ) → is_ascii cs ≡ true → encode cs ≡ cs
unfolding encode
encode_ascii [] h = refl
encode_ascii (c ∷ cs) h = ground (arith, encode_ascii cs, h)

pub length-shift_left : (bs : List ℕ) → length (shift_left bs) ≡ length bs
unfolding shift_left
length-shift_left [] = refl
length-shift_left (b ∷ bs) = omega (arith, length-shift_left bs)

top_bit_ascii : (cs : List ℕ) → is_ascii cs ≡ true → top_bit cs ≡ 0
top_bit_ascii [] h = refl
top_bit_ascii (c ∷ cs) h = ground (arith, h)

-- The shifts undo each other on ASCII.
shift_right-shift_left : (cs : List ℕ) → is_ascii cs ≡ true → shift_right 0 (shift_left cs) ≡ cs
unfolding shift_right shift_left
shift_right-shift_left [] h = refl
shift_right-shift_left (c ∷ cs) h =
    let small : c < 0x80 = ground (arith, h) in
    let rest : is_ascii cs ≡ true = ground (arith, h) in
    let byte : (c * 2) % 0x100 + top_bit cs ≡ c * 2 = omega (arith, small, top_bit_ascii cs rest) in
    let half : 0 * 0x80 + c * 2 / 2 ≡ c = omega arith in
    let even : c * 2 % 2 ≡ 0 = omega arith in
    rw (shift_left, shift_right, byte, half, even)
      (ap (λ xs. c ∷ xs) (shift_right-shift_left cs rest))

rstrip-replicate : (n : ℕ) → rstrip (replicate n 0x20) ≡ []
unfolding rstrip
rstrip-replicate zero = refl
rstrip-replicate (suc n) = ground (arith, rstrip-replicate n)

rstrip_padded : (cs : List ℕ) (n : ℕ) → rstrip (cs ++ replicate n 0x20) ≡ rstrip cs
unfolding rstrip
rstrip_padded [] n = rstrip-replicate n
rstrip_padded (c ∷ cs) n = ground (arith, rstrip_padded cs n)

pad-is_ascii : (cs : List ℕ) → is_ascii cs ≡ true → is_ascii (pad cs) ≡ true
pad-is_ascii cs h =
    is_ascii-append cs (replicate (callsign_len - length cs) 0x20) h
      (is_ascii-replicate (callsign_len - length cs))

length-pad : (cs : List ℕ) → length cs ≤ callsign_len → length (pad cs) ≡ callsign_len
length-pad cs h = omega (
  arith,
  h,
  length-append cs (replicate (callsign_len - length cs) 0x20),
  length-replicate {A = ℕ} (callsign_len - length cs) 0x20,
)

pub length-pack_callsign :
    (cs : List ℕ)
    → is_ascii cs ≡ true
    → length cs ≤ callsign_len
    → length (pack_callsign cs) ≡ callsign_len
unfolding pack_callsign
length-pack_callsign cs a h =
    length-shift_left (encode (pad cs))
    ∙ ap length (encode_ascii (pad cs) (pad-is_ascii cs a))
    ∙ length-pad cs h

-- A callsign of ASCII characters comes back without the white space at its end.
pub unpack_callsign-pack_callsign :
    (cs : List ℕ) → is_ascii cs ≡ true → unpack_callsign (pack_callsign cs) ≡ some (rstrip cs)
unfolding unpack_callsign pack_callsign
unpack_callsign-pack_callsign cs a =
    let p = pad-is_ascii cs a in
    rw (encode_ascii (pad cs) p, shift_right-shift_left (pad cs) p, p)
      (ap some (rstrip_padded cs (callsign_len - length cs)))

-- both c-bits, and both values of the bit that ends the address
ssid_holds : ℕ → Bool
unfolding ssid_byte
ssid_holds n =
    let both = λ (c : Bool) (b : ℕ). unpack_ssid b == n && (if c then c_bit b else not (c_bit b)) in
    both true (ssid_byte n true)
    && both false (ssid_byte n false)
    && both true (bit_or (ssid_byte n true) 1)
    && both false (bit_or (ssid_byte n false) 1)

all_below : (ℕ → Bool) → ℕ → Bool
all_below p zero = true
all_below p (suc n) = p n && all_below p n

all_below-holds : (p : ℕ → Bool) (n i : ℕ) → all_below p n ≡ true → i < n → p i ≡ true
unfolding all_below
all_below-holds p zero i h l = absurd (omega (arith, l))
all_below-holds p (suc n) i h l = elim (Bool-cases (i == n)) [
  | inl e ↦ let k : i ≡ n = (==_iff i n).0 e in rw k (ground (arith, h))
  | inr e ↦ all_below-holds p n i (ground (arith, h)) (ground (arith, e, l))
]

-- An SSID and its c-bit come back from its byte, also with the bit that ends the address.
pub unpack_ssid-ssid_byte :
    (n : ℕ) (c : Bool)
    → n ≤ 15
    → (unpack_ssid (ssid_byte n c) ≡ n)
      × (c_bit (ssid_byte n c) ≡ c)
      × (unpack_ssid (bit_or (ssid_byte n c) 1) ≡ n)
      × (c_bit (bit_or (ssid_byte n c) 1) ≡ c)
unfolding ssid_holds all_below ssid_byte
unpack_ssid-ssid_byte n c h =
    let k : ssid_holds n ≡ true = all_below-holds ssid_holds 16 n refl (omega (arith, h)) in
    ground (arith, k)
