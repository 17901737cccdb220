-- ===== src/Drivers/Fm24cl64b/RoundTrip.antt =====
-- oresat_c3/drivers/fm24cl64b.py: what was written is read back, and nothing else is changed.
use oresat_c3_software_esi.Base.{
  ◌≡◌, refl, sym, ap, ◌∙◌, ◌⊎◌, inl, inr, Bool-cases, if◌then◌else◌, ◌||◌, arith, ℕ, zero, suc, pos,
  ◌+◌, ◌≤◌, false, List, [], ◌∷◌, ◌++◌, length, take, take-append, drop, length-replicate,
  replicate, ◌/◌, ltb,
}
use oresat_c3_software_esi.Drivers.Fm24cl64b.{
  Fm24cl64b, Result, ok, err, fm24cl64b_error, size, raises, transferred, slice, splice, clear,
  read, read_at, write, write_at,
}

pub slice-splice :
    (offset : ℕ) (bytes memory : List ℕ)
    → offset ≤ length memory
    → slice offset (length bytes) (splice offset bytes memory) ≡ bytes
slice-splice zero bytes memory h = take-append bytes (drop (length bytes) memory)
slice-splice (suc offset) bytes [] h = absurd (omega (arith, h))
slice-splice (suc offset) bytes (x ∷ memory) h = slice-splice offset bytes memory (omega (arith, h))

take_before :
    (n offset : ℕ) (bytes memory : List ℕ)
    → n ≤ offset
    → offset ≤ length memory
    → take n (splice offset bytes memory) ≡ take n memory
take_before zero offset bytes memory h k = refl
take_before (suc n) zero bytes memory h k = absurd (omega (arith, h))
take_before (suc n) (suc offset) bytes [] h k = absurd (omega (arith, k))
take_before (suc n) (suc offset) bytes (x ∷ memory) h k =
    ap (λ zs. x ∷ zs) (take_before n offset bytes memory (omega (arith, h)) (omega (arith, k)))

pub slice_before :
    (i n offset : ℕ) (bytes memory : List ℕ)
    → i + n ≤ offset
    → offset ≤ length memory
    → slice i n (splice offset bytes memory) ≡ slice i n memory
slice_before zero n offset bytes memory h k = take_before n offset bytes memory (omega (arith, h)) k
slice_before (suc i) n zero bytes memory h k = absurd (omega (arith, h))
slice_before (suc i) n (suc offset) bytes [] h k = absurd (omega (arith, k))
slice_before (suc i) n (suc offset) bytes (x ∷ memory) h k =
    slice_before i n offset bytes memory (omega (arith, h)) (omega (arith, k))

drop_after_bytes :
    (i : ℕ) (bytes memory : List ℕ)
    → length bytes ≤ i
    → length bytes ≤ length memory
    → drop i (bytes ++ drop (length bytes) memory) ≡ drop i memory
drop_after_bytes i [] memory h k = refl
drop_after_bytes zero (b ∷ bytes) memory h k = absurd (omega (arith, h))
drop_after_bytes (suc i) (b ∷ bytes) [] h k = absurd (omega (arith, k))
drop_after_bytes (suc i) (b ∷ bytes) (x ∷ memory) h k =
    drop_after_bytes i bytes memory (omega (arith, h)) (omega (arith, k))

drop_after :
    (i offset : ℕ) (bytes memory : List ℕ)
    → offset + length bytes ≤ i
    → offset + length bytes ≤ length memory
    → drop i (splice offset bytes memory) ≡ drop i memory
drop_after i zero bytes memory h k =
    drop_after_bytes i bytes memory (omega (arith, h)) (omega (arith, k))
drop_after zero (suc offset) bytes memory h k = absurd (omega (arith, h))
drop_after (suc i) (suc offset) bytes [] h k = absurd (omega (arith, k))
drop_after (suc i) (suc offset) bytes (x ∷ memory) h k =
    drop_after i offset bytes memory (omega (arith, h)) (omega (arith, k))

pub length-splice :
    (offset : ℕ) (bytes memory : List ℕ)
    → offset + length bytes ≤ length memory
    → length (splice offset bytes memory) ≡ length memory
length-splice zero [] memory h = refl
length-splice zero (b ∷ bytes) [] h = absurd (omega (arith, h))
length-splice zero (b ∷ bytes) (x ∷ memory) h =
    omega (arith, length-splice zero bytes memory (omega (arith, h)))
length-splice (suc offset) bytes [] h = absurd (omega (arith, h))
length-splice (suc offset) bytes (x ∷ memory) h =
    omega (arith, length-splice offset bytes memory (omega (arith, h)))

-- The memory has its size, and no transfer raises.
pub record IsReady (f : Fm24cl64b) : Type 0 where
  pub full : length f.memory ≡ size
  pub quiet : f.bus_errors ≡ []

pub transferred_quiet :
    (f : Fm24cl64b)
    → f.bus_errors ≡ []
    → ((transferred f).bus_errors ≡ []) × ((transferred f).memory ≡ f.memory)
transferred_quiet f q = elim (Bool-cases f.mock) [
  | inl m ↦ rw (transferred, m) (q, refl)
  | inr m ↦ rw (transferred, m, q) (refl, refl)
]

raises_quiet : (f : Fm24cl64b) → f.bus_errors ≡ [] → raises f ≡ false
raises_quiet f q = rw (raises, q) refl

-- what a read returns where no transfer raises
pub read_value : ℕ → ℕ → List ℕ → Result (List ℕ)
read_value i n bytes =
    if ltb n 1 || ltb size i || ltb size (i + n) then err fm24cl64b_error else ok bytes

pub read_value_ok :
    (i : ℕ) (bytes found : List ℕ)
    → 1 ≤ length bytes
    → i + length bytes ≤ size
    → read_value i (length bytes) found ≡ ok found
unfolding read_value
read_value_ok i bytes found l h = ground arith

pub read_quiet :
    (i n : ℕ) (f : Fm24cl64b)
    → f.bus_errors ≡ []
    → (read (pos i) (pos n) f).0 ≡ read_value i n (slice i n f.memory)
unfolding read read_at read_value
read_quiet i n f q = ground (arith, raises_quiet f q)

pub read_all :
    (i n : ℕ) (f : Fm24cl64b)
    → f.bus_errors ≡ []
    → 1 ≤ n
    → i + n ≤ size
    → read (pos i) (pos n) f ≡ (ok (slice i n f.memory), transferred f)
unfolding read read_at
read_all i n f q l h = ground (arith, raises_quiet f q)

pub write_quiet :
    (offset : ℕ) (bytes : List ℕ) (f : Fm24cl64b)
    → f.bus_errors ≡ []
    → 1 ≤ length bytes
    → offset + length bytes ≤ size
    → write (pos offset) bytes f
      ≡ (ok tt, record (transferred f) { memory = splice offset bytes f.memory })
unfolding write write_at
write_quiet offset bytes f q l h = ground (arith, raises_quiet f q)

pub slice_elsewhere :
    (i n offset : ℕ) (bytes memory : List ℕ)
    → offset + length bytes ≤ length memory
    → (i + n ≤ offset) ⊎ (offset + length bytes ≤ i)
    → slice i n (splice offset bytes memory) ≡ slice i n memory
slice_elsewhere i n offset bytes memory h (inl b) =
    slice_before i n offset bytes memory b (omega (arith, h))
slice_elsewhere i n offset bytes memory h (inr a) =
    ap (take n) (drop_after i offset bytes memory a h)

-- A non-empty write that ends inside of the memory of a ready chip goes through and leaves it ready;
-- a read of as many bytes at its offset returns them, and a read before or after it returns what it
-- did before the write.
pub read-write :
    (offset i n : ℕ) (bytes : List ℕ) (f : Fm24cl64b)
    → IsReady f
    → 1 ≤ length bytes
    → offset + length bytes ≤ size
    → let (r, f') = write (pos offset) bytes f in
      (r ≡ ok tt)
      × IsReady f'
      × ((read (pos offset) (pos (length bytes)) f').0 ≡ ok bytes)
      × ((i + n ≤ offset) ⊎ (offset + length bytes ≤ i)
          → (read (pos i) (pos n) f').0 ≡ (read (pos i) (pos n) f).0)
read-write offset i n bytes f v l h =
    let f' = record (transferred f) { memory = splice offset bytes f.memory } in
    let q = (transferred_quiet f v.quiet).0 in
    let inside : offset + length bytes ≤ length f.memory = omega (arith, h, v.full) in
    rw (write_quiet offset bytes f v.quiet l h) (
      refl,
      record { full = length-splice offset bytes f.memory inside ∙ v.full; quiet = q },
      read_quiet offset (length bytes) f' q
          ∙ read_value_ok offset bytes (slice offset (length bytes) f'.memory) l h
          ∙ ap ok (slice-splice offset bytes f.memory (omega (arith, inside))),
      λ e.
          read_quiet i n f' q
          ∙ ap (read_value i n) (slice_elsewhere i n offset bytes f.memory inside e)
          ∙ sym (read_quiet i n f v.quiet),
    )

-- clear of a ready chip goes through; then the lower half reads as zeros, and the upper half as
-- before.
pub clear-read :
    (i n : ℕ) (f : Fm24cl64b)
    → IsReady f
    → size / 2 ≤ i
    → let (r, f') = clear f in
      (r ≡ ok tt)
      × ((read (pos 0) (pos (size / 2)) f').0 ≡ ok (replicate (size / 2) 0))
      × ((read (pos i) (pos n) f').0 ≡ (read (pos i) (pos n) f).0)
unfolding clear
clear-read i n f v h =
    let zeros : List ℕ = replicate (size / 2) 0 in
    let len : length zeros ≡ 4096 = length-replicate {A = ℕ} (size / 2) 0 in
    let w = read-write 0 i n zeros f v (omega (arith, len)) (omega (arith, len)) in
    (w.0, rw len at w.2, w.3 (inr (omega (arith, len, h))))
