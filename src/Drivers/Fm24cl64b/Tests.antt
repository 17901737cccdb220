-- ===== src/Drivers/Fm24cl64b/Tests.antt =====
-- oresat_c3/drivers/fm24cl64b.py: runs at fixed values.
use oresat_c3_software_esi.Base.{
  ◌≡◌, refl, ◌⊎◌, arith, ℕ, pos, negsuc, ◌+◌, ◌≤◌, true, false, [], ◌∷◌, replicate,
  length-replicate,
}
use oresat_c3_software_esi.Drivers.Fm24cl64b.{
  Fm24cl64b, ok, err, fm24cl64b_error, size, read, write, write_at,
}
use oresat_c3_software_esi.Drivers.Fm24cl64b.RoundTrip.{IsReady, read-write}

-- a chip full of ones
abbrev chip : Fm24cl64b
chip = record { addr = 0x50; mock = false; memory = replicate size 1; bus_errors = [] }

chip-IsReady : IsReady chip
chip-IsReady = record { full = length-replicate {A = ℕ} size 1; quiet = refl }

out_of_range : (read (pos 8000) (pos 200) chip).0 ≡ err fm24cl64b_error
unfolding read
out_of_range = refl

negative_offset : (write (negsuc 3) (7 ∷ []) chip).0 ≡ err fm24cl64b_error
unfolding write
negative_offset = refl

no_chip : (write (pos 0) (7 ∷ []) (record chip { bus_errors = true ∷ [] })).0 ≡ err fm24cl64b_error
unfolding write write_at
no_chip = refl

read-write_example :
    let (r, f') = write (pos 3) (7 ∷ 8 ∷ []) chip in
    (r ≡ ok tt)
    × IsReady f'
    × ((read (pos 3) (pos 2) f').0 ≡ ok (7 ∷ 8 ∷ []))
    × ((5 + 4 ≤ 3) ⊎ (3 + 2 ≤ 5) → (read (pos 5) (pos 4) f').0 ≡ (read (pos 5) (pos 4) chip).0)
read-write_example = read-write 3 5 4 (7 ∷ 8 ∷ []) chip chip-IsReady (omega arith) (omega arith)
