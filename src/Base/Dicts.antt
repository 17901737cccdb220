-- ===== src/Base/Dicts.antt =====
-- A Python dict: its entries, oldest first. Names are only compared, so they are numbers here.
use Prim.Native.Nat.{ℕ}
use mathlib.Core.Path.{◌≡◌}
use mathlib.Core.Bool.{Bool, true, false}
use mathlib.Core.Option.{Option, none, some}
use mathlib.Core.List.{List, [], ◌∷◌}
use native.Mathlib.Omega.{arith}
use oresat_c3_software_esi.Base.Tests.{◌==◌, if◌then◌else◌}

abbrev pub Dict {ℓ} : Type ℓ → Type ℓ
Dict V = List (ℕ × V)

abbrev is_some {ℓ} : {V : Type ℓ} → Option V → Bool
is_some (some _) = true
is_some none = false

module _ {ℓ} {V : Type ℓ} (name : ℕ) where
  -- `entries[name]`, or none where that raises `KeyError`
  abbrev pub lookup : Dict V → Option V
  lookup [] = none
  lookup (entry ∷ entries) = if entry.0 == name then some entry.1 else lookup entries

  -- `name in entries`
  abbrev pub contains : Dict V → Bool
  contains entries = is_some (lookup entries)

  -- `entries[name] = value`: an old entry keeps its place, a new one is the last.
  abbrev pub insert : V → Dict V → Dict V
  insert value [] = (name, value) ∷ []
  insert value (entry ∷ entries) =
      let rest = insert value entries in
      if entry.0 == name then (name, value) ∷ entries else entry ∷ rest

pub lookup-insert {ℓ} :
    {V : Type ℓ} (other name : ℕ) (value : V) (entries : Dict V)
    → lookup other (insert name value entries)
      ≡ (if other == name then some value else lookup other entries)
lookup-insert other name value [] = ground arith
lookup-insert other name value (entry ∷ entries) =
    ground (arith, lookup-insert other name value entries)
