-- ===== src/Services/Radios/Uhf.antt =====
-- oresat_c3/services/radios.py: class UHFRadio, by the levels that it sets on its lines, oldest first.
use oresat_c3_software_esi.Base.{Bool, true, false, List, [], ◌∷◌, ◌++◌}
use oresat_c3_software_esi.Services.Radios.Lband.{Radio, rf_reset_base}

pub data Line : Type 0 where
  uhf_enable pa_enable tot_clear : Line

pub record UhfRadio : Type 0 where
  pub base : Radio
  pub levels : List (Line × Bool)

abbrev pub set_line : Line → Bool → UhfRadio → UhfRadio
set_line line level u = record u { levels = u.levels ++ ((line, level) ∷ []) }

-- `_uhf_tot_clear`
unfoldable pub clear_tot : UhfRadio → UhfRadio
clear_tot u = set_line tot_clear false (set_line tot_clear true u)

unfoldable pub enable : UhfRadio → UhfRadio
unfolding clear_tot
enable u = clear_tot (set_line pa_enable true (set_line uhf_enable true u))

unfoldable pub disable : UhfRadio → UhfRadio
disable u = set_line pa_enable false (set_line uhf_enable false u)

unfoldable pub rf_reset : UhfRadio → UhfRadio
unfolding enable disable
rf_reset u = enable (disable (record u { base = rf_reset_base u.base }))
