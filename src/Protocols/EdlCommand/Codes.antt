-- ===== src/Protocols/EdlCommand/Codes.antt =====
-- oresat_c3/protocols/edl_command.py: enum EdlCommandCode.
use oresat_c3_software_esi.Base.{
  ℕ, ◌≡◌, refl, Option, none, some, List, [], ◌∷◌, ◌==◌, if◌then◌else◌,
}

pub data EdlCommandCode : Type 0 where
  tx_ctrl c3_soft_reset c3_hard_reset c3_factory_reset co_node_enable : EdlCommandCode
  co_node_status co_sdo_write co_sync opd_sysenable opd_scan opd_probe : EdlCommandCode
  opd_enable opd_reset opd_status rtc_set_time time_sync beacon_ping : EdlCommandCode
  ping rx_test co_sdo_read co_node_flash : EdlCommandCode

-- `code.value`
abbrev pub code_value : EdlCommandCode → ℕ
code_value tx_ctrl = 0
code_value c3_soft_reset = 1
code_value c3_hard_reset = 2
code_value c3_factory_reset = 3
code_value co_node_enable = 4
code_value co_node_status = 5
code_value co_sdo_write = 6
code_value co_sync = 7
code_value opd_sysenable = 8
code_value opd_scan = 9
code_value opd_probe = 10
code_value opd_enable = 11
code_value opd_reset = 12
code_value opd_status = 13
code_value rtc_set_time = 14
code_value time_sync = 15
code_value beacon_ping = 16
code_value ping = 17
code_value rx_test = 18
code_value co_sdo_read = 19
code_value co_node_flash = 20

-- `list(EdlCommandCode)`
abbrev pub all_codes : List EdlCommandCode
all_codes =
    tx_ctrl ∷ c3_soft_reset ∷ c3_hard_reset ∷ c3_factory_reset ∷ co_node_enable ∷ co_node_status
    ∷ co_sdo_write ∷ co_sync ∷ opd_sysenable ∷ opd_scan ∷ opd_probe ∷ opd_enable ∷ opd_reset
    ∷ opd_status ∷ rtc_set_time ∷ time_sync ∷ beacon_ping ∷ ping ∷ rx_test ∷ co_sdo_read
    ∷ co_node_flash ∷ []

find_code : ℕ → List EdlCommandCode → Option EdlCommandCode
find_code v [] = none
find_code v (c ∷ cs) = let rest = find_code v cs in if code_value c == v then some c else rest

-- `EdlCommandCode(v)`, none where it raises `ValueError`
unfoldable pub code_of : ℕ → Option EdlCommandCode
unfolding find_code
code_of v = find_code v all_codes

pub code_of-code_value : (c : EdlCommandCode) → code_of (code_value c) ≡ some c
unfolding code_of find_code
code_of-code_value tx_ctrl = refl
code_of-code_value c3_soft_reset = refl
code_of-code_value c3_hard_reset = refl
code_of-code_value c3_factory_reset = refl
code_of-code_value co_node_enable = refl
code_of-code_value co_node_status = refl
code_of-code_value co_sdo_write = refl
code_of-code_value co_sync = refl
code_of-code_value opd_sysenable = refl
code_of-code_value opd_scan = refl
code_of-code_value opd_probe = refl
code_of-code_value opd_enable = refl
code_of-code_value opd_reset = refl
code_of-code_value opd_status = refl
code_of-code_value rtc_set_time = refl
code_of-code_value time_sync = refl
code_of-code_value beacon_ping = refl
code_of-code_value ping = refl
code_of-code_value rx_test = refl
code_of-code_value co_sdo_read = refl
code_of-code_value co_node_flash = refl
