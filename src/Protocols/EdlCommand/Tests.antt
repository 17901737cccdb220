-- ===== src/Protocols/EdlCommand/Tests.antt =====
-- oresat_c3/protocols/edl_command.py: runs at fixed values.
use oresat_c3_software_esi.Base.{◌≡◌, refl, ℕ, true, false, List, [], ◌∷◌}
use oresat_c3_software_esi.Protocols.EdlCommand.Struct.{
  bool, int, float, bytes, str, ok, err, value_error, struct_error, index_error, unicode_error,
  pack_fields, pack_field, unpack_fields,
}
use oresat_c3_software_esi.Protocols.EdlCommand.Callbacks.{
  unpack_callback, unpack_node_flash, is_utf8,
}
use oresat_c3_software_esi.Protocols.EdlCommand.Codes.{
  co_sdo_read, co_node_flash, opd_enable, c3_hard_reset, code_of,
}
use oresat_c3_software_esi.Protocols.EdlCommand.RoundTrip.{unpack_request-pack_request}
use oresat_c3_software_esi.Protocols.EdlCommand.{
  EdlCommandRequest, EdlCommandResponse, edl_commands, pack_layout, unpack_layout, pack_request,
  unpack_request,
}

-- OPD_ENABLE of the card 0x1C
abbrev enable_card : EdlCommandRequest
enable_card = record { code = opd_enable; args = int 0x1C ∷ bool true ∷ [] }

-- CO_NODE_FLASH of "a.bin" with the defaults of the three options
abbrev flash : EdlCommandRequest
flash = record {
  code = co_node_flash;
  args =
      int 5
      ∷ str (97 ∷ 46 ∷ 98 ∷ 105 ∷ 110 ∷ [])
      ∷ float 0
      ∷ bool true
      ∷ bool true
      ∷ bool false
      ∷ [];
}

abbrev sdo_read_response : EdlCommandResponse
sdo_read_response = record {
  code = co_sdo_read;
  values = int 4 ∷ int 0x2000 ∷ int 1 ∷ int 0 ∷ int 2 ∷ bytes (7 ∷ 8 ∷ []) ∷ [];
}

packed_enable : pack_request enable_card ≡ ok (11 ∷ 0x1C ∷ 1 ∷ [])
unfolding pack_request edl_commands pack_layout pack_fields pack_field
packed_enable = refl

-- What a truncated or an unknown command raises is neither of the errors of the module.
truncated_ping : unpack_request (17 ∷ 1 ∷ 2 ∷ []) ≡ err struct_error
unfolding unpack_request code_of edl_commands unpack_layout unpack_fields
truncated_ping = refl

unknown_code : unpack_request (99 ∷ []) ≡ err value_error
unfolding unpack_request code_of
unknown_code = refl

no_code : unpack_request [] ≡ err index_error
unfolding unpack_request
no_code = refl

-- The lone lead byte of a two-byte character is no file name.
bad_name : unpack_request (20 ∷ 5 ∷ 0 ∷ 0 ∷ 0 ∷ 0 ∷ 1 ∷ 1 ∷ 0 ∷ 0xC3 ∷ []) ≡ err unicode_error
unfolding unpack_request code_of edl_commands unpack_layout unpack_callback unpack_node_flash
    unpack_fields is_utf8
bad_name = refl

-- A command with no format drops its arguments.
dropped_args : pack_request (record { code = c3_hard_reset; args = int 1 ∷ [] }) ≡ ok (2 ∷ [])
unfolding pack_request edl_commands pack_layout
dropped_args = refl

unpack_request-pack_request_example :
    (raw : List ℕ) × (pack_request flash ≡ ok raw) × (unpack_request raw ≡ ok flash)
unfolding edl_commands is_utf8
unpack_request-pack_request_example = unpack_request-pack_request flash refl
