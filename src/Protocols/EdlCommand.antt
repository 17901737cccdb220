-- ===== src/Protocols/EdlCommand.antt =====
-- oresat_c3/protocols/edl_command.py: the EDL commands, and the bytes of their requests and
-- responses.
pub mod Struct
pub mod Callbacks
pub mod Codes
pub mod RoundTrip
mod Tests
use oresat_c3_software_esi.Base.{ℕ, Option, none, some, List, [], ◌∷◌}
use oresat_c3_software_esi.Protocols.EdlCommand.Struct.{
  Field, flag, u8, u16, u32, Value, Error, index_error, value_error, Result, ok, err, after,
  pack_fields, unpack_fields,
}
use oresat_c3_software_esi.Protocols.EdlCommand.Callbacks.{
  Callback, sdo_write, sdo_read, node_flash, pack_callback, unpack_callback,
}
use oresat_c3_software_esi.Protocols.EdlCommand.Codes.{
  EdlCommandCode, tx_ctrl, c3_soft_reset, c3_hard_reset, c3_factory_reset, co_node_enable,
  co_node_status, co_sdo_write, co_sync, opd_sysenable, opd_scan, opd_probe, opd_enable, opd_reset,
  opd_status, rtc_set_time, time_sync, beacon_ping, ping, rx_test, co_sdo_read, co_node_flash,
  code_value, code_of,
}

-- How one side of a command is packed: not at all, by a format of `struct`, or by a pair of
-- callback functions.
pub data Layout : Type 0 where
  empty : Layout
  format : List Field → Layout
  callback : Callback → Layout

pub record EdlCommand : Type 0 where
  pub req : Layout
  pub res : Layout

-- `EDL_COMMANDS`
unfoldable pub edl_commands : EdlCommandCode → EdlCommand
edl_commands tx_ctrl = record { req = format (flag ∷ []); res = format (flag ∷ []) }
edl_commands c3_soft_reset = record { req = empty; res = empty }
edl_commands c3_hard_reset = record { req = empty; res = empty }
edl_commands c3_factory_reset = record { req = empty; res = empty }
edl_commands co_node_enable = record { req = empty; res = empty }
edl_commands co_node_status = record { req = format (u8 ∷ []); res = format (u8 ∷ []) }
edl_commands co_sdo_write = record { req = callback sdo_write; res = format (u32 ∷ []) }
edl_commands co_sync = record { req = empty; res = format (flag ∷ []) }
edl_commands opd_sysenable = record { req = format (flag ∷ []); res = format (flag ∷ []) }
edl_commands opd_scan = record { req = empty; res = format (u8 ∷ []) }
edl_commands opd_probe = record { req = format (u8 ∷ []); res = format (flag ∷ []) }
edl_commands opd_enable = record { req = format (u8 ∷ flag ∷ []); res = format (u8 ∷ []) }
edl_commands opd_reset = record { req = format (u8 ∷ []); res = format (u8 ∷ []) }
edl_commands opd_status = record { req = format (u8 ∷ []); res = format (u8 ∷ []) }
edl_commands rtc_set_time = record { req = format (u32 ∷ []); res = format (flag ∷ []) }
edl_commands time_sync = record { req = empty; res = format (flag ∷ []) }
edl_commands beacon_ping = record { req = empty; res = empty }
edl_commands ping = record { req = format (u32 ∷ []); res = format (u32 ∷ []) }
edl_commands rx_test = record { req = empty; res = empty }
edl_commands co_sdo_read = record { req = format (u8 ∷ u16 ∷ u8 ∷ []); res = callback sdo_read }
edl_commands co_node_flash = record { req = callback node_flash; res = format (flag ∷ []) }

-- the arguments or values, packed; those of an empty side are not looked at
unfoldable pub pack_layout : Layout → List Value → Result (List ℕ)
pack_layout empty values = ok []
pack_layout (format fields) values = pack_fields fields values
pack_layout (callback c) values = pack_callback c values

unfoldable pub unpack_layout : Layout → List ℕ → Result (List Value)
unpack_layout empty raw = ok []
unpack_layout (format fields) raw = unpack_fields fields raw
unpack_layout (callback c) raw = unpack_callback c raw

-- `EdlCommandRequest`; `EdlCommandResponse` has `values` in place of `args`.
pub record EdlCommandRequest : Type 0 where
  pub code : EdlCommandCode
  pub args : List Value

pub record EdlCommandResponse : Type 0 where
  pub code : EdlCommandCode
  pub values : List Value

unfoldable pub pack_request : EdlCommandRequest → Result (List ℕ)
pack_request r =
    after (λ rest. ok (code_value r.code ∷ rest)) (pack_layout (edl_commands r.code).req r.args)

unfoldable pub pack_response : EdlCommandResponse → Result (List ℕ)
pack_response r =
    after (λ rest. ok (code_value r.code ∷ rest)) (pack_layout (edl_commands r.code).res r.values)

unfoldable pub unpack_request : List ℕ → Result EdlCommandRequest
unpack_request [] = err index_error
unpack_request (b ∷ rest) = elim (code_of b) [
  | none ↦ err value_error
  | some code ↦
      after (λ args. ok (record { code = code; args = args }))
        (unpack_layout (edl_commands code).req rest)
]

unfoldable pub unpack_response : List ℕ → Result EdlCommandResponse
unpack_response [] = err index_error
unpack_response (b ∷ rest) = elim (code_of b) [
  | none ↦ err value_error
  | some code ↦
      after (λ values. ok (record { code = code; values = values }))
        (unpack_layout (edl_commands code).res rest)
]
