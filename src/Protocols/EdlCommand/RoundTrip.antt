-- ===== src/Protocols/EdlCommand/RoundTrip.antt =====
-- oresat_c3/protocols/edl_command.py: a packed request or response unpacks to itself.
use oresat_c3_software_esi.Base.{
  ◌≡◌, refl, ◌∙◌, arith, ℕ, ◌+◌, ◌*◌, ◌/◌, ◌%◌, Bool, true, false, not, ◌&&◌, List, [], ◌∷◌, ◌++◌,
  length, take-append, drop-append, length-append, ltb, ◌==◌,
}
use oresat_c3_software_esi.Protocols.EdlCommand.Struct.{
  Field, flag, u8, u16, u32, f32, Value, bool, int, float, bytes, str, ok, pack_field, pack_fields,
  unpack_fields, cons_value, calcsize, of_le32, le16, le32,
}
use oresat_c3_software_esi.Protocols.EdlCommand.Callbacks.{
  sdo_write, sdo_read, node_flash, write_fields, read_fields, flash_fields, pack_sdo_write,
  pack_sdo_read, pack_node_flash, unpack_with_rest, with_rest, unpack_node_flash, is_utf8,
  strip_zeros, pack_callback, unpack_callback,
}
use oresat_c3_software_esi.Protocols.EdlCommand.Codes.{code_value, code_of-code_value}
use oresat_c3_software_esi.Protocols.EdlCommand.{
  Layout, empty, format, callback, edl_commands, pack_layout, unpack_layout, EdlCommandRequest,
  EdlCommandResponse, pack_request, unpack_request, pack_response, unpack_response,
}

-- A value of the kind of a field, in its range.
abbrev pub fits : Field → Value → Bool
fits flag (bool b) = true
fits u8 (int n) = ltb n 0x100
fits u16 (int n) = ltb n 0x10000
fits u32 (int n) = ltb n 0x100000000
fits f32 (float n) = ltb n 0x100000000
fits _ _ = false

abbrev pub all_fit : List Field → List Value → Bool
all_fit [] [] = true
all_fit (f ∷ fs) (v ∷ vs) = fits f v && all_fit fs vs
all_fit _ _ = false

of_le32-le32 :
    (n : ℕ) → of_le32 (n % 0x100) (n / 0x100 % 0x100) (n / 0x10000 % 0x100) (n / 0x1000000) ≡ n
of_le32-le32 n = omega arith

-- A field's value packs to `raw`, from which any unpacking goes on.
record PacksTo (f : Field) (v : Value) (raw : List ℕ) : Type 0 where
  packs : pack_field f v ≡ ok raw
  width : (fs : List Field) → calcsize (f ∷ fs) ≡ length raw + calcsize fs
  unpacks :
      (fs : List Field) (rest : List ℕ)
      → unpack_fields (f ∷ fs) (raw ++ rest) ≡ cons_value v (unpack_fields fs rest)

field-PacksTo : (f : Field) (v : Value) → fits f v ≡ true → (raw : List ℕ) × PacksTo f v raw
unfolding pack_field unpack_fields
field-PacksTo flag (bool true) h =
    (1 ∷ [], record { packs = refl; width = λ fs. refl; unpacks = λ fs rest. refl })
field-PacksTo flag (bool false) h =
    (0 ∷ [], record { packs = refl; width = λ fs. refl; unpacks = λ fs rest. refl })
field-PacksTo u8 (int n) h =
    (n ∷ [], record { packs = ground (arith, h); width = λ fs. refl; unpacks = λ fs rest. refl })
field-PacksTo u16 (int n) h =
    let e : n % 0x100 + n / 0x100 * 0x100 ≡ n = omega arith in
    (
      le16 n,
      record { packs = ground (arith, h); width = λ fs. refl; unpacks = λ fs rest. rw e refl },
    )
field-PacksTo u32 (int n) h = (
  le32 n,
  record {
    packs = ground (arith, h);
    width = λ fs. refl;
    unpacks = λ fs rest. rw (of_le32-le32 n) refl;
  },
)
field-PacksTo f32 (float n) h = (
  le32 n,
  record {
    packs = ground (arith, h);
    width = λ fs. refl;
    unpacks = λ fs rest. rw (of_le32-le32 n) refl;
  },
)
field-PacksTo _ _ h = ground arith

-- The bytes `raw` are what `values` pack to by `fields`, and unpack to `values`.
record Holds (fields : List Field) (values : List Value) (raw : List ℕ) : Type 0 where
  packs : pack_fields fields values ≡ ok raw
  size : calcsize fields ≡ length raw
  unpacks : unpack_fields fields raw ≡ ok values

fields-Holds :
    (fields : List Field) (values : List Value)
    → all_fit fields values ≡ true
    → (raw : List ℕ) × Holds fields values raw
unfolding pack_fields unpack_fields
fields-Holds [] [] h = ([], record { packs = refl; size = refl; unpacks = refl })
fields-Holds (f ∷ fs) (v ∷ vs) h =
    let (b, one) = field-PacksTo f v (ground (arith, h)) in
    let (bs, all) = fields-Holds fs vs (ground (arith, h)) in
    (
      b ++ bs,
      record {
        packs = rw (pack_fields, one.packs, all.packs) refl;
        size = omega (arith, one.width fs, all.size, length-append b bs);
        unpacks = one.unpacks fs bs ∙ rw all.unpacks refl;
      },
    )
fields-Holds [] (v ∷ vs) h = ground arith
fields-Holds (f ∷ fs) [] h = ground arith

-- The arguments that a callback packs without loss: a format, and the buffer or the file name, which
-- is UTF-8 that does not end on a zero.
abbrev pub fits_write : List Value → Bool
fits_write (a ∷ b ∷ c ∷ d ∷ bytes buffer ∷ []) = all_fit write_fields (a ∷ b ∷ c ∷ d ∷ [])
fits_write _ = false

abbrev pub fits_read : List Value → Bool
fits_read (a ∷ b ∷ c ∷ d ∷ e ∷ bytes buffer ∷ []) = all_fit read_fields (a ∷ b ∷ c ∷ d ∷ e ∷ [])
fits_read _ = false

abbrev pub ends_well : List ℕ → Bool
ends_well [] = true
ends_well (b ∷ []) = not (b == 0)
ends_well (b ∷ (c ∷ bs)) = ends_well (c ∷ bs)

abbrev pub fits_flash : List Value → Bool
fits_flash (a ∷ str name ∷ b ∷ c ∷ d ∷ e ∷ []) =
    all_fit flash_fields (a ∷ b ∷ c ∷ d ∷ e ∷ []) && is_utf8 name && ends_well name
fits_flash _ = false

abbrev is_none : List Value → Bool
is_none [] = true
is_none (v ∷ vs) = false

abbrev pub fits_layout : Layout → List Value → Bool
fits_layout empty values = is_none values
fits_layout (format fields) values = all_fit fields values
fits_layout (callback sdo_write) values = fits_write values
fits_layout (callback sdo_read) values = fits_read values
fits_layout (callback node_flash) values = fits_flash values

strip_zeros_none : (name : List ℕ) → ends_well name ≡ true → strip_zeros name ≡ name
unfolding strip_zeros
strip_zeros_none [] h = refl
strip_zeros_none (b ∷ []) h = ground (arith, h)
strip_zeros_none (b ∷ (c ∷ bs)) h = let e = strip_zeros_none (c ∷ bs) h in ground (arith, e)

-- The values pack to bytes that unpack to them.
record LayoutHolds (l : Layout) (values : List Value) (raw : List ℕ) : Type 0 where
  packs : pack_layout l values ≡ ok raw
  unpacks : unpack_layout l raw ≡ ok values

-- a format, and a buffer after it
unpack_with_rest-Holds :
    (fields : List Field) (values : List Value) (raw buffer : List ℕ)
    → Holds fields values raw
    → unpack_with_rest fields (raw ++ buffer) ≡ ok (with_rest (bytes buffer) values)
unpack_with_rest-Holds fields values raw buffer h =
    rw (h.size, take-append raw buffer, drop-append raw buffer, h.unpacks) refl

flash-LayoutHolds :
    (name : List ℕ) (a b c d e : Value)
    → fits_flash (a ∷ str name ∷ b ∷ c ∷ d ∷ e ∷ []) ≡ true
    → (raw : List ℕ) × LayoutHolds (callback node_flash) (a ∷ str name ∷ b ∷ c ∷ d ∷ e ∷ []) raw
unfolding pack_layout unpack_layout pack_callback unpack_callback pack_node_flash unpack_node_flash
flash-LayoutHolds name a b c d e h =
    let values : List Value = a ∷ b ∷ c ∷ d ∷ e ∷ [] in
    let (raw, p) = fields-Holds flash_fields values (ground (arith, h)) in
    let utf8 : is_utf8 name ≡ true = ground (arith, h) in
    let same = strip_zeros_none name (ground (arith, h)) in
    (
      raw ++ name,
      record {
        packs = rw p.packs (refl {a = ok (raw ++ name)});
        unpacks =
            rw (p.size, take-append raw name, drop-append raw name, p.unpacks, utf8, same) refl;
      },
    )

layout-LayoutHolds :
    (l : Layout) (values : List Value)
    → fits_layout l values ≡ true
    → (raw : List ℕ) × LayoutHolds l values raw
unfolding pack_layout unpack_layout pack_callback unpack_callback pack_sdo_write pack_sdo_read
layout-LayoutHolds empty [] h = ([], record { packs = refl; unpacks = refl })
layout-LayoutHolds empty (v ∷ vs) h = ground arith
layout-LayoutHolds (format fields) values h =
    let (raw, p) = fields-Holds fields values h in
    (raw, record { packs = p.packs; unpacks = p.unpacks })
layout-LayoutHolds (callback sdo_write) (a ∷ b ∷ c ∷ d ∷ bytes buffer ∷ []) h =
    let (raw, p) = fields-Holds write_fields (a ∷ b ∷ c ∷ d ∷ []) h in
    (
      raw ++ buffer,
      record {
        packs = rw p.packs refl;
        unpacks = unpack_with_rest-Holds write_fields (a ∷ b ∷ c ∷ d ∷ []) raw buffer p;
      },
    )
layout-LayoutHolds (callback sdo_read) (a ∷ b ∷ c ∷ d ∷ e ∷ bytes buffer ∷ []) h =
    let (raw, p) = fields-Holds read_fields (a ∷ b ∷ c ∷ d ∷ e ∷ []) h in
    (
      raw ++ buffer,
      record {
        packs = rw p.packs refl;
        unpacks = unpack_with_rest-Holds read_fields (a ∷ b ∷ c ∷ d ∷ e ∷ []) raw buffer p;
      },
    )
layout-LayoutHolds (callback node_flash) (a ∷ str name ∷ b ∷ c ∷ d ∷ e ∷ []) h =
    flash-LayoutHolds name a b c d e h
layout-LayoutHolds (callback sdo_write) _ h = ground arith
layout-LayoutHolds (callback sdo_read) _ h = ground arith
layout-LayoutHolds (callback node_flash) _ h = ground arith

-- A request whose arguments are of the kinds of its command and in range, where a float is given by
-- the 32 bits that it is packed to and a file name is UTF-8 that does not end in a zero byte, packs
-- to bytes that unpack to the same request.
pub unpack_request-pack_request :
    (r : EdlCommandRequest)
    → fits_layout (edl_commands r.code).req r.args ≡ true
    → (raw : List ℕ) × (pack_request r ≡ ok raw) × (unpack_request raw ≡ ok r)
unfolding pack_request unpack_request
unpack_request-pack_request r h =
    let (rest, p) = layout-LayoutHolds (edl_commands r.code).req r.args h in
    (
      code_value r.code ∷ rest,
      rw p.packs refl,
      rw (unpack_request, code_of-code_value r.code, p.unpacks) refl,
    )

-- A response whose values are of the kinds of its command and in range packs to bytes that unpack to
-- the same response.
pub unpack_response-pack_response :
    (r : EdlCommandResponse)
    → fits_layout (edl_commands r.code).res r.values ≡ true
    → (raw : List ℕ) × (pack_response r ≡ ok raw) × (unpack_response raw ≡ ok r)
unfolding pack_response unpack_response
unpack_response-pack_response r h =
    let (rest, p) = layout-LayoutHolds (edl_commands r.code).res r.values h in
    (
      code_value r.code ∷ rest,
      rw p.packs refl,
      rw (unpack_response, code_of-code_value r.code, p.unpacks) refl,
    )
