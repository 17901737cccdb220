-- ===== src/Services/State/Fram.antt =====
-- oresat_c3/services/state.py: what StateService keeps in the F-RAM. The value of an object is the bytes
-- that it is encoded as; a value that was decoded from bytes is taken to be encoded as these again.
pub mod Held
pub mod RoundTrip
pub mod Zeroed
pub mod Keys
use oresat_c3_software_esi.Base.{
  ℕ, pos, ◌+◌, ◌%◌, Bool, true, false, List, [], ◌∷◌, length, ◌==◌, if◌then◌else◌, map,
}
use oresat_c3_software_esi.Drivers.Fm24cl64b
use oresat_c3_software_esi.Drivers.Fm24cl64b.{Fm24cl64b, Result, ok, err}
use oresat_c3_software_esi.Services.State.{pre_deploy}

-- `data_type`: DOMAIN, OCTET_STRING, or one that is encoded
pub data DataType : Type 0 where
  domain octet_string encoded : DataType

pub record FramObj : Type 0 where
  pub data_type : DataType
  pub is_status : Bool
  pub is_key : Bool
  pub value : List ℕ
  pub default : List ℕ

-- What goes on after a call of the driver; `Fm24cl64bError` ends the method.
abbrev pub then_call :
    {A B : Type 0} → (A → Fm24cl64b → B) → (Fm24cl64b → B) → Result A × Fm24cl64b → B
then_call next raised (ok a, f) = next a f
then_call next raised (err _, f) = raised f

-- the bytes by which `store_state` moves on
abbrev pub stored_len : FramObj → ℕ
stored_len o = elim o.data_type [
  | domain ↦ 0
  | octet_string ↦ length o.default
  | encoded ↦ length o.value
]

abbrev pub is_domain : DataType → Bool
is_domain domain = true
is_domain _ = false

abbrev pub failed : Fm24cl64b → Bool × Fm24cl64b
failed f = (false, f)

-- the loop of `store_state`: whether it returns
unfoldable pub store_objs : List FramObj → ℕ → Fm24cl64b → Bool × Fm24cl64b
store_objs [] offset f = (true, f)
store_objs (o ∷ os) offset f =
    let rest = λ (_ : Unit {0}). store_objs os (offset + stored_len o) in
    let skipped = store_objs os offset f in
    if is_domain o.data_type
    then skipped
    else then_call rest failed (Fm24cl64b.write (pos offset) o.value f)

-- `store_state`
unfoldable pub store_state : ℕ → List FramObj → Fm24cl64b → Bool × Fm24cl64b
unfolding store_objs
store_state c3_state objs f = if c3_state == pre_deploy then (true, f) else store_objs objs 0 f

-- `raw or C3State.PRE_DEPLOY…` for the status
abbrev pub raw_or : Bool → List ℕ → List ℕ
raw_or true [] = pre_deploy ∷ []
raw_or true (b ∷ bs) = b ∷ bs
raw_or false raw = raw

-- the bytes that `restore_state` reads: `len(obj.default)`, or of its encoding
abbrev pub restored_len : FramObj → ℕ
restored_len o = length o.default

abbrev pub restored_value : FramObj → List ℕ → List ℕ
restored_value o raw = elim o.data_type [
  | domain ↦ o.value
  | octet_string ↦ raw
  | encoded ↦ raw_or o.is_status raw
]

abbrev pub and_then : FramObj → Bool × List FramObj × Fm24cl64b → Bool × List FramObj × Fm24cl64b
and_then o (done, os, f) = (done, o ∷ os, f)

-- the loop of `restore_state`: whether it returns, and the objects with their new values
unfoldable pub restore_objs : List FramObj → ℕ → Fm24cl64b → Bool × List FramObj × Fm24cl64b
restore_objs [] offset f = (true, [], f)
restore_objs (o ∷ os) offset f =
    let rest = λ (raw : List ℕ) (f : Fm24cl64b).
      and_then (record o { value = restored_value o raw })
        (restore_objs os (offset + restored_len o) f) in
    let skipped = and_then o (restore_objs os offset f) in
    if is_domain o.data_type
    then skipped
    else then_call rest (λ (f : Fm24cl64b). (false, o ∷ os, f))
        (Fm24cl64b.read (pos offset) (pos (restored_len o)) f)

-- `restore_state`
unfoldable pub restore_state : List FramObj → Fm24cl64b → Bool × List FramObj × Fm24cl64b
unfolding restore_objs
restore_state objs f = restore_objs objs 0 f

-- the loop of `clear_state`: only the keys are written again
unfoldable pub store_keys : List FramObj → ℕ → Fm24cl64b → Bool × Fm24cl64b
store_keys [] offset f = (true, f)
store_keys (o ∷ os) offset f =
    let rest = λ (_ : Unit {0}). store_keys os (offset + length o.default) in
    let skipped = store_keys os offset f in
    let passed = store_keys os (offset + length o.value) f in
    if is_domain o.data_type
    then skipped
    else if o.is_key
    then then_call rest failed (Fm24cl64b.write (pos offset) o.value f)
    else passed

-- `clear_state`, but for the clock
unfoldable pub clear_state : List FramObj → Fm24cl64b → Bool × Fm24cl64b
unfolding store_keys
clear_state objs f = then_call (λ _ f. store_keys objs 0 f) failed (Fm24cl64b.clear f)
