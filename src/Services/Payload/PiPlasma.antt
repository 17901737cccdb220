-- ===== src/Services/Payload/PiPlasma.antt =====
-- oresat_c3/services/payload.py: class PiPlasmaHandler. A file `c3_piplasma_<n>.txt` goes by its number
-- `n`. `node_readings` holds what `node_status` will return for the science card and `times` what
-- `int(monotonic())` will; a list that has run out reads 0. Which names `OreSatFile` takes and its order
-- are the parameters of the file cache. A method returns whether it ended without a raise.
use oresat_c3_software_esi.Base.{
  ℕ, zero, suc, ◌+◌, Bool, true, false, ◌||◌, Option, none, some, List, [], ◌∷◌, length, ltb, ◌==◌,
  if◌then◌else◌,
}
use oresat_c3_software_esi.Protocols.CacheStore
use oresat_c3_software_esi.Protocols.CacheStore.{CacheStore, Outcome, has}

pub data NodeCall : Type 0 where
  enable disable : NodeCall

pub record PiPlasma : Type 0 where
  pub state : ℕ
  pub store : CacheStore
  pub filesize : ℕ
  pub file : Option ℕ
  -- `_piplasma is not None`
  pub serial : Bool
  pub pwr_event : Bool
  pub mock : Bool
  pub node_readings : List ℕ
  pub times : List ℕ
  -- newest first
  pub node_calls : List NodeCall

abbrev pub threshold : ℕ
threshold = 524288

-- `__init__`
abbrev pub new : ℕ → CacheStore → Bool → Bool → List ℕ → List ℕ → PiPlasma
new state store pwr_event mock node_readings times = record {
  state = if ltb 1 state then 1 else state;
  store = store;
  filesize = 0;
  file = none;
  serial = false;
  pwr_event = pwr_event;
  mock = mock;
  node_readings = node_readings;
  times = times;
  node_calls = [];
}

abbrev pub head_or_zero : List ℕ → ℕ
head_or_zero [] = 0
head_or_zero (x ∷ _) = x

abbrev pub tail : List ℕ → List ℕ
tail [] = []
tail (_ ∷ xs) = xs

abbrev pub node_status : PiPlasma → ℕ × PiPlasma
node_status p = (head_or_zero p.node_readings, record p { node_readings = tail p.node_readings })

abbrev pub node_call : NodeCall → PiPlasma → PiPlasma
node_call c p = record p { node_calls = c ∷ p.node_calls }

-- `status == 1 or status == 2`, which reads the status again if it is not 1, and the call of `disable`
unfoldable pub disable_if_on : PiPlasma → PiPlasma
disable_if_on p =
    let (first, p1) = node_status p in
    let (second, p2) = node_status p1 in
    if first == 1 then node_call disable p1 else if second == 2 then node_call disable p2 else p2

unfoldable pub idle : PiPlasma → PiPlasma
unfolding disable_if_on
idle p = record (disable_if_on p) { serial = false }

unfoldable pub boot_piplasma : PiPlasma → PiPlasma
boot_piplasma p =
    let (sci_status, p') = node_status p in
    if sci_status == 1
    then p'
    else if sci_status == 2
    then record p' { serial = true; state = 2 }
    else if sci_status == 4 || sci_status == 0xFF
    then p'
    else node_call enable p'

-- the loop of `_make_file`, on fuel
unfoldable pub next_free : ℕ → ℕ → List ℕ → ℕ
next_free zero timestamp names = timestamp
next_free (suc fuel) timestamp names =
    let rest = next_free fuel (timestamp + 1) names in
    if has timestamp names then rest else timestamp

-- the fuel: one round for each file, and one
abbrev pub free_name : ℕ → List ℕ → ℕ
free_name timestamp names = next_free (suc (length names)) timestamp names

unfoldable pub powersave : PiPlasma → PiPlasma
powersave p = record p { state = if p.pwr_event then p.state else 1 }

module _ (valid : ℕ → Bool) (before : ℕ → ℕ → Bool) where
  unfoldable pub make_file : PiPlasma → PiPlasma
  make_file p =
      let name = free_name (head_or_zero p.times) p.store.names in
      record p {
        times = tail p.times;
        store = (CacheStore.create_file valid before name p.store).1;
        file = some name;
      }

  abbrev pub handle_by : Option ℕ → PiPlasma → PiPlasma
  handle_by none p = make_file p
  handle_by (some _) p =
      if ltb threshold p.filesize then make_file (record p { filesize = 0 }) else p

  unfoldable pub handle_file : PiPlasma → PiPlasma
  unfolding make_file
  handle_file p = handle_by p.file p

  abbrev pub appended : List ℕ → Outcome × CacheStore → PiPlasma → Bool × PiPlasma
  appended out (CacheStore.file_not_found, store) p = (false, record p { store = store })
  appended out (_, store) p = (true, record p { store = store; filesize = p.filesize + length out })

  abbrev pub write_to : Option ℕ → List ℕ → PiPlasma → Bool × PiPlasma
  write_to none out p = (false, p)
  write_to (some file) out p = appended out (CacheStore.append_data file out p.store) p

  abbrev pub then_rest : (PiPlasma → Bool × PiPlasma) → Bool × PiPlasma → Bool × PiPlasma
  then_rest rest (true, p) = rest p
  then_rest rest (false, p) = (false, p)

  -- the loop of `_process_input` over the lines that the card has waiting
  unfoldable pub read_lines : List (List ℕ) → PiPlasma → Bool × PiPlasma
  unfolding handle_file
  read_lines [] p = (true, p)
  read_lines (out ∷ lines) p =
      let p' = handle_file p in then_rest (read_lines lines) (write_to p'.file out p')

  unfoldable pub save_power : PiPlasma → Bool × PiPlasma
  unfolding idle
  save_power p = (true, if p.pwr_event then idle (record p { state = 3 }) else p)

  unfoldable pub process_input : List (List ℕ) → PiPlasma → Bool × PiPlasma
  unfolding handle_file read_lines save_power
  process_input lines p =
      let p' = handle_file p in
      let rest = then_rest save_power (read_lines lines p') in
      if p'.serial then rest else (true, record p' { state = 1 })

  -- `loop`
  unfoldable pub loop : List (List ℕ) → PiPlasma → Bool × PiPlasma
  unfolding idle boot_piplasma process_input powersave
  loop lines p =
      if p.mock
      then (true, p)
      else if p.state == 0
      then (true, idle p)
      else if p.state == 1
      then (true, boot_piplasma p)
      else if p.state == 2
      then process_input lines p
      else if p.state == 3
      then (true, powersave p)
      else (true, p)
