-- ===== src/Services/NodeFlasher/Order.antt =====
-- oresat_c3/services/node_flasher.py: which messages go to a node, and in which order.
use oresat_c3_software_esi.Base.{
  none, some, arith, ◌==◌, ◌≡◌, refl, sym, ap, ◌∙◌, ℕ, Bool, true, false, Bool-cases, inl, inr,
  Option, List, [], ◌∷◌, ◌++◌, if◌then◌else◌,
}
use mathlib.Core.List.{append_assoc, append-nil}
use oresat_c3_software_esi.Services.NodeFlasher.{
  Command, Message, pre_operational, stop, clear, start, confirm, wait_for_bootup, download, Env,
  Flasher, Step, then_do, ◌>>◌, answer, send, check, is_ok, first_reading, wait_flash_status_ok,
  confirm_if, flash,
}

-- The messages before the first that raises, and whether none does.
abbrev pub until_failure : List Bool → List Message → List Message
until_failure fs [] = []
until_failure [] (m ∷ ms) = m ∷ ms
until_failure (true ∷ fs) (m ∷ ms) = []
until_failure (false ∷ fs) (m ∷ ms) = m ∷ until_failure fs ms

-- A reading of 0 comes before the time is up and before a reading that raises.
abbrev pub good : List (Option ℕ) → Bool
good [] = false
good (none ∷ readings) = false
good (some status ∷ readings) = if status == 0 then true else good readings

-- What is sent where no message raises: the image only after the old one was cleared, and the start
-- only after the download was found good.
abbrev pub planned : Env → Command → List Message
planned env c =
    pre_operational
    ∷ stop
    ∷ clear
    ∷ (if good env.clear_status
        then download c.block_transfer c.request_crc
          ∷ (if good env.download_status
              then start
                ∷ wait_for_bootup
                ∷ (if c.confirm_image then pre_operational ∷ confirm ∷ [] else [])
              else [])
        else [])

-- `step` sends `ms`, up to the first that raises.
abbrev Sends : Step → List Message → Type 0
Sends step ms = (s : Flasher) → (step s).1.sent ≡ s.sent ++ until_failure s.failures ms

until_failure_none : (ms : List Message) → until_failure [] ms ≡ ms
until_failure_none [] = refl
until_failure_none (m ∷ ms) = refl

answer-Sends :
    (m : Message) (rest : Step) (ms : List Message) (fs : List Bool) (s : Flasher)
    → Sends rest ms
    → s.failures ≡ fs
    → (then_do rest (answer m fs s)).1.sent ≡ s.sent ++ until_failure fs (m ∷ ms)
answer-Sends m rest ms [] s h e =
    h (record s { sent = s.sent ++ (m ∷ []) })
    ∙ ap (λ fs. (s.sent ++ (m ∷ [])) ++ until_failure fs ms) e
    ∙ ap (λ ns. (s.sent ++ (m ∷ [])) ++ ns) (until_failure_none ms)
    ∙ append_assoc s.sent (m ∷ []) ms
answer-Sends m rest ms (true ∷ fs) s h e = sym (append-nil s.sent)
answer-Sends m rest ms (false ∷ fs) s h e =
    h (record s { sent = s.sent ++ (m ∷ []); failures = fs })
    ∙ append_assoc s.sent (m ∷ []) (until_failure fs ms)

send-Sends :
    (m : Message) (rest : Step) (ms : List Message)
    → Sends rest ms
    → Sends (send m >> rest) (m ∷ ms)
unfolding send
send-Sends m rest ms h s = answer-Sends m rest ms s.failures s h refl

is_ok-wait_flash_status_ok :
    (status : ℕ) (readings : List (Option ℕ))
    → is_ok (wait_flash_status_ok status readings) ≡ good (some status ∷ readings)
unfolding wait_flash_status_ok
is_ok-wait_flash_status_ok status [] = ground arith
is_ok-wait_flash_status_ok status (none ∷ readings) = ground arith
is_ok-wait_flash_status_ok status (some n ∷ readings) =
    ground (arith, is_ok-wait_flash_status_ok n readings)

is_ok-good : (readings : List (Option ℕ)) → is_ok (first_reading readings) ≡ good readings
is_ok-good [] = refl
is_ok-good (none ∷ readings) = refl
is_ok-good (some status ∷ readings) = is_ok-wait_flash_status_ok status readings

-- a wait sends nothing, and what comes after it only where the status is good
check-Sends :
    (readings : List (Option ℕ)) (rest : Step) (ms : List Message)
    → Sends rest ms
    → Sends (check readings >> rest) (if good readings then ms else [])
check-Sends readings rest ms h s = elim (Bool-cases (good readings)) [
  | inl e ↦ rw (is_ok-good readings, e) (h s)
  | inr e ↦ rw (is_ok-good readings, e) (sym (append-nil s.sent))
]

answer_last :
    (m : Message) (fs : List Bool) (s : Flasher)
    → (answer m fs s).1.sent ≡ s.sent ++ until_failure fs (m ∷ [])
answer_last m [] s = refl
answer_last m (true ∷ fs) s = sym (append-nil s.sent)
answer_last m (false ∷ fs) s = refl

send_last-Sends : (m : Message) → Sends (send m) (m ∷ [])
unfolding send
send_last-Sends m s = answer_last m s.failures s

confirm_if-Sends :
    (b : Bool) → Sends (confirm_if b) (if b then pre_operational ∷ confirm ∷ [] else [])
confirm_if-Sends true s =
    send-Sends pre_operational (send confirm) (confirm ∷ []) (send_last-Sends confirm) s
confirm_if-Sends false s = sym (append-nil s.sent)

-- Whatever raises and whatever the status reads, what goes to the node is, up to the first message
-- that raises: stop and clear, then the image if the status reads 0 after the clear, then start if it
-- reads 0 after the download, and the confirmation if it was asked for.
pub flash-planned :
    (env : Env) (c : Command) (s : Flasher)
    → (flash env c s).1.sent ≡ s.sent ++ until_failure s.failures (planned env c)
unfolding flash
flash-planned env c = send-Sends pre_operational _ _ (
    send-Sends stop _ _ (
      send-Sends clear _ _ (
        check-Sends env.clear_status _ _ (
          send-Sends (download c.block_transfer c.request_crc) _ _ (
            check-Sends env.download_status _ _ (
              send-Sends start _ _
                (send-Sends wait_for_bootup _ _ (confirm_if-Sends c.confirm_image))))))))
