-- ===== src/Services/State/Rules.antt =====
-- oresat_c3/services/state.py: a property of a pass, from the methods of the states.
use oresat_c3_software_esi.Base.{
  ◌≡◌, refl, inl, inr, Bool, true, false, ◌==◌, if◌then◌else◌, Bool-cases, ==_iff,
}
use oresat_c3_software_esi.Services.State.{
  StateService, Env, pre_deploy, deploy, standby, beacon, edl, dispatch, finish_pass, on_pre_deploy,
  on_deploy, on_standby, on_beacon, on_edl, on_loop, check_tx, raises_value_error,
}

if_rule {ℓ} :
    {A : Type 0} (P : A → Type ℓ) (b : Bool) (x y : A)
    → (b ≡ true → P x)
    → (b ≡ false → P y)
    → P (if b then x else y)
if_rule P true x y p q = p refl
if_rule P false x y p q = q refl

pub dispatch_rule :
    (P : StateService → Type 0) (env : Env) (s : StateService)
    → (s.status ≡ pre_deploy → P (finish_pass (on_pre_deploy env s)))
    → (s.status ≡ deploy → P (finish_pass (on_deploy env s)))
    → (s.status ≡ standby → P (finish_pass (on_standby env s)))
    → (s.status ≡ beacon → P (finish_pass (on_beacon env s)))
    → (s.status ≡ edl → P (finish_pass (on_edl env s)))
    → P (record s { status = pre_deploy; last_state = pre_deploy })
    → P (dispatch env s)
unfolding dispatch
dispatch_rule P env s p d st b e other =
    if_rule P (s.status == pre_deploy) _ _ (λ h. p ((==_iff s.status pre_deploy).0 h))
      (λ _.
        if_rule P (s.status == deploy) _ _ (λ h. d ((==_iff s.status deploy).0 h))
          (λ _.
            if_rule P (s.status == standby) _ _ (λ h. st ((==_iff s.status standby).0 h))
              (λ _.
                if_rule P (s.status == beacon) _ _ (λ h. b ((==_iff s.status beacon).0 h))
                  (λ _.
                    if_rule P (s.status == edl) _ _ (λ h. e ((==_iff s.status edl).0 h))
                      (λ _. other)))))

-- A pass raises after the transmitter was looked at, or goes on to the method of the state.
pub on_loop_rule :
    (P : StateService → Type 0) (env : Env) (s : StateService)
    → P (check_tx env s)
    → P (dispatch env (check_tx env s))
    → P (on_loop env s).1
unfolding on_loop
on_loop_rule P env s raised passed = elim (Bool-cases (raises_value_error (check_tx env s))) [
  | inl e ↦ rw e raised
  | inr e ↦ rw e passed
]
