-- ===== src/Controller/System/Restart.antt =====
-- A setting that controller.go's setters accepted, after a restart on the same database. Where a
-- theorem says that a key reads, the load at the restart does not fail.
use wallbox_homeautomation_g.Base.{
  ==→≡, String, arith, false, inl, inr, none, refl, some, subst, sym, true, ◌==◌, ◌∙◌, ◌≡◌, ◌⊎◌,
}
use wallbox_homeautomation_g.Base.Dict.{lookup, lookup-insert_ne, lookup-insert_self}
use wallbox_homeautomation_g.Base.Int.{eq_ℤ, lt_ℤ, negsuc, pos, ℤ, ◌%ℤ◌}
use wallbox_homeautomation_g.Config.{auto_profile_power_latch, auto_profile_surplus_latch}
use wallbox_homeautomation_g.Config.Validate.{is_enable_mode, is_profile}
use wallbox_homeautomation_g.Controller.Loop.Struct.{Controller}
use wallbox_homeautomation_g.Controller.Recorder.{KeepsSettings, Recorder}
use wallbox_homeautomation_g.Controller.Settings.{
  active_profile, auto_profile_setting, charge_power_setting, is_latch_profile, is_target_soc,
  latch_profiles, set_auto_profile, set_charge_power, set_target_soc, setting_key,
  target_soc_key_prefix,
}
use wallbox_homeautomation_g.Controller.Settings.Startup.{
  load_auto_profile, load_charge_power, load_start_threshold, load_start_thresholds,
  load_target_soc, load_target_socs, recover_dangling_session, start_up, stored, stored_target,
}
use wallbox_homeautomation_g.Controller.System.Persist.{
  Reads, recover-stored, set_auto_profile-Holds, set_charge_power-Holds, set_target_soc-Holds,
}
use wallbox_homeautomation_g.Go.Float.{Float}
use wallbox_homeautomation_g.Go.Strconv.{atoi, itoa}
use wallbox_homeautomation_g.Go.Time.{Time}

target_cases :
    (pct : ℤ)
    → is_target_soc pct ≡ true
    → (pct ≡ pos 50)
      ⊎ (pct ≡ pos 60)
      ⊎ (pct ≡ pos 70)
      ⊎ (pct ≡ pos 80)
      ⊎ (pct ≡ pos 90)
      ⊎ (pct ≡ pos 100)
unfolding is_target_soc lt_ℤ eq_ℤ ◌%ℤ◌
target_cases (pos n) h = grind arith
target_cases (negsuc n) h = ground arith

-- The stored text of an accepted target is read back.
atoi-itoa_target : (pct : ℤ) → is_target_soc pct ≡ true → atoi (itoa pct) ≡ some pct
unfolding atoi itoa
atoi-itoa_target pct h = elim (target_cases pct h) [
  | inl e ↦ rw e refl
  | inr (inl e) ↦ rw e refl
  | inr (inr (inl e)) ↦ rw e refl
  | inr (inr (inr (inl e))) ↦ rw e refl
  | inr (inr (inr (inr (inl e)))) ↦ rw e refl
  | inr (inr (inr (inr (inr e)))) ↦ rw e refl
]

pub latch_cases :
    (p : String)
    → is_latch_profile p ≡ true
    → (p ≡ auto_profile_power_latch) ⊎ (p ≡ auto_profile_surplus_latch)
unfolding is_latch_profile
latch_cases p h = ground (arith, ==→≡ p auto_profile_power_latch, ==→≡ p auto_profile_surplus_latch)

module _ {ℓ κ} (W : Type ℓ) {D : Type κ} ⦃r : Recorder W D⦄ where
  stored_target-some :
      (p : String) (pct : ℤ) (d : D)
      → stored W (setting_key target_soc_key_prefix p) d ≡ some (itoa pct)
      → is_target_soc pct ≡ true
      → stored_target W p d ≡ some pct
  unfolding stored_target
  stored_target-some p pct d h k = ground (arith, atoi-itoa_target pct k)

module _ {ℓ κ} {W : Type ℓ} {D : Type κ} ⦃f : Float W⦄ ⦃r : Recorder W D⦄ where
  pub start_up-charge_power :
      (now : Time) (mode : String) (c : Controller W) (d : D)
      → stored W charge_power_setting (recover_dangling_session W now d) ≡ some mode
      → is_enable_mode mode ≡ true
      → (start_up now c d).0.ctrl.charge_power ≡ mode
  unfolding start_up load_charge_power load_auto_profile load_start_thresholds load_start_threshold
      load_target_socs load_target_soc
  start_up-charge_power now mode c d h k = ground arith

  start_up-auto_profile :
      (now : Time) (name : String) (c : Controller W) (d : D)
      → stored W auto_profile_setting (recover_dangling_session W now d) ≡ some name
      → is_profile name ≡ true
      → (start_up now c d).0.ctrl.auto_profile ≡ name
  unfolding start_up load_charge_power load_auto_profile load_start_thresholds load_start_threshold
      load_target_socs load_target_soc
  start_up-auto_profile now name c d h k = ground arith

  load_target_soc-lookup :
      (p : String) (pct : ℤ) (d : D) (c : Controller W)
      → stored_target W p d ≡ some pct
      → lookup p (load_target_soc p d c).ctrl.target_soc ≡ some pct
  unfolding load_target_soc
  load_target_soc-lookup p pct d c h = ground (arith, lookup-insert_self p pct c.ctrl.target_soc)

  load_target_soc-lookup_ne :
      (j p : String) (d : D) (c : Controller W)
      → (j == p) ≡ false
      → lookup j (load_target_soc p d c).ctrl.target_soc ≡ lookup j c.ctrl.target_soc
  unfolding load_target_soc
  load_target_soc-lookup_ne j p d c h = grind (arith, lookup-insert_ne {V = ℤ} j p)

  load_target_socs-lookup :
      (p : String) (pct : ℤ) (d : D) (c : Controller W)
      → is_latch_profile p ≡ true
      → stored_target W p d ≡ some pct
      → lookup p (load_target_socs latch_profiles d c).ctrl.target_soc ≡ some pct
  unfolding load_target_socs ◌==◌
  load_target_socs-lookup p pct d c l h =
      let c₁ = load_target_soc auto_profile_power_latch d c in
      elim (latch_cases p l) [
        | inl e ↦
            subst
              (λ q.
                lookup q (load_target_soc auto_profile_surplus_latch d c₁).ctrl.target_soc
                ≡ some pct)
              (sym e)
              (load_target_soc-lookup_ne auto_profile_power_latch auto_profile_surplus_latch d c₁
                  refl
                ∙ load_target_soc-lookup auto_profile_power_latch pct d c (rw e at h))
        | inr e ↦
            subst
              (λ q.
                lookup q (load_target_soc auto_profile_surplus_latch d c₁).ctrl.target_soc
                ≡ some pct)
              (sym e) (load_target_soc-lookup auto_profile_surplus_latch pct d c₁ (rw e at h))
      ]

  module _ (keeps : KeepsSettings W D) where
    -- After an accepted charge power, a restart of any controller on the database that it left
    -- restores that charge power, if the setting reads.
    pub restart-charge_power :
        (now later : Time) (mode : String) (c c₀ : Controller W) (d : D)
        → let d' = (set_charge_power now mode c d).1 in
          (set_charge_power now mode c d).2 ≡ none
          → Reads W charge_power_setting (recover_dangling_session W later d')
          → (start_up later c₀ d').0.ctrl.charge_power ≡ mode
    restart-charge_power now later mode c c₀ d h reads =
        let kept = set_charge_power-Holds keeps now mode c d h in
        start_up-charge_power later mode c₀ (set_charge_power now mode c d).1
          (recover-stored W keeps charge_power_setting mode later (set_charge_power now mode c d).1
            kept.1 reads)
          kept.0

    -- After an accepted profile, a restart of any controller on the database that it left restores
    -- that profile, if the setting reads.
    pub restart-auto_profile :
        (now later : Time) (name : String) (c c₀ : Controller W) (d : D)
        → let d' = (set_auto_profile now name c d).1 in
          (set_auto_profile now name c d).2 ≡ none
          → Reads W auto_profile_setting (recover_dangling_session W later d')
          → (start_up later c₀ d').0.ctrl.auto_profile ≡ name
    restart-auto_profile now later name c c₀ d h reads =
        let kept = set_auto_profile-Holds keeps now name c d h in
        start_up-auto_profile later name c₀ (set_auto_profile now name c d).1
          (recover-stored W keeps auto_profile_setting name later (set_auto_profile now name c d).1
            kept.1 reads)
          kept.0

    -- After an accepted target, a restart of any controller on the database that it left restores
    -- it for the profile that was active, if the setting reads.
    pub restart-target_soc :
        (now later : Time) (pct : ℤ) (c c₀ : Controller W) (d : D)
        → let d' = (set_target_soc now pct c d).1 in
          let key = setting_key target_soc_key_prefix (active_profile c) in
          (set_target_soc now pct c d).2 ≡ none
          → Reads W key (recover_dangling_session W later d')
          → lookup (active_profile c) (start_up later c₀ d').0.ctrl.target_soc ≡ some pct
    unfolding start_up
    restart-target_soc now later pct c c₀ d h reads =
        let kept = set_target_soc-Holds keeps now pct c d h in
        let d' = (set_target_soc now pct c d).1 in
        let d₁ = recover_dangling_session W later d' in
        load_target_socs-lookup (active_profile c) pct d₁
          (load_start_thresholds latch_profiles d₁ (load_auto_profile d₁ (load_charge_power d₁ c₀)))
          kept.1
          (stored_target-some W (active_profile c) pct d₁
            (recover-stored W keeps (setting_key target_soc_key_prefix (active_profile c))
              (itoa pct) later d' kept.2 reads)
            kept.0)
