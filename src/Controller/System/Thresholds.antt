-- ===== src/Controller/System/Thresholds.antt =====
-- A start threshold that `SetStartThreshold` of controller.go accepted, after a restart on the same
-- database.
use wallbox_homeautomation_g.Base.{
  String, ap, arith, false, inl, inr, none, refl, some, subst, sym, true, ◌==◌, ◌∙◌, ◌≡◌,
}
use wallbox_homeautomation_g.Base.Dict.{lookup, lookup-insert_ne, lookup-insert_self}
use wallbox_homeautomation_g.Config.{Control, auto_profile_power_latch, auto_profile_surplus_latch}
use wallbox_homeautomation_g.Controller.Loop.Struct.{Controller}
use wallbox_homeautomation_g.Controller.Recorder.{KeepsSettings, Recorder}
use wallbox_homeautomation_g.Controller.Settings.{
  active_profile, is_latch_profile, is_start_threshold, latch_profiles, set_start_threshold,
  setting_key, start_threshold_key_prefix,
}
use wallbox_homeautomation_g.Controller.Settings.Startup.{
  load_auto_profile, load_charge_power, load_start_threshold, load_start_thresholds,
  load_target_soc, load_target_socs, recover_dangling_session, start_up, stored, stored_threshold,
}
use wallbox_homeautomation_g.Controller.System.Persist.{
  Reads, recover-stored, set_start_threshold-Holds,
}
use wallbox_homeautomation_g.Controller.System.Restart.{latch_cases}
use wallbox_homeautomation_g.Go.Float.{Float}
use wallbox_homeautomation_g.Go.Time.{Time}

module _ {ℓ κ} {W : Type ℓ} {D : Type κ} ⦃f : Float W⦄ ⦃r : Recorder W D⦄ where
  stored_threshold-some :
      (cfg : Control W) (p : String) (w : W) (d : D)
      → stored W (setting_key start_threshold_key_prefix p) d ≡ some (f.format_float w)
      → f.parse_float (f.format_float w) ≡ some w
      → is_start_threshold cfg w ≡ true
      → stored_threshold cfg p d ≡ some w
  unfolding stored_threshold
  stored_threshold-some cfg p w d h e k = ground arith

  load_start_threshold-lookup :
      (p : String) (w : W) (d : D) (c : Controller W)
      → stored_threshold c.cfg p d ≡ some w
      → lookup p (load_start_threshold p d c).ctrl.start_threshold_w ≡ some w
  unfolding load_start_threshold
  load_start_threshold-lookup p w d c h =
      ground (arith, lookup-insert_self p w c.ctrl.start_threshold_w)

  load_start_threshold-lookup_ne :
      (j p : String) (d : D) (c : Controller W)
      → (j == p) ≡ false
      → lookup j (load_start_threshold p d c).ctrl.start_threshold_w
        ≡ lookup j c.ctrl.start_threshold_w
  unfolding load_start_threshold
  load_start_threshold-lookup_ne j p d c h = grind (arith, lookup-insert_ne {V = W} j p)

  load_start_threshold-cfg :
      (p : String) (d : D) (c : Controller W) → (load_start_threshold p d c).cfg ≡ c.cfg
  unfolding load_start_threshold
  load_start_threshold-cfg p d c = ground arith

  load_start_thresholds-lookup :
      (p : String) (w : W) (d : D) (c : Controller W)
      → is_latch_profile p ≡ true
      → stored_threshold c.cfg p d ≡ some w
      → lookup p (load_start_thresholds latch_profiles d c).ctrl.start_threshold_w ≡ some w
  unfolding load_start_thresholds ◌==◌
  load_start_thresholds-lookup p w d c l h =
      let c₁ = load_start_threshold auto_profile_power_latch d c in
      let at : String → Type ℓ = λ q.
        lookup q (load_start_threshold auto_profile_surplus_latch d c₁).ctrl.start_threshold_w
        ≡ some w in
      elim (latch_cases p l) [
        | inl e ↦ subst at (sym e) (
            load_start_threshold-lookup_ne auto_profile_power_latch auto_profile_surplus_latch d c₁
              refl
            ∙ load_start_threshold-lookup auto_profile_power_latch w d c (rw e at h))
        | inr e ↦ subst at (sym e) (
            load_start_threshold-lookup auto_profile_surplus_latch w d c₁
              (rw (load_start_threshold-cfg auto_profile_power_latch d c) (rw e at h)))
      ]

  load_target_socs-thresholds :
      (d : D) (c : Controller W)
      → (load_target_socs latch_profiles d c).ctrl.start_threshold_w ≡ c.ctrl.start_threshold_w
  unfolding load_target_socs load_target_soc
  load_target_socs-thresholds d c = ground arith

  loaded-cfg :
      (d : D) (c : Controller W) → (load_auto_profile d (load_charge_power d c)).cfg ≡ c.cfg
  unfolding load_auto_profile load_charge_power
  loaded-cfg d c = ground arith

  module _ (keeps : KeepsSettings W D) where
    -- After an accepted start threshold, whose text reads as itself again, a restart of any
    -- controller with the same configuration on the database that it left restores it for the
    -- profile that was active, if the setting reads.
    pub restart-start_threshold :
        (now later : Time) (w : W) (c c₀ : Controller W) (d : D)
        → let d' = (set_start_threshold now w c d).1 in
          let key = setting_key start_threshold_key_prefix (active_profile c) in
          (set_start_threshold now w c d).2 ≡ none
          → f.parse_float (f.format_float w) ≡ some w
          → c₀.cfg ≡ c.cfg
          → Reads W key (recover_dangling_session W later d')
          → lookup (active_profile c) (start_up later c₀ d').0.ctrl.start_threshold_w ≡ some w
    unfolding start_up
    restart-start_threshold now later w c c₀ d h text same reads =
        let kept = set_start_threshold-Holds keeps now w c d h in
        let p = active_profile c in
        let d' = (set_start_threshold now w c d).1 in
        let d₁ = recover_dangling_session W later d' in
        let c₁ = load_auto_profile d₁ (load_charge_power d₁ c₀) in
        ap (lookup p) (load_target_socs-thresholds d₁ (load_start_thresholds latch_profiles d₁ c₁))
        ∙ load_start_thresholds-lookup p w d₁ c₁ kept.1 (
            stored_threshold-some c₁.cfg p w d₁
              (recover-stored W keeps (setting_key start_threshold_key_prefix p) (f.format_float w)
                later d' kept.2 reads)
              text (rw (loaded-cfg d₁ c₀, same) kept.0))
