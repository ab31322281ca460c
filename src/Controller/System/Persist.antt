-- ===== src/Controller/System/Persist.antt =====
-- What controller.go's setters leave in the database, against what a restart loads from it.
use wallbox_homeautomation_g.Base.{String, arith, none, refl, some, true, ◌≡◌, ◌≢◌, ◌⊎◌}
use wallbox_homeautomation_g.Base.Int.{ℤ}
use wallbox_homeautomation_g.Config.Validate.{is_enable_mode, is_profile}
use wallbox_homeautomation_g.Controller.Loop.Publish.{blank_event}
use wallbox_homeautomation_g.Controller.Loop.Struct.{Controller}
use wallbox_homeautomation_g.Controller.Recorder.{KeepsSettings, Recorder}
use wallbox_homeautomation_g.Controller.Settings.{
  active_profile, audit, auto_profile_setting, charge_power_setting, invalid, is_latch_profile,
  is_start_threshold, is_target_soc, set_auto_profile, set_charge_power, set_start_threshold,
  set_target_soc, setting_key, start_threshold_key_prefix, target_soc_key_prefix,
}
use wallbox_homeautomation_g.Controller.Settings.Startup.{recover_dangling_session, stored}
use wallbox_homeautomation_g.Controller.System.{
  Request, ask_override, ask_power, ask_profile, ask_target, ask_threshold, serve,
}
use wallbox_homeautomation_g.Go.Float.{Float}
use wallbox_homeautomation_g.Go.Result.{err, ok}
use wallbox_homeautomation_g.Go.Strconv.{itoa}
use wallbox_homeautomation_g.Go.Strings.{◌+s◌}
use wallbox_homeautomation_g.Go.Time.{Time}

module _ {ℓ κ} (W : Type ℓ) {D : Type κ} ⦃r : Recorder W D⦄ where
  -- A key reads as a value, or not at all.
  abbrev pub Holds : String → String → D → Type 0
  Holds k v d = (r.get_setting k d ≡ err) ⊎ (r.get_setting k d ≡ ok (some v))

  abbrev pub Reads : String → D → Type 0
  Reads k d = r.get_setting k d ≢ err

  stored-Holds : (k v : String) (d : D) → Holds k v d → Reads k d → stored W k d ≡ some v
  unfolding stored
  stored-Holds k v d h reads = ground arith

  module _ ⦃f : Float W⦄ (keeps : KeepsSettings W D) where
    pub audit-Holds :
        (k v : String) (now : Time) (kind action : String) (d : D)
        → Holds k v d
        → Holds k v (audit W now kind action d)
    unfolding audit
    audit-Holds k v now kind action d h =
        ground
          (arith, keeps.get-insert_event k (record (blank_event now kind) { action = action }) d)

    recover-Holds :
        (k v : String) (now : Time) (d : D)
        → Holds k v d
        → Holds k v (recover_dangling_session W now d)
    unfolding recover_dangling_session
    recover-Holds k v now d h = grind (arith, keeps.get-end_session k)

    pub recover-stored :
        (k v : String) (now : Time) (d : D)
        → Holds k v d
        → Reads k (recover_dangling_session W now d)
        → stored W k (recover_dangling_session W now d) ≡ some v
    recover-stored k v now d h reads =
        stored-Holds k v (recover_dangling_session W now d) (recover-Holds k v now d h) reads

module _ {ℓ κ} {W : Type ℓ} {D : Type κ} ⦃f : Float W⦄ ⦃r : Recorder W D⦄ where
  -- A setter that is refused leaves the controller as it was; one refused for its value leaves the
  -- database as it was, too.
  pub refused-unchanged :
      (now : Time) (q : Request W) (c : Controller W) (d : D)
      → (serve now q c d).2 ≢ none
      → ((serve now q c d).0 ≡ c) × ((serve now q c d).2 ≡ some invalid → (serve now q c d).1 ≡ d)
  unfolding serve set_charge_power set_auto_profile set_start_threshold set_target_soc
  refused-unchanged now (ask_override mode until bypass soc) c d h = absurd (h refl)
  refused-unchanged now (ask_power mode) c d h = ground arith
  refused-unchanged now (ask_profile name) c d h = ground arith
  refused-unchanged now (ask_threshold w) c d h = ground arith
  refused-unchanged now (ask_target pct) c d h = ground arith

  module _ (keeps : KeepsSettings W D) where
    pub set_charge_power-Holds :
        (now : Time) (mode : String) (c : Controller W) (d : D)
        → (set_charge_power now mode c d).2 ≡ none
        → (is_enable_mode mode ≡ true)
          × Holds W charge_power_setting mode (set_charge_power now mode c d).1
    unfolding set_charge_power
    set_charge_power-Holds now mode c d h = ground (
      arith,
      audit-Holds W keeps charge_power_setting mode now "command" ("charge_power:" +s mode)
          (r.set_setting charge_power_setting mode d).0,
      keeps.get-set_self charge_power_setting mode d,
    )

    pub set_auto_profile-Holds :
        (now : Time) (name : String) (c : Controller W) (d : D)
        → (set_auto_profile now name c d).2 ≡ none
        → (is_profile name ≡ true)
          × Holds W auto_profile_setting name (set_auto_profile now name c d).1
    unfolding set_auto_profile
    set_auto_profile-Holds now name c d h = ground (
      arith,
      audit-Holds W keeps auto_profile_setting name now "command" ("auto_profile:" +s name)
          (r.set_setting auto_profile_setting name d).0,
      keeps.get-set_self auto_profile_setting name d,
    )

    pub set_target_soc-Holds :
        (now : Time) (pct : ℤ) (c : Controller W) (d : D)
        → (set_target_soc now pct c d).2 ≡ none
        → (is_target_soc pct ≡ true)
          × (is_latch_profile (active_profile c) ≡ true)
          × Holds W
              (setting_key target_soc_key_prefix (active_profile c))
              (itoa pct)
              (set_target_soc now pct c d).1
    unfolding set_target_soc
    set_target_soc-Holds now pct c d h =
        let key = setting_key target_soc_key_prefix (active_profile c) in
        ground (
          arith,
          audit-Holds W keeps key (itoa pct) now "command"
              ("target_soc:" +s active_profile c +s ":" +s itoa pct)
              (r.set_setting key (itoa pct) d).0,
          keeps.get-set_self key (itoa pct) d,
        )

    pub set_start_threshold-Holds :
        (now : Time) (w : W) (c : Controller W) (d : D)
        → (set_start_threshold now w c d).2 ≡ none
        → (is_start_threshold c.cfg w ≡ true)
          × (is_latch_profile (active_profile c) ≡ true)
          × Holds W
              (setting_key start_threshold_key_prefix (active_profile c))
              (f.format_float w)
              (set_start_threshold now w c d).1
    unfolding set_start_threshold
    set_start_threshold-Holds now w c d h =
        let key = setting_key start_threshold_key_prefix (active_profile c) in
        ground (
          arith,
          audit-Holds W keeps key (f.format_float w) now "command"
              ("start_threshold:" +s active_profile c +s ":" +s f.format_float w)
              (r.set_setting key (f.format_float w) d).0,
          keeps.get-set_self key (f.format_float w) d,
        )
