-- ===== src/Controller/Settings/Startup.antt =====
-- controller.go: what `Run` does before its first tick (the session left open by an earlier run is
-- closed, the stored settings are loaded), and what the janitor does at each of its ticks.
use wallbox_homeautomation_g.Base.{List, Option, String, [], if◌then◌else◌, none, some, ◌∷◌}
use wallbox_homeautomation_g.Base.Dict.{insert}
use wallbox_homeautomation_g.Base.Int.{pos, ℤ, ◌-ℤ◌}
use wallbox_homeautomation_g.Config.{Control}
use wallbox_homeautomation_g.Config.Validate.{is_enable_mode, is_profile}
use wallbox_homeautomation_g.Controller.Loop.Struct.{Controller}
use wallbox_homeautomation_g.Controller.Recorder.{Recorder}
use wallbox_homeautomation_g.Controller.Settings.{
  auto_profile_setting, charge_power_setting, is_start_threshold, is_target_soc, latch_profiles,
  setting_key, start_threshold_key_prefix, target_soc_key_prefix, with_ctrl,
}
use wallbox_homeautomation_g.Go.Float.{Float}
use wallbox_homeautomation_g.Go.Result.{err, ok}
use wallbox_homeautomation_g.Go.Strconv.{atoi}
use wallbox_homeautomation_g.Go.Time.{Time, add}

module _ {ℓ κ} (W : Type ℓ) {D : Type κ} ⦃r : Recorder W D⦄ where
  unfoldable pub recover_dangling_session : Time → D → D
  recover_dangling_session now d = elim (r.open_session d) [
    | err ↦ d
    | ok none ↦ d
    | ok (some s) ↦
        (r.end_session s.id now "restart" none s.energy_wh s.avg_charge_w s.peak_charge_w d).0
  ]

  -- A setting as it was stored; a failed read counts as none.
  unfoldable pub stored : String → D → Option String
  stored key d = elim (r.get_setting key d) [ err ↦ none | ok v ↦ v ]

  unfoldable pub stored_target : String → D → Option ℤ
  stored_target profile d = elim (stored (setting_key target_soc_key_prefix profile) d) [
    | none ↦ none
    | some raw ↦ elim (atoi raw) [
      | none ↦ none
      | some pct ↦ if is_target_soc pct then some pct else none
    ]
  ]

module _ {ℓ} {W : Type ℓ} ⦃f : Float W⦄ where
  module _ {κ} {D : Type κ} ⦃r : Recorder W D⦄ where
    unfoldable pub load_charge_power : D → Controller W → Controller W
    load_charge_power d c = elim (stored W charge_power_setting d) [
      | none ↦ c
      | some mode ↦
          if is_enable_mode mode then with_ctrl c (record (c.ctrl) { charge_power = mode }) else c
    ]

    unfoldable pub load_auto_profile : D → Controller W → Controller W
    load_auto_profile d c = elim (stored W auto_profile_setting d) [
      | none ↦ c
      | some profile ↦
          if is_profile profile then with_ctrl c (record (c.ctrl) { auto_profile = profile }) else c
    ]

    -- the stored threshold of a profile, if it passes the tests of the setter
    unfoldable pub stored_threshold : Control W → String → D → Option W
    stored_threshold cfg profile d =
        elim (stored W (setting_key start_threshold_key_prefix profile) d) [
          | none ↦ none
          | some raw ↦ elim (f.parse_float raw) [
            | none ↦ none
            | some w ↦ if is_start_threshold cfg w then some w else none
          ]
        ]

    -- a round of the loop over `latchProfiles`, and the loop
    unfoldable pub load_start_threshold : String → D → Controller W → Controller W
    load_start_threshold profile d c = elim (stored_threshold c.cfg profile d) [
      | none ↦ c
      | some w ↦
          with_ctrl c
            (record (c.ctrl) { start_threshold_w = insert profile w c.ctrl.start_threshold_w })
    ]

    unfoldable pub load_start_thresholds : List String → D → Controller W → Controller W
    load_start_thresholds [] d c = c
    load_start_thresholds (profile ∷ ps) d c =
        load_start_thresholds ps d (load_start_threshold profile d c)

    unfoldable pub load_target_soc : String → D → Controller W → Controller W
    load_target_soc profile d c = elim (stored_target W profile d) [
      | none ↦ c
      | some pct ↦
          with_ctrl c (record (c.ctrl) { target_soc = insert profile pct c.ctrl.target_soc })
    ]

    unfoldable pub load_target_socs : List String → D → Controller W → Controller W
    load_target_socs [] d c = c
    load_target_socs (profile ∷ ps) d c = load_target_socs ps d (load_target_soc profile d c)

    -- `Run` up to its first tick
    unfoldable pub start_up : Time → Controller W → D → Controller W × D
    start_up now c d =
        let d₁ = recover_dangling_session W now d in
        let c₁ = load_auto_profile d₁ (load_charge_power d₁ c) in
        (load_target_socs latch_profiles d₁ (load_start_thresholds latch_profiles d₁ c₁), d₁)

    unfoldable pub prune : Time → Controller W → D → D
    prune now c d =
        let oldest = add now (pos 0 -ℤ c.cfg.retention_window) in
        (r.prune_events oldest (r.prune_samples oldest d).0).0
