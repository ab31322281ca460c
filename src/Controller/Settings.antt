-- ===== src/Controller/Settings.antt =====
-- internal/controller/controller.go: the operator's settings. A setter validates, writes the
-- setting to the database, and only then changes the controller; at startup the stored settings
-- are loaded again. `Status` and the housekeeping of `Run` stand in the children.
pub mod Startup
pub mod Status
pub mod Valid
use wallbox_homeautomation_g.Base.{
  Bool, List, Option, String, [], if◌then◌else◌, none, not, some, ◌&&◌, ◌==◌, ◌||◌, ◌∷◌,
}
use wallbox_homeautomation_g.Base.Dict.{insert}
use wallbox_homeautomation_g.Base.Int.{eq_ℤ, lt_ℤ, pos, ℤ, ◌%ℤ◌}
use wallbox_homeautomation_g.Config.{Control, auto_profile_power_latch, auto_profile_surplus_latch}
use wallbox_homeautomation_g.Config.Validate.{is_enable_mode, is_profile}
use wallbox_homeautomation_g.Controller.Loop.Publish.{blank_event}
use wallbox_homeautomation_g.Controller.Loop.Struct.{Controller}
use wallbox_homeautomation_g.Controller.Recorder.{Recorder}
use wallbox_homeautomation_g.Controller.State.{
  ControlState, Override, eq_override, force_on, override_name,
}
use wallbox_homeautomation_g.Evcc.Topics.Distinct.{charge_power}
use wallbox_homeautomation_g.Go.Float.{Float, nought}
use wallbox_homeautomation_g.Go.Result.{err, ok}
use wallbox_homeautomation_g.Go.Strconv.{itoa}
use wallbox_homeautomation_g.Go.Strings.{◌+s◌}
use wallbox_homeautomation_g.Go.Time.{Time}

abbrev pub charge_power_setting : String
charge_power_setting = "charge_power"

abbrev pub auto_profile_setting : String
auto_profile_setting = "auto_profile"

abbrev pub start_threshold_key_prefix : String
start_threshold_key_prefix = "start_threshold_w:"

abbrev pub target_soc_key_prefix : String
target_soc_key_prefix = "target_soc:"

unfoldable pub setting_key : String → String → String
setting_key prefix profile = prefix +s profile

abbrev pub latch_profiles : List String
latch_profiles = auto_profile_power_latch ∷ auto_profile_surplus_latch ∷ []

-- the errors of the setters: one of the `ErrInvalid…`, or a failed write
pub data Refusal : Type 0 where
  invalid not_persisted : Refusal

unfoldable pub is_latch_profile : String → Bool
is_latch_profile s = s == auto_profile_power_latch || s == auto_profile_surplus_latch

unfoldable pub is_target_soc : ℤ → Bool
is_target_soc pct =
    not (lt_ℤ pct (pos 50) || lt_ℤ (pos 100) pct || not (eq_ℤ (pct %ℤ pos 10) (pos 0)))

module _ {ℓ κ} (W : Type ℓ) {D : Type κ} ⦃f : Float W⦄ ⦃r : Recorder W D⦄ where
  -- the audit event of a setter; its error is only logged
  unfoldable pub audit : Time → String → String → D → D
  audit now kind action d = (r.insert_event (record (blank_event now kind) { action = action }) d).0

module _ {ℓ} {W : Type ℓ} ⦃f : Float W⦄ where
  -- `w <= 0 || math.Mod(w, 100) != 0` and `w <= StopThresholdW`, negated
  unfoldable pub is_start_threshold : Control W → W → Bool
  is_start_threshold cfg w = not (
      f.le w nought
      || not (f.eq (f.fmod w (f.of_int (pos 100))) nought)
      || f.le w cfg.stop_threshold_w)

  unfoldable pub active_profile : Controller W → String
  active_profile c = if c.ctrl.auto_profile == "" then c.cfg.auto_profile else c.ctrl.auto_profile

  abbrev pub with_ctrl : Controller W → ControlState W → Controller W
  with_ctrl c s = record c { ctrl = s }

  module _ {κ} {D : Type κ} ⦃r : Recorder W D⦄ where
    unfoldable pub set_override :
        Time → Override → Time → Bool → ℤ → Controller W → D → Controller W × D
    set_override now mode until cap_bypass cap_bypass_soc c d =
        let bypass = eq_override mode force_on && cap_bypass in
        let soc = if bypass then cap_bypass_soc else pos 0 in
        (
          with_ctrl c (record (c.ctrl) {
            override = mode;
            override_until = until;
            cap_bypass = bypass;
            cap_bypass_soc = soc;
          }),
          audit W now "override"
              ("override:" +s override_name mode +s (if bypass then ":past_cap" else "")) d,
        )

    -- Persist under a key, then change the controller and record the event.
    abbrev persist_then :
        Time
        → String
        → String
        → String
        → Controller W
        → Controller W
        → D
        → Controller W × D × Option Refusal
    persist_then now key value action c c' d =
        let (d₁, written) = r.set_setting key value d in
        elim written [
          | err ↦ (c, d₁, some not_persisted)
          | ok _ ↦ (c', audit W now "command" action d₁, none)
        ]

    unfoldable pub set_charge_power :
        Time → String → Controller W → D → Controller W × D × Option Refusal
    set_charge_power now mode c d =
        if not (is_enable_mode mode)
        then (c, d, some invalid)
        else persist_then now charge_power_setting mode ("charge_power:" +s mode) c
            (with_ctrl c (record (c.ctrl) { charge_power = mode })) d

    unfoldable pub set_auto_profile :
        Time → String → Controller W → D → Controller W × D × Option Refusal
    set_auto_profile now profile c d =
        if not (is_profile profile)
        then (c, d, some invalid)
        else persist_then now auto_profile_setting profile ("auto_profile:" +s profile) c
            (with_ctrl c (record (c.ctrl) { auto_profile = profile })) d

    unfoldable pub set_start_threshold :
        Time → W → Controller W → D → Controller W × D × Option Refusal
    set_start_threshold now w c d =
        let profile = active_profile c in
        if not (is_start_threshold c.cfg w)
        then (c, d, some invalid)
        else if not (is_latch_profile profile)
        then (c, d, some invalid)
        else persist_then now (setting_key start_threshold_key_prefix profile) (f.format_float w)
            ("start_threshold:" +s profile +s ":" +s f.format_float w) c
            (with_ctrl c
              (record (c.ctrl) { start_threshold_w = insert profile w c.ctrl.start_threshold_w }))
            d

    unfoldable pub set_target_soc : Time → ℤ → Controller W → D → Controller W × D × Option Refusal
    set_target_soc now pct c d =
        let profile = active_profile c in
        if not (is_target_soc pct)
        then (c, d, some invalid)
        else if not (is_latch_profile profile)
        then (c, d, some invalid)
        else persist_then now (setting_key target_soc_key_prefix profile) (itoa pct)
            ("target_soc:" +s profile +s ":" +s itoa pct) c
            (with_ctrl c (record (c.ctrl) { target_soc = insert profile pct c.ctrl.target_soc })) d
