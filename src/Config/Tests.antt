-- ===== src/Config/Tests.antt =====
-- Runs of `Config.Validate` of config.go.
use wallbox_homeautomation_g.Base.{none, refl, ◌==◌, ◌↔◌, ◌≡◌}
use wallbox_homeautomation_g.Base.Int.{le_ℤ, lt_ℤ, ℤ}
use wallbox_homeautomation_g.Config.{Config, default}
use wallbox_homeautomation_g.Config.Valid.{IsValid, validate-none_iff}
use wallbox_homeautomation_g.Config.Validate.{
  is_enable_mode, is_profile, validate, validate_control, validate_durations, validate_update,
}
use wallbox_homeautomation_g.Controller.Memory.{memory}
use wallbox_homeautomation_g.Go.Float.{whole}

abbrev shipped : Config ℤ
shipped = default

validate-none_iff_example : (validate shipped ≡ none) ↔ IsValid shipped
validate-none_iff_example = validate-none_iff shipped

accepts_default : validate shipped ≡ none
unfolding validate validate_control validate_durations validate_update is_enable_mode is_profile
    lt_ℤ le_ℤ ◌==◌
accepts_default = refl
