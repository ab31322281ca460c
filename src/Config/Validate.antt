-- ===== src/Config/Validate.antt =====
-- config.go, `Config.Validate`: the first inconsistency found, one constructor for each message.
use wallbox_homeautomation_g.Base.{
  Bool, Option, String, false, if◌then◌else◌, none, not, some, true, ◌&&◌, ◌==◌, ◌||◌,
}
use wallbox_homeautomation_g.Base.Int.{le_ℤ, lt_ℤ, pos}
use wallbox_homeautomation_g.Config.{
  Config, Control, Update, auto_profile_power_latch, auto_profile_surplus,
  auto_profile_surplus_latch, enable_mode_now, enable_mode_pv,
}
use wallbox_homeautomation_g.Go.Float.{Float}

pub data ConfigError : Type 0 where
  broker_empty client_id_empty loadpoint_id_empty : ConfigError
  enable_mode_unknown auto_profile_unknown thresholds_not_ordered : ConfigError
  soc_cap_range soc_resume_below_order soc_max_range : ConfigError
  decision_interval_sign stale_timeout_sign republish_sign : ConfigError
  retention_window_sign retention_interval_sign dwell_sign : ConfigError
  port_range db_path_empty : ConfigError
  update_repository_empty update_request_dir_empty update_check_ttl_sign : ConfigError

abbrev pub reject_if : Bool → ConfigError → Option ConfigError → Option ConfigError
reject_if true e rest = some e
reject_if false e rest = rest

-- the `switch` over the recognised profiles
unfoldable pub is_profile : String → Bool
is_profile s =
    s == auto_profile_surplus || s == auto_profile_power_latch || s == auto_profile_surplus_latch

unfoldable pub is_enable_mode : String → Bool
is_enable_mode s = s == enable_mode_pv || s == enable_mode_now

unfoldable pub validate_update : Update → Option ConfigError
validate_update u =
    if u.enabled
    then reject_if (u.repository == "") update_repository_empty (
        reject_if (u.request_dir == "") update_request_dir_empty
          (reject_if (lt_ℤ u.check_ttl (pos 0)) update_check_ttl_sign none))
    else none

module _ {ℓ} {W : Type ℓ} ⦃f : Float W⦄ where
  unfoldable pub validate_durations : Control W → Option ConfigError → Option ConfigError
  validate_durations c rest = reject_if (le_ℤ c.decision_interval (pos 0)) decision_interval_sign (
      reject_if (le_ℤ c.stale_timeout (pos 0)) stale_timeout_sign (
        reject_if (le_ℤ c.republish (pos 0)) republish_sign (
          reject_if (lt_ℤ c.retention_window (pos 0)) retention_window_sign (
            reject_if (lt_ℤ (pos 0) c.retention_window && le_ℤ c.retention_interval (pos 0))
              retention_interval_sign
              (reject_if (lt_ℤ c.start_dwell (pos 0) || lt_ℤ c.stop_dwell (pos 0)) dwell_sign
                rest)))))

  unfoldable pub validate_control : Control W → Option ConfigError → Option ConfigError
  unfolding validate_durations is_profile is_enable_mode
  validate_control c rest = reject_if (not (is_enable_mode c.enable_mode)) enable_mode_unknown (
      reject_if (not (is_profile c.auto_profile)) auto_profile_unknown (
        reject_if (f.le c.start_threshold_w c.stop_threshold_w) thresholds_not_ordered (
          reject_if (lt_ℤ c.soc_cap (pos 1) || lt_ℤ (pos 100) c.soc_cap) soc_cap_range (
            reject_if (le_ℤ c.soc_cap c.soc_resume_below) soc_resume_below_order (
              reject_if (le_ℤ c.soc_max c.soc_cap || lt_ℤ (pos 100) c.soc_max) soc_max_range
                (validate_durations c rest))))))

  -- `none` is the nil error
  unfoldable pub validate : Config W → Option ConfigError
  unfolding validate_control validate_update
  validate c = reject_if (c.mqtt.broker == "") broker_empty (
      reject_if (c.mqtt.client_id == "") client_id_empty (
        reject_if (c.evcc.loadpoint_id == "") loadpoint_id_empty (
          validate_control c.control (
            reject_if (lt_ℤ c.web.port (pos 1) || lt_ℤ (pos 65535) c.web.port) port_range
              (reject_if (c.db.path == "") db_path_empty (validate_update c.update))))))
