-- ===== src/Config/Valid.antt =====
-- What `Config.Validate` of config.go accepts, said without the order of its tests.
use wallbox_homeautomation_g.Base.{
  ==_iff, Bool, Option, String, arith, false, none, true, ◌==◌, ◌||◌, ◌↔◌, ◌≡◌, ◌≢◌, ◌⊎◌,
}
use wallbox_homeautomation_g.Base.Int.{le_ℤ_iff, lt_ℤ, lt_ℤ_iff, pos, ◌<ℤ◌, ◌≤ℤ◌}
use wallbox_homeautomation_g.Config.{
  Config, Control, Update, auto_profile_power_latch, auto_profile_surplus,
  auto_profile_surplus_latch, enable_mode_now, enable_mode_pv,
}
use wallbox_homeautomation_g.Config.Validate.{
  ConfigError, db_path_empty, is_enable_mode, is_profile, port_range, reject_if, validate,
  validate_control, validate_durations, validate_update,
}
use wallbox_homeautomation_g.Go.Float.{Float}

pub record IsValidUpdate (u : Update) : Type 0 where
  pub repository : u.enabled ≡ true → u.repository ≢ ""
  pub request_dir : u.enabled ≡ true → u.request_dir ≢ ""
  pub check_ttl : u.enabled ≡ true → pos 0 ≤ℤ u.check_ttl

module _ {ℓ} {W : Type ℓ} where
  pub record IsValidDurations (c : Control W) : Type 0 where
    pub interval : pos 0 <ℤ c.decision_interval
    pub stale : pos 0 <ℤ c.stale_timeout
    pub republish : pos 0 <ℤ c.republish
    pub window : pos 0 ≤ℤ c.retention_window
    pub pruned : pos 0 <ℤ c.retention_window → pos 0 <ℤ c.retention_interval
    pub start_dwell : pos 0 ≤ℤ c.start_dwell
    pub stop_dwell : pos 0 ≤ℤ c.stop_dwell

module _ {ℓ} {W : Type ℓ} ⦃f : Float W⦄ where
  pub record IsValidControl (c : Control W) : Type 0 where
    pub mode : (c.enable_mode ≡ enable_mode_pv) ⊎ (c.enable_mode ≡ enable_mode_now)
    pub profile :
        (c.auto_profile ≡ auto_profile_surplus)
        ⊎ (c.auto_profile ≡ auto_profile_power_latch)
        ⊎ (c.auto_profile ≡ auto_profile_surplus_latch)
    pub thresholds : f.le c.start_threshold_w c.stop_threshold_w ≡ false
    pub cap_from : pos 1 ≤ℤ c.soc_cap
    pub cap_to : c.soc_cap ≤ℤ pos 100
    pub resume : c.soc_resume_below <ℤ c.soc_cap
    pub max_from : c.soc_cap <ℤ c.soc_max
    pub max_to : c.soc_max ≤ℤ pos 100
    pub durations : IsValidDurations c

  pub record IsValid (c : Config W) : Type 0 where
    pub broker : c.mqtt.broker ≢ ""
    pub client_id : c.mqtt.client_id ≢ ""
    pub loadpoint_id : c.evcc.loadpoint_id ≢ ""
    pub control : IsValidControl c.control
    pub port_from : pos 1 ≤ℤ c.web.port
    pub port_to : c.web.port ≤ℤ pos 65535
    pub path : c.db.path ≢ ""
    pub update : IsValidUpdate c.update

pub reject_if-none :
    (b : Bool) (e : ConfigError) (rest : Option ConfigError)
    → (reject_if b e rest ≡ none) ↔ ((b ≡ false) × (rest ≡ none))
reject_if-none true e rest = ground arith
reject_if-none false e rest = ground arith

pub is_profile_iff :
    (s : String)
    → (is_profile s ≡ true) ↔ (
        (s ≡ auto_profile_surplus)
        ⊎ (s ≡ auto_profile_power_latch)
        ⊎ (s ≡ auto_profile_surplus_latch))
unfolding is_profile
is_profile_iff s = ground (
  arith,
  ==_iff s auto_profile_surplus,
  ==_iff s auto_profile_power_latch,
  ==_iff s auto_profile_surplus_latch,
)

pub is_enable_mode_iff :
    (s : String) → (is_enable_mode s ≡ true) ↔ ((s ≡ enable_mode_pv) ⊎ (s ≡ enable_mode_now))
unfolding is_enable_mode
is_enable_mode_iff s = ground (arith, ==_iff s enable_mode_pv, ==_iff s enable_mode_now)

update_iff : (u : Update) → (validate_update u ≡ none) ↔ IsValidUpdate u
unfolding validate_update
update_iff u =
    ground (arith, ==_iff u.repository "", ==_iff u.request_dir "", lt_ℤ_iff u.check_ttl (pos 0))

module _ {ℓ} {W : Type ℓ} ⦃f : Float W⦄ where
  durations_iff :
      (c : Control W) (rest : Option ConfigError)
      → (validate_durations c rest ≡ none) ↔ (IsValidDurations c × (rest ≡ none))
  unfolding validate_durations
  durations_iff c rest = ground (
    arith,
    le_ℤ_iff c.decision_interval (pos 0),
    le_ℤ_iff c.stale_timeout (pos 0),
    le_ℤ_iff c.republish (pos 0),
    lt_ℤ_iff c.retention_window (pos 0),
    lt_ℤ_iff (pos 0) c.retention_window,
    le_ℤ_iff c.retention_interval (pos 0),
    lt_ℤ_iff c.start_dwell (pos 0),
    lt_ℤ_iff c.stop_dwell (pos 0),
  )

  control_iff :
      (c : Control W) (rest : Option ConfigError)
      → (validate_control c rest ≡ none) ↔ (IsValidControl c × (rest ≡ none))
  unfolding validate_control
  control_iff c rest = ground (
    arith,
    is_enable_mode_iff c.enable_mode,
    is_profile_iff c.auto_profile,
    lt_ℤ_iff c.soc_cap (pos 1),
    lt_ℤ_iff (pos 100) c.soc_cap,
    le_ℤ_iff c.soc_cap c.soc_resume_below,
    le_ℤ_iff c.soc_max c.soc_cap,
    lt_ℤ_iff (pos 100) c.soc_max,
    durations_iff c rest,
  )

  -- A configuration passes `Validate` exactly when broker, client id, loadpoint id and database
  -- path are not empty, the port is within 1..65535, the modes are known, the start threshold is
  -- not at or below the stop threshold (of NaN thresholds that comparison is false, and they
  -- pass), 1 ≤ cap ≤ 100, resume < cap < max ≤ 100, the durations have the signs required, and an
  -- enabled update section names a repository, a request folder and no negative time to live.
  pub validate-none_iff : (c : Config W) → (validate c ≡ none) ↔ IsValid c
  unfolding validate
  validate-none_iff c = ground (
    arith,
    ==_iff c.mqtt.broker "",
    ==_iff c.mqtt.client_id "",
    ==_iff c.evcc.loadpoint_id "",
    ==_iff c.db.path "",
    lt_ℤ_iff c.web.port (pos 1),
    lt_ℤ_iff (pos 65535) c.web.port,
    control_iff c.control (
        reject_if (lt_ℤ c.web.port (pos 1) || lt_ℤ (pos 65535) c.web.port) port_range
          (reject_if (c.db.path == "") db_path_empty (validate_update c.update))),
    update_iff c.update,
  )
