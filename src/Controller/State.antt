-- ===== src/Controller/State.antt =====
-- internal/controller/state.go: the states, the operator's settings, the inputs of a decision and
-- its result. Where the code holds an enumeration in a string, the constructors stand for the
-- declared constants; modes and profiles are texts, since they may be empty or unknown.
use wallbox_homeautomation_g.Base.{Bool, String, false, if◌then◌else◌, true, ◌==◌}
use wallbox_homeautomation_g.Base.Dict.{Dict, lookup, or_zero}
use wallbox_homeautomation_g.Base.Int.{pos, ℤ}
use wallbox_homeautomation_g.Config.{Control}
use wallbox_homeautomation_g.Go.Float.{Float, nought}
use wallbox_homeautomation_g.Go.Time.{Time}

pub data State : Type 0 where
  idle surplus_pending charging stop_pending soc_reached failsafe : State

pub data Override : Type 0 where
  auto force_on force_off : Override

abbrev pub mode_off : String
mode_off = "off"

pub data ReasonCode : Type 0 where
  stale_off override_off override_on awaiting_data no_vehicle soc_at_cap soc_latch : ReasonCode
  surplus_dwell_start surplus_charging surplus_dwell_pending surplus_below_start : ReasonCode
  stop_dwell_start stop_low stop_dwell_pending charging_on : ReasonCode
  latch_start latch_charging latch_below_start : ReasonCode

unfoldable pub state_name : State → String
state_name idle = "idle"
state_name surplus_pending = "surplus_pending"
state_name charging = "charging"
state_name stop_pending = "stop_pending"
state_name soc_reached = "soc_reached"
state_name failsafe = "failsafe"

unfoldable pub override_name : Override → String
override_name auto = "auto"
override_name force_on = "on"
override_name force_off = "off"

unfoldable pub reason_code_name : ReasonCode → String
reason_code_name stale_off = "stale_off"
reason_code_name override_off = "override_off"
reason_code_name override_on = "override_on"
reason_code_name awaiting_data = "awaiting_data"
reason_code_name no_vehicle = "no_vehicle"
reason_code_name soc_at_cap = "soc_cap"
reason_code_name soc_latch = "soc_latch"
reason_code_name surplus_dwell_start = "surplus_dwell_start"
reason_code_name surplus_charging = "surplus_charging"
reason_code_name surplus_dwell_pending = "surplus_dwell_pending"
reason_code_name surplus_below_start = "surplus_below_start"
reason_code_name stop_dwell_start = "stop_dwell_start"
reason_code_name stop_low = "stop_low"
reason_code_name stop_dwell_pending = "stop_dwell_pending"
reason_code_name charging_on = "charging"
reason_code_name latch_start = "latch_start"
reason_code_name latch_charging = "latch_charging"
reason_code_name latch_below_start = "latch_below_start"

-- the map `reasonText`
unfoldable pub reason_text : ReasonCode → String
reason_text stale_off = "stale data / disconnected → off"
reason_text override_off = "manual override: off"
reason_text override_on = "manual override: on"
reason_text awaiting_data = "waiting for initial data"
reason_text no_vehicle = "no vehicle connected"
reason_text soc_at_cap = "SoC >= cap"
reason_text soc_latch = "SoC latch (>= resumeBelow)"
reason_text surplus_dwell_start = "surplus rising, dwell started"
reason_text surplus_charging = "surplus sustained → charging"
reason_text surplus_dwell_pending = "surplus dwell pending"
reason_text surplus_below_start = "surplus below start"
reason_text stop_dwell_start = "surplus dropping, stop dwell started"
reason_text stop_low = "surplus low sustained → stop"
reason_text stop_dwell_pending = "stop dwell pending"
reason_text charging_on = "charging"
reason_text latch_start = "latch trigger rising, dwell started"
reason_text latch_charging = "latch charging to target SoC"
reason_text latch_below_start = "latch trigger below start"

pub record ControlState {ℓ} (W : Type ℓ) : Type ℓ where
  pub override : Override
  pub override_until : Time
  pub cap_bypass : Bool
  pub cap_bypass_soc : ℤ
  pub charge_power : String
  pub auto_profile : String
  pub start_threshold_w : Dict W
  pub target_soc : Dict ℤ

pub record Inputs {ℓ} (W : Type ℓ) : Type ℓ where
  pub grid_w : W
  pub pv_w : W
  pub home_w : W
  pub battery_w : W
  pub charge_w : W
  pub battery_soc : ℤ
  pub vehicle_soc : ℤ
  pub vehicle_soc_known : Bool
  pub is_charging : Bool
  pub is_connected : Bool
  pub ready : Bool
  pub stale : Bool
  pub override : Override
  pub override_until : Time
  pub override_cap_bypass : Bool
  pub override_cap_bypass_soc : ℤ
  pub charge_power : String
  pub auto_profile : String
  pub start_threshold_w : W
  pub target_soc : ℤ

pub record Timers : Type 0 where
  pub crossed_up_at : Time
  pub crossed_down_at : Time

pub record Decision : Type 0 where
  pub state : State
  pub timers : Timers
  pub desired_mode : String
  pub reason : String
  pub reason_code : ReasonCode

-- `==` on the enumerations
unfoldable pub eq_state : State → State → Bool
eq_state idle idle = true
eq_state surplus_pending surplus_pending = true
eq_state charging charging = true
eq_state stop_pending stop_pending = true
eq_state soc_reached soc_reached = true
eq_state failsafe failsafe = true
eq_state _ _ = false

unfoldable pub eq_override : Override → Override → Bool
eq_override auto auto = true
eq_override force_on force_on = true
eq_override force_off force_off = true
eq_override _ _ = false

module _ {ℓ} {W : Type ℓ} ⦃f : Float W⦄ where
  -- `ControlState.latchOverrides`
  unfoldable pub latch_overrides : ControlState W → Control W → W × ℤ
  latch_overrides cs cfg =
      let profile = if cs.auto_profile == "" then cfg.auto_profile else cs.auto_profile in
      (
        or_zero nought (lookup profile cs.start_threshold_w),
        or_zero (pos 0) (lookup profile cs.target_soc),
      )
