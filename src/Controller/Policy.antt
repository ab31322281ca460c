-- ===== src/Controller/Policy.antt =====
-- internal/controller/policy.go: the decision engine, one definition for each function. The rules
-- of `Decide` are tried in the order of the source; its SoC rules and what follows them stand in
-- definitions of their own.
pub mod Safety
pub mod Diagram
pub mod Stable
mod Tests
pub mod History
pub mod Sustain
pub mod Begin
pub mod Subside
pub mod Latch
pub mod Limit
use wallbox_homeautomation_g.Base.{Bool, String, false, if◌then◌else◌, not, ◌&&◌, ◌==◌, ◌||◌}
use wallbox_homeautomation_g.Base.Int.{eq_ℤ, int64, le_ℤ, lt_ℤ, pos, ℤ, ◌+ℤ◌, ◌-ℤ◌}
use wallbox_homeautomation_g.Config.{
  Control, auto_profile_power_latch, auto_profile_surplus, enable_mode_now,
}
use wallbox_homeautomation_g.Controller.State.{
  Decision, Inputs, Override, ReasonCode, State, Timers, auto, awaiting_data, charging, charging_on,
  eq_override, eq_state, failsafe, force_off, force_on, idle, latch_below_start, latch_charging,
  latch_start, mode_off, no_vehicle, override_off, override_on, reason_text, soc_at_cap, soc_latch,
  soc_reached, stale_off, stop_dwell_pending, stop_dwell_start, stop_low, stop_pending,
  surplus_below_start, surplus_charging, surplus_dwell_pending, surplus_dwell_start,
  surplus_pending,
}
use wallbox_homeautomation_g.Go.Float.{Float, nought}
use wallbox_homeautomation_g.Go.Time.{Time, before, is_zero, since, zero_time}

abbrev pub reset_timers : Timers
reset_timers = record { crossed_up_at = zero_time; crossed_down_at = zero_time }

abbrev pub new_decision : State → Timers → String → ReasonCode → Decision
new_decision st timers mode code = record {
  state = st;
  timers = timers;
  desired_mode = mode;
  reason = reason_text code;
  reason_code = code;
}

abbrev pub crossed_up : Time → Timers
crossed_up t = record { crossed_up_at = t; crossed_down_at = zero_time }

abbrev pub crossed_down : Time → Timers
crossed_down t = record { crossed_up_at = zero_time; crossed_down_at = t }

abbrev pub is_enabled : State → Bool
is_enabled st = eq_state st charging || eq_state st stop_pending

module _ {ℓ} {W : Type ℓ} ⦃f : Float W⦄ where
  unfoldable pub surplus : Inputs W → W
  surplus inp =
      let discharge = if f.lt inp.battery_w nought then nought else inp.battery_w in
      f.sub (f.sub inp.charge_w inp.grid_w) discharge

  unfoldable pub effective_mode : Inputs W → Control W → String
  effective_mode inp cfg = if inp.charge_power == "" then cfg.enable_mode else inp.charge_power

  unfoldable pub effective_profile : Inputs W → Control W → String
  effective_profile inp cfg = if inp.auto_profile == "" then cfg.auto_profile else inp.auto_profile

  unfoldable pub effective_start_threshold : Inputs W → Control W → W
  effective_start_threshold inp cfg =
      if f.eq inp.start_threshold_w nought then cfg.start_threshold_w else inp.start_threshold_w

  unfoldable pub effective_target_soc : Inputs W → Control W → ℤ
  effective_target_soc inp cfg = if eq_ℤ inp.target_soc (pos 0) then cfg.soc_cap else inp.target_soc

  unfoldable pub override_active : Time → Inputs W → Bool
  override_active now inp =
      if eq_override inp.override auto
      then false
      else is_zero inp.override_until || before now inp.override_until

  unfoldable pub is_latch : Inputs W → Control W → Bool
  is_latch inp cfg = not (effective_profile inp cfg == auto_profile_surplus)

  unfoldable pub clamp_bypass : ℤ → Control W → ℤ
  clamp_bypass target cfg =
      let lowest = int64 (cfg.soc_cap +ℤ pos 1) in
      let raised = if lt_ℤ target lowest then lowest else target in
      if lt_ℤ cfg.soc_max raised then cfg.soc_max else raised

  unfoldable pub limit_soc_target : Time → Inputs W → Control W → ℤ
  limit_soc_target now inp cfg =
      if eq_override inp.override force_on && inp.override_cap_bypass && override_active now inp
      then (if lt_ℤ (pos 0) inp.override_cap_bypass_soc
          then clamp_bypass inp.override_cap_bypass_soc cfg
          else cfg.soc_max)
      else if is_latch inp cfg
      then effective_target_soc inp cfg
      else cfg.soc_cap

  unfoldable pub latch_trigger : Inputs W → String → W
  latch_trigger inp profile = if profile == auto_profile_power_latch then inp.pv_w else surplus inp

  unfoldable pub decide_latch : Time → Inputs W → State → Timers → Control W → String → Decision
  decide_latch now inp st timers cfg profile =
      if is_enabled st
      then new_decision charging reset_timers enable_mode_now latch_charging
      else if f.le (effective_start_threshold inp cfg) (latch_trigger inp profile)
      then (if is_zero timers.crossed_up_at
          then new_decision surplus_pending (crossed_up now) mode_off latch_start
          else if le_ℤ cfg.start_dwell (since now timers.crossed_up_at)
          then new_decision charging reset_timers enable_mode_now latch_charging
          else new_decision surplus_pending (crossed_up timers.crossed_up_at) mode_off
              surplus_dwell_pending)
      else new_decision idle reset_timers mode_off latch_below_start

  unfoldable pub decide_from_idle : Time → W → Timers → Control W → String → Decision
  decide_from_idle now s timers cfg enable =
      if f.le cfg.start_threshold_w s
      then (if is_zero timers.crossed_up_at
          then new_decision surplus_pending (crossed_up now) mode_off surplus_dwell_start
          else if le_ℤ cfg.start_dwell (since now timers.crossed_up_at)
          then new_decision charging reset_timers enable surplus_charging
          else new_decision surplus_pending (crossed_up timers.crossed_up_at) mode_off
              surplus_dwell_pending)
      else new_decision idle reset_timers mode_off surplus_below_start

  unfoldable pub decide_from_charging : Time → W → Timers → Control W → String → Decision
  decide_from_charging now s timers cfg enable =
      if f.lt s cfg.stop_threshold_w
      then (if is_zero timers.crossed_down_at
          then new_decision stop_pending (crossed_down now) enable stop_dwell_start
          else if le_ℤ cfg.stop_dwell (since now timers.crossed_down_at)
          then new_decision idle reset_timers mode_off stop_low
          else new_decision stop_pending (crossed_down timers.crossed_down_at) enable
              stop_dwell_pending)
      else new_decision charging reset_timers enable charging_on

  -- the SoC bound of rule 5 and its lower latch boundary
  unfoldable pub soc_target : Inputs W → Control W → ℤ
  soc_target inp cfg = if is_latch inp cfg then effective_target_soc inp cfg else cfg.soc_cap

  unfoldable pub resume_below : Inputs W → Control W → ℤ
  resume_below inp cfg = int64 (soc_target inp cfg -ℤ int64 (cfg.soc_cap -ℤ cfg.soc_resume_below))

  -- rule 6
  unfoldable pub decide_profile : Time → Inputs W → State → Timers → Control W → Decision
  decide_profile now inp st timers cfg =
      if is_latch inp cfg
      then decide_latch now inp st timers cfg (effective_profile inp cfg)
      else if is_enabled st
      then decide_from_charging now (surplus inp) timers cfg (effective_mode inp cfg)
      else decide_from_idle now (surplus inp) timers cfg (effective_mode inp cfg)

  -- rules 3 to 6
  unfoldable pub decide_auto : Time → Inputs W → State → Timers → Control W → Decision
  decide_auto now inp st timers cfg =
      if not inp.ready
      then new_decision idle reset_timers mode_off awaiting_data
      else if not inp.is_connected
      then new_decision idle reset_timers mode_off no_vehicle
      else if le_ℤ (soc_target inp cfg) inp.vehicle_soc
      then new_decision soc_reached reset_timers mode_off soc_at_cap
      else if eq_state st soc_reached && le_ℤ (resume_below inp cfg) inp.vehicle_soc
      then new_decision soc_reached reset_timers mode_off soc_latch
      else decide_profile now inp st timers cfg

  -- the `switch` of rule 2, which falls through where it has no case
  abbrev decide_override : Override → Inputs W → Control W → Decision → Decision
  decide_override force_off inp cfg rest = new_decision idle reset_timers mode_off override_off
  decide_override force_on inp cfg rest =
      new_decision charging reset_timers (effective_mode inp cfg) override_on
  decide_override auto inp cfg rest = rest

  unfoldable pub decide : Time → Inputs W → State → Timers → Control W → Decision
  decide now inp st timers cfg =
      if inp.stale
      then new_decision failsafe reset_timers mode_off stale_off
      else if override_active now inp
      then decide_override inp.override inp cfg (decide_auto now inp st timers cfg)
      else decide_auto now inp st timers cfg
