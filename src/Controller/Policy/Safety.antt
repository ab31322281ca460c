-- ===== src/Controller/Policy/Safety.antt =====
-- When policy.go's `Decide` lets the car charge, and what it commands in each state.
use text.Mathlib.TextEquality.{eq_iff}
use wallbox_homeautomation_g.Base.{arith, false, true, ◌↔◌, ◌≡◌, ◌≢◌, ◌⊎◌}
use wallbox_homeautomation_g.Base.Int.{le_ℤ→>, ◌<ℤ◌}
use wallbox_homeautomation_g.Config.{Control, enable_mode_now}
use wallbox_homeautomation_g.Controller.Policy.{
  decide, decide_auto, decide_from_charging, decide_from_idle, decide_latch, decide_profile,
  effective_mode, is_enabled, override_active, soc_target,
}
use wallbox_homeautomation_g.Controller.State.{
  Inputs, State, Timers, eq_override, eq_state, force_on, mode_off,
}
use wallbox_homeautomation_g.Go.Float.{Float}
use wallbox_homeautomation_g.Go.Time.{Time}

now_is_not_off : enable_mode_now ≢ mode_off
now_is_not_off = ground (arith, eq_iff enable_mode_now mode_off)

module _ {ℓ} {W : Type ℓ} ⦃f : Float W⦄ where
  -- What automatic control requires of an input before it charges.
  pub record MayCharge (inp : Inputs W) (cfg : Control W) : Type 0 where
    pub ready : inp.ready ≡ true
    pub connected : inp.is_connected ≡ true
    pub below : inp.vehicle_soc <ℤ soc_target inp cfg

  decide_auto-MayCharge :
      (now : Time) (inp : Inputs W) (st : State) (tm : Timers) (cfg : Control W)
      → (decide_auto now inp st tm cfg).desired_mode ≢ mode_off
      → MayCharge inp cfg
  unfolding decide_auto
  decide_auto-MayCharge now inp st tm cfg h =
      ground (arith, le_ℤ→> (soc_target inp cfg) inp.vehicle_soc)

  -- Whenever `Decide` commands any mode but "off", the data are not stale, and either an unexpired
  -- force-on override is set, or no override is active, the metrics that the policy reads were all seen, a vehicle is
  -- connected and its state of charge is below the target of the active profile.
  pub decide-enabled_needs :
      (now : Time) (inp : Inputs W) (st : State) (tm : Timers) (cfg : Control W)
      → (decide now inp st tm cfg).desired_mode ≢ mode_off
      → (inp.stale ≡ false)
        × (((inp.override ≡ force_on) × (override_active now inp ≡ true))
            ⊎ ((override_active now inp ≡ false) × MayCharge inp cfg))
  unfolding decide override_active eq_override
  decide-enabled_needs now inp st tm cfg h = ground (arith, decide_auto-MayCharge now inp st tm cfg)

  decide_profile-mode :
      (now : Time) (inp : Inputs W) (st : State) (tm : Timers) (cfg : Control W)
      → effective_mode inp cfg ≢ mode_off
      → ((decide_profile now inp st tm cfg).desired_mode ≡ mode_off)
        ↔ (is_enabled (decide_profile now inp st tm cfg).state ≡ false)
  unfolding decide_profile decide_latch decide_from_idle decide_from_charging eq_state
  decide_profile-mode now inp st tm cfg h = ground (arith, now_is_not_off)

  decide_auto-mode :
      (now : Time) (inp : Inputs W) (st : State) (tm : Timers) (cfg : Control W)
      → effective_mode inp cfg ≢ mode_off
      → ((decide_auto now inp st tm cfg).desired_mode ≡ mode_off)
        ↔ (is_enabled (decide_auto now inp st tm cfg).state ≡ false)
  unfolding decide_auto eq_state
  decide_auto-mode now inp st tm cfg h = ground (arith, decide_profile-mode now inp st tm cfg h)

  -- As long as the operator's charge mode is not itself "off", the command is "off" exactly in the
  -- states other than charging and stop-pending.
  pub decide-mode_iff :
      (now : Time) (inp : Inputs W) (st : State) (tm : Timers) (cfg : Control W)
      → effective_mode inp cfg ≢ mode_off
      → ((decide now inp st tm cfg).desired_mode ≡ mode_off)
        ↔ (is_enabled (decide now inp st tm cfg).state ≡ false)
  unfolding decide eq_state
  decide-mode_iff now inp st tm cfg h = ground (arith, decide_auto-mode now inp st tm cfg h)
