-- ===== src/Controller/Policy/Stable.antt =====
-- The hysteresis of policy.go: a decision taken again at once, on the same data, changes nothing.
use wallbox_homeautomation_g.Base.{arith, false, true, ◌≡◌}
use wallbox_homeautomation_g.Base.Int.{>→le_ℤ, pos, ◌<ℤ◌}
use wallbox_homeautomation_g.Config.{Control}
use wallbox_homeautomation_g.Controller.Policy.{
  decide, decide_auto, decide_from_charging, decide_from_idle, decide_latch, decide_profile,
  surplus,
}
use wallbox_homeautomation_g.Controller.State.{
  Decision, Inputs, State, Timers, eq_state, soc_reached,
}
use wallbox_homeautomation_g.Go.Float.{Float, IsOrdered}
use wallbox_homeautomation_g.Go.Time.{Time, since_self, zero_time-is_zero}

abbrev pub SamePlan : Decision → Decision → Type 0
SamePlan d e = (d.state ≡ e.state) × (d.timers ≡ e.timers) × (d.desired_mode ≡ e.desired_mode)

module _ {ℓ} {W : Type ℓ} ⦃f : Float W⦄ where
  decide_profile-ne-soc_reached :
      (now : Time) (inp : Inputs W) (st : State) (tm : Timers) (cfg : Control W)
      → eq_state (decide_profile now inp st tm cfg).state soc_reached ≡ false
  unfolding decide_profile decide_latch decide_from_idle decide_from_charging eq_state
  decide_profile-ne-soc_reached now inp st tm cfg = ground arith

module _ {ℓ} {W : Type ℓ} ⦃f : Float W⦄ (o : IsOrdered W) where
  pub not_both : (lo hi s : W) → f.lt lo hi ≡ true → f.le hi s ≡ true → f.lt s lo ≡ false
  not_both lo hi s h k = o.lt_asym lo s (o.lt_le_trans lo hi s h k)

  module _ (now : Time) (inp : Inputs W) (st : State) (tm : Timers) (cfg : Control W)
      (ordered : f.lt cfg.stop_threshold_w cfg.start_threshold_w ≡ true)
      (start_dwells : pos 0 <ℤ cfg.start_dwell) (stop_dwells : pos 0 <ℤ cfg.stop_dwell) where
    decide_profile-again :
        let d = decide_profile now inp st tm cfg in
        SamePlan (decide_profile now inp d.state d.timers cfg) d
    unfolding decide_profile decide_latch decide_from_idle decide_from_charging eq_state
    decide_profile-again = ground (
      arith,
      zero_time-is_zero,
      since_self now,
      >→le_ℤ cfg.start_dwell (pos 0) start_dwells,
      >→le_ℤ cfg.stop_dwell (pos 0) stop_dwells,
      not_both cfg.stop_threshold_w cfg.start_threshold_w (surplus inp) ordered,
    )

    decide_auto-again :
        let d = decide_auto now inp st tm cfg in
        SamePlan (decide_auto now inp d.state d.timers cfg) d
    unfolding decide_auto eq_state
    decide_auto-again =
        ground (arith, decide_profile-again, decide_profile-ne-soc_reached now inp st tm cfg)

    -- With IsOrdered comparisons, the stop threshold below the start threshold and positive dwells,
    -- deciding again at the same moment on the same inputs, from the state and timers just decided,
    -- gives that state, those timers and that mode, whatever state the first decision started from.
    pub decide-again :
        let d = decide now inp st tm cfg in SamePlan (decide now inp d.state d.timers cfg) d
    unfolding decide
    decide-again = ground (arith, decide_auto-again)
