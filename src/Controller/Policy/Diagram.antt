-- ===== src/Controller/Policy/Diagram.antt =====
-- The states of policy.go's `Decide`: which dwell marker each carries, and which may follow which.
use wallbox_homeautomation_g.Base.{arith, false, true, ◌↔◌, ◌≡◌}
use wallbox_homeautomation_g.Config.{Control}
use wallbox_homeautomation_g.Controller.Policy.{
  decide, decide_auto, decide_from_charging, decide_from_idle, decide_latch, decide_profile,
  is_enabled, override_active,
}
use wallbox_homeautomation_g.Controller.State.{
  Inputs, State, Timers, charging, eq_state, failsafe, idle, soc_reached, stop_pending,
  surplus_pending,
}
use wallbox_homeautomation_g.Go.Float.{Float}
use wallbox_homeautomation_g.Go.Time.{Time, is_zero, zero_time-is_zero}

-- A marker is set only while its dwell is running, and is set then.
pub record IsTimed (st : State) (tm : Timers) : Type 0 where
  pub up : (is_zero tm.crossed_up_at ≡ false) ↔ (st ≡ surplus_pending)
  pub down : (is_zero tm.crossed_down_at ≡ false) ↔ (st ≡ stop_pending)

-- The transitions of automatic control.
infix 40 ◌⟶◌
pub data ◌⟶◌ : State → State → Type 0 where
  fail : {s : State} → s ⟶ failsafe
  halt : {s : State} → s ⟶ idle
  full : {s : State} → s ⟶ soc_reached
  rise : {s : State} → is_enabled s ≡ false → s ⟶ surplus_pending
  begin : surplus_pending ⟶ charging
  keep : {s : State} → is_enabled s ≡ true → s ⟶ charging
  fall : {s : State} → is_enabled s ≡ true → s ⟶ stop_pending

ruleset edges = (fail, halt, full, rise, begin, keep, fall)

module _ {ℓ} {W : Type ℓ} ⦃f : Float W⦄ where
  decide_profile-IsTimed :
      (now : Time) (inp : Inputs W) (st : State) (tm : Timers) (cfg : Control W)
      → is_zero now ≡ false
      → IsTimed (decide_profile now inp st tm cfg).state (decide_profile now inp st tm cfg).timers
  unfolding decide_profile decide_latch decide_from_idle decide_from_charging eq_state
  decide_profile-IsTimed now inp st tm cfg h = ground (arith, zero_time-is_zero)

  decide_auto-IsTimed :
      (now : Time) (inp : Inputs W) (st : State) (tm : Timers) (cfg : Control W)
      → is_zero now ≡ false
      → IsTimed (decide_auto now inp st tm cfg).state (decide_auto now inp st tm cfg).timers
  unfolding decide_auto
  decide_auto-IsTimed now inp st tm cfg h =
      ground (arith, zero_time-is_zero, decide_profile-IsTimed now inp st tm cfg h)

  -- After every decision at a time other than the zero time, the rising marker is set exactly in
  -- the state surplus-pending and the falling marker exactly in stop-pending.
  pub decide-IsTimed :
      (now : Time) (inp : Inputs W) (st : State) (tm : Timers) (cfg : Control W)
      → is_zero now ≡ false
      → IsTimed (decide now inp st tm cfg).state (decide now inp st tm cfg).timers
  unfolding decide
  decide-IsTimed now inp st tm cfg h =
      ground (arith, zero_time-is_zero, decide_auto-IsTimed now inp st tm cfg h)

  decide_profile-⟶ :
      (now : Time) (inp : Inputs W) (st : State) (tm : Timers) (cfg : Control W)
      → IsTimed st tm
      → st ⟶ (decide_profile now inp st tm cfg).state
  unfolding decide_profile decide_latch decide_from_idle decide_from_charging eq_state
  decide_profile-⟶ now inp st tm cfg h = grind (arith, edges)

  decide_auto-⟶ :
      (now : Time) (inp : Inputs W) (st : State) (tm : Timers) (cfg : Control W)
      → IsTimed st tm
      → st ⟶ (decide_auto now inp st tm cfg).state
  unfolding decide_auto
  decide_auto-⟶ now inp st tm cfg h = grind (arith, edges, decide_profile-⟶ now inp st tm cfg h)

  -- From a state whose markers are set only while their dwells run, a decision without an active
  -- override follows an edge of the diagram.
  pub decide-⟶ :
      (now : Time) (inp : Inputs W) (st : State) (tm : Timers) (cfg : Control W)
      → IsTimed st tm
      → override_active now inp ≡ false
      → st ⟶ (decide now inp st tm cfg).state
  unfolding decide
  decide-⟶ now inp st tm cfg h a = grind (arith, edges, decide_auto-⟶ now inp st tm cfg h)
