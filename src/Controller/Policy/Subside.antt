-- ===== src/Controller/Policy/Subside.antt =====
-- The stop dwell of policy.go over whole histories: charging stops for low surplus only when it
-- was low all through the dwell.
use wallbox_homeautomation_g.Base.{
  Bool-absurd, List, [], arith, false, inl, inr, subst, true, ◌∷◌, ◌≡◌, ◌⊎◌,
}
use wallbox_homeautomation_g.Base.Int.{>→le_ℤ, le_ℤ, le_ℤ→≤, ◌≤ℤ◌}
use wallbox_homeautomation_g.Config.{Control}
use wallbox_homeautomation_g.Controller.Policy.{
  decide, decide_auto, decide_from_charging, decide_from_idle, decide_latch, decide_profile,
  is_enabled, override_active, soc_target, surplus,
}
use wallbox_homeautomation_g.Controller.Policy.History.{
  HeldSince, IsLow, Position, Tick, advance, run,
}
use wallbox_homeautomation_g.Controller.Policy.Safety.{MayCharge}
use wallbox_homeautomation_g.Controller.State.{eq_override, eq_state}
use wallbox_homeautomation_g.Go.Float.{Float}
use wallbox_homeautomation_g.Go.Time.{Time, is_zero, since, zero_time-is_zero}

module _ {ℓ} {W : Type ℓ} ⦃f : Float W⦄ where
  profile-falling :
      (cfg : Control W) (t : Tick W) (p : Position)
      → let d = decide_profile t.now t.inputs p.state p.timers cfg in
        is_zero d.timers.crossed_down_at ≡ false
        → (f.lt (surplus t.inputs) cfg.stop_threshold_w ≡ true)
          × ((t.now ≡ d.timers.crossed_down_at)
              ⊎ ((p.timers.crossed_down_at ≡ d.timers.crossed_down_at)
                  × (is_zero p.timers.crossed_down_at ≡ false)))
  unfolding decide_profile decide_latch decide_from_idle decide_from_charging
  profile-falling cfg t p h = ground (arith, zero_time-is_zero)

  auto-falling :
      (cfg : Control W) (t : Tick W) (p : Position)
      → let d = decide_auto t.now t.inputs p.state p.timers cfg in
        is_zero d.timers.crossed_down_at ≡ false
        → decide_auto t.now t.inputs p.state p.timers cfg
          ≡ decide_profile t.now t.inputs p.state p.timers cfg
  unfolding decide_auto
  auto-falling cfg t p h = ground (arith, zero_time-is_zero)

  advance-falling :
      (cfg : Control W) (t : Tick W) (p : Position)
      → let q = advance cfg t p in
        is_zero q.timers.crossed_down_at ≡ false
        → IsLow cfg t
          × ((t.now ≡ q.timers.crossed_down_at)
              ⊎ ((p.timers.crossed_down_at ≡ q.timers.crossed_down_at)
                  × (is_zero p.timers.crossed_down_at ≡ false)))
  unfolding advance decide override_active eq_override
  advance-falling cfg t p h =
      ground (arith, zero_time-is_zero, auto-falling cfg t p, profile-falling cfg t p)

  run-falling :
      (cfg : Control W) (ts : List (Tick W))
      → is_zero (run cfg ts).timers.crossed_down_at ≡ false
      → HeldSince (IsLow cfg) (run cfg ts).timers.crossed_down_at ts
  unfolding run
  run-falling cfg [] h = Bool-absurd zero_time-is_zero h
  run-falling cfg (t ∷ ts) h =
      let (low, from) = advance-falling cfg t (run cfg ts) h in
      (
        low,
        elim from [
          | inl now ↦ inl now
          | inr (same, set) ↦
              inr (subst (λ s. HeldSince (IsLow cfg) s ts) same (run-falling cfg ts set))
        ],
      )

  profile-stops :
      (cfg : Control W) (t : Tick W) (p : Position)
      → is_enabled p.state ≡ true
      → is_enabled (decide_profile t.now t.inputs p.state p.timers cfg).state ≡ false
      → (f.lt (surplus t.inputs) cfg.stop_threshold_w ≡ true)
        × (is_zero p.timers.crossed_down_at ≡ false)
        × (le_ℤ cfg.stop_dwell (since t.now p.timers.crossed_down_at) ≡ true)
  unfolding decide_profile decide_latch decide_from_idle decide_from_charging eq_state
  profile-stops cfg t p h k = ground arith

  advance-stops :
      (cfg : Control W) (t : Tick W) (p : Position)
      → is_enabled p.state ≡ true
      → is_enabled (advance cfg t p).state ≡ false
      → t.inputs.stale ≡ false
      → override_active t.now t.inputs ≡ false
      → MayCharge t.inputs cfg
      → IsLow cfg t
        × (is_zero p.timers.crossed_down_at ≡ false)
        × (le_ℤ cfg.stop_dwell (since t.now p.timers.crossed_down_at) ≡ true)
  unfolding advance decide decide_auto eq_state
  advance-stops cfg t p h k a b m = ground (
    arith,
    profile-stops cfg t p h,
    >→le_ℤ (soc_target t.inputs cfg) t.inputs.vehicle_soc m.below,
  )

  -- From start-up, whatever the history: when a tick with fresh data, no active override, and a
  -- connected vehicle below its target turns charging off, there is a moment since which every tick found the surplus below the stop
  -- threshold under automatic control, and it lies at least the stop dwell in the past.
  pub stop_is_sustained :
      (cfg : Control W) (t : Tick W) (ts : List (Tick W))
      → is_enabled (run cfg ts).state ≡ true
      → is_enabled (run cfg (t ∷ ts)).state ≡ false
      → t.inputs.stale ≡ false
      → override_active t.now t.inputs ≡ false
      → MayCharge t.inputs cfg
      → (s : Time) × HeldSince (IsLow cfg) s (t ∷ ts) × (cfg.stop_dwell ≤ℤ since t.now s)
  unfolding run
  stop_is_sustained cfg t ts h k a b m =
      let (low, set, waited) = advance-stops cfg t (run cfg ts) h k a b m in
      let s : Time = (run cfg ts).timers.crossed_down_at in
      (s, (low, inr (run-falling cfg ts set)), le_ℤ→≤ cfg.stop_dwell (since t.now s) waited)
