-- ===== src/Controller/Policy/Sustain.antt =====
-- The start dwell of policy.go over whole histories: charging starts on sustained surplus only.
use wallbox_homeautomation_g.Base.{
  Bool-absurd, List, [], arith, false, if◌then◌else◌, inl, inr, subst, true, ◌∷◌, ◌≡◌, ◌⊎◌,
}
use wallbox_homeautomation_g.Base.Int.{le_ℤ, le_ℤ→>, le_ℤ→≤, ◌≤ℤ◌}
use wallbox_homeautomation_g.Config.{Control}
use wallbox_homeautomation_g.Controller.Policy.{
  decide, decide_auto, decide_from_charging, decide_from_idle, decide_latch, decide_profile,
  effective_profile, effective_start_threshold, is_enabled, is_latch, latch_trigger,
  override_active, soc_target, surplus,
}
use wallbox_homeautomation_g.Controller.Policy.History.{
  HeldSince, IsAbove, Position, Tick, advance, run,
}
use wallbox_homeautomation_g.Controller.Policy.Safety.{MayCharge}
use wallbox_homeautomation_g.Controller.State.{charging, eq_override}
use wallbox_homeautomation_g.Go.Float.{Float}
use wallbox_homeautomation_g.Go.Time.{Time, is_zero, since, zero_time-is_zero}

module _ {ℓ} {W : Type ℓ} ⦃f : Float W⦄ where
  profile-rising :
      (cfg : Control W) (t : Tick W) (p : Position)
      → let d = decide_profile t.now t.inputs p.state p.timers cfg in
        is_zero d.timers.crossed_up_at ≡ false
        → ((if is_latch t.inputs cfg
              then f.le
                  (effective_start_threshold t.inputs cfg)
                  (latch_trigger t.inputs (effective_profile t.inputs cfg))
              else f.le cfg.start_threshold_w (surplus t.inputs))
            ≡ true)
          × ((t.now ≡ d.timers.crossed_up_at)
              ⊎ ((p.timers.crossed_up_at ≡ d.timers.crossed_up_at)
                  × (is_zero p.timers.crossed_up_at ≡ false)))
  unfolding decide_profile decide_latch decide_from_idle decide_from_charging
  profile-rising cfg t p h = ground (arith, zero_time-is_zero)

  auto-rising :
      (cfg : Control W) (t : Tick W) (p : Position)
      → let d = decide_auto t.now t.inputs p.state p.timers cfg in
        is_zero d.timers.crossed_up_at ≡ false
        → MayCharge t.inputs cfg
          × (decide_auto t.now t.inputs p.state p.timers cfg
              ≡ decide_profile t.now t.inputs p.state p.timers cfg)
  unfolding decide_auto
  auto-rising cfg t p h =
      ground (arith, zero_time-is_zero, le_ℤ→> (soc_target t.inputs cfg) t.inputs.vehicle_soc)

  pub advance-rising :
      (cfg : Control W) (t : Tick W) (p : Position)
      → let q = advance cfg t p in
        is_zero q.timers.crossed_up_at ≡ false
        → IsAbove cfg t
          × ((t.now ≡ q.timers.crossed_up_at)
              ⊎ ((p.timers.crossed_up_at ≡ q.timers.crossed_up_at)
                  × (is_zero p.timers.crossed_up_at ≡ false)))
  unfolding advance decide override_active eq_override
  advance-rising cfg t p h =
      ground (arith, zero_time-is_zero, auto-rising cfg t p, profile-rising cfg t p)

  run-rising :
      (cfg : Control W) (ts : List (Tick W))
      → is_zero (run cfg ts).timers.crossed_up_at ≡ false
      → HeldSince (IsAbove cfg) (run cfg ts).timers.crossed_up_at ts
  unfolding run
  run-rising cfg [] h = Bool-absurd zero_time-is_zero h
  run-rising cfg (t ∷ ts) h =
      let (above, from) = advance-rising cfg t (run cfg ts) h in
      (
        above,
        elim from [
          | inl now ↦ inl now
          | inr (same, set) ↦
              inr (subst (λ s. HeldSince (IsAbove cfg) s ts) same (run-rising cfg ts set))
        ],
      )

  profile-starts :
      (cfg : Control W) (t : Tick W) (p : Position)
      → let d = decide_profile t.now t.inputs p.state p.timers cfg in
        d.state ≡ charging
        → is_enabled p.state ≡ false
        → ((if is_latch t.inputs cfg
              then f.le
                  (effective_start_threshold t.inputs cfg)
                  (latch_trigger t.inputs (effective_profile t.inputs cfg))
              else f.le cfg.start_threshold_w (surplus t.inputs))
            ≡ true)
          × (is_zero p.timers.crossed_up_at ≡ false)
          × (le_ℤ cfg.start_dwell (since t.now p.timers.crossed_up_at) ≡ true)
  unfolding decide_profile decide_latch decide_from_idle decide_from_charging
  profile-starts cfg t p h k = ground arith

  auto-starts :
      (cfg : Control W) (t : Tick W) (p : Position)
      → let d = decide_auto t.now t.inputs p.state p.timers cfg in
        d.state ≡ charging
        → MayCharge t.inputs cfg
          × ((decide_profile t.now t.inputs p.state p.timers cfg).state ≡ charging)
  unfolding decide_auto
  auto-starts cfg t p h = ground (arith, le_ℤ→> (soc_target t.inputs cfg) t.inputs.vehicle_soc)

  advance-starts :
      (cfg : Control W) (t : Tick W) (p : Position)
      → (advance cfg t p).state ≡ charging
      → is_enabled p.state ≡ false
      → override_active t.now t.inputs ≡ false
      → IsAbove cfg t
        × (is_zero p.timers.crossed_up_at ≡ false)
        × (le_ℤ cfg.start_dwell (since t.now p.timers.crossed_up_at) ≡ true)
  unfolding advance decide
  advance-starts cfg t p h k a = ground (arith, auto-starts cfg t p, profile-starts cfg t p)

  -- From start-up, whatever the history: when a tick without an active override turns charging on,
  -- there is a moment since which every tick found the data fresh, the vehicle connected and below
  -- its target, no override active and the active profile's trigger at or above its start
  -- threshold, and that moment lies at least the start dwell in the past.
  pub charging_is_sustained :
      (cfg : Control W) (t : Tick W) (ts : List (Tick W))
      → (run cfg (t ∷ ts)).state ≡ charging
      → is_enabled (run cfg ts).state ≡ false
      → override_active t.now t.inputs ≡ false
      → (s : Time) × HeldSince (IsAbove cfg) s (t ∷ ts) × (cfg.start_dwell ≤ℤ since t.now s)
  unfolding run
  charging_is_sustained cfg t ts h k a =
      let (above, set, waited) = advance-starts cfg t (run cfg ts) h k a in
      let s : Time = (run cfg ts).timers.crossed_up_at in
      (s, (above, inr (run-rising cfg ts set)), le_ℤ→≤ cfg.start_dwell (since t.now s) waited)
  -- The same for the stop.
