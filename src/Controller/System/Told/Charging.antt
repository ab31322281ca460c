-- ===== src/Controller/System/Told/Charging.antt =====
-- controller.go, policy.go: the mode and the limit that evcc was last told when wha wants to charge.
use wallbox_homeautomation_g.Base.{false, some, subst, sym, true, ◌≡◌, ◌≢◌}
use wallbox_homeautomation_g.Base.Int.{ℤ, ◌<ℤ◌}
use wallbox_homeautomation_g.Config.{Control}
use wallbox_homeautomation_g.Config.Valid.{IsValidControl}
use wallbox_homeautomation_g.Controller.Inputs.{inputs_from_snapshot}
use wallbox_homeautomation_g.Controller.Inputs.Trust.{decide-IsLive}
use wallbox_homeautomation_g.Controller.Loop.{Plan, act, plan}
use wallbox_homeautomation_g.Controller.Loop.Follow.{Told, hear}
use wallbox_homeautomation_g.Controller.Loop.Struct.{Controller}
use wallbox_homeautomation_g.Controller.Policy.{override_active}
use wallbox_homeautomation_g.Controller.Policy.Limit.{charging-lt-limit_soc_target}
use wallbox_homeautomation_g.Controller.Recorder.{Commander, Recorder, set_limit_soc, set_mode}
use wallbox_homeautomation_g.Controller.State.{mode_off}
use wallbox_homeautomation_g.Controller.System.{committed}
use wallbox_homeautomation_g.Controller.System.Told.{Ran, act-follows}
use wallbox_homeautomation_g.Evcc.Store.{Snapshot}
use wallbox_homeautomation_g.Go.Float.{Float}
use wallbox_homeautomation_g.Go.Time.{Time}

module _ {ℓ} {W : Type ℓ} ⦃f : Float W⦄ where
  -- A plan that charges without an override was made with a broker, and for a vehicle below the limit.
  plan-charging :
      (now : Time) (snap : Snapshot W) (c : Controller W)
      → let p = plan now snap c in
        override_active p.now p.inputs ≡ false
        → p.decision.desired_mode ≢ mode_off
        → (p.snap.broker_connected ≡ true) × (p.inputs.vehicle_soc <ℤ p.limit_target)
  unfolding plan
  plan-charging now snap c a h =
      let inp = inputs_from_snapshot now snap c.cfg c.ctrl in
      (
        (decide-IsLive now snap c.cfg c.ctrl c.state c.timers h).0.broker,
        charging-lt-limit_soc_target now inp c.state c.timers c.cfg a h,
      )

module _ {ℓ κ} {W : Type ℓ} {D : Type κ} ⦃f : Float W⦄ ⦃r : Recorder W D⦄ where
  -- In every run of the controller with a valid configuration: when a tick decides to charge without
  -- an active override, and publishing its mode and its limit reports no error, then by the commands
  -- of the run evcc was last told that mode and a limit above the state of charge that the tick
  -- decided on.
  pub charging-told :
      (cfg : Control W) (Start : D → Type 0) (told : Told) (p : Plan W) (c : Controller W) (d : D)
      (answers : Commander)
      → IsValidControl cfg
      → Ran cfg Start told (record { control = c; database = d; phase = committed p })
      → answers (set_mode p.decision.desired_mode) ≡ true
      → answers (set_limit_soc p.limit_target) ≡ true
      → override_active p.now p.inputs ≡ false
      → p.decision.desired_mode ≢ mode_off
      → let told' = hear answers (act answers p c d).2 told in
        (told'.mode ≡ some p.decision.desired_mode)
        × (limit : ℤ) × (told'.limit ≡ some limit)
        × (p.inputs.vehicle_soc <ℤ limit)
  charging-told cfg Start told p c d answers v h mode limit a on =
      let ((now, snap, c₀, e), knows, follows, limits) =
        act-follows cfg Start told p c d answers v h in
      let below : (p.snap.broker_connected ≡ true) × (p.inputs.vehicle_soc <ℤ p.limit_target) =
        subst
          (λ (q : Plan W).
            override_active q.now q.inputs ≡ false
            → q.decision.desired_mode ≢ mode_off
            → (q.snap.broker_connected ≡ true) × (q.inputs.vehicle_soc <ℤ q.limit_target))
          (sym e) (plan-charging now snap c₀) a on in
      (follows mode, p.limit_target, limits below.0 limit, below.1)
