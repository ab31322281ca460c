-- ===== src/Web/Commands/Force.antt =====
-- handlers.go, controller.go and policy.go: how long an override that was posted is in force, and
-- what it makes the controller do.
use wallbox_homeautomation_g.Base.{
  Bool, Bool-cases, String, ap, arith, false, inl, inr, not, refl, some, true, ◌&&◌, ◌||◌, ◌∙◌, ◌≡◌,
  ◌≢◌,
}
use wallbox_homeautomation_g.Base.Int.{pos}
use wallbox_homeautomation_g.Config.{Control}
use wallbox_homeautomation_g.Controller.Inputs.{inputs_from_snapshot, is_stale}
use wallbox_homeautomation_g.Controller.Loop.Struct.{Controller}
use wallbox_homeautomation_g.Controller.Policy.{decide, effective_mode, override_active}
use wallbox_homeautomation_g.Controller.Recorder.{Recorder}
use wallbox_homeautomation_g.Controller.Settings.{set_override}
use wallbox_homeautomation_g.Controller.State.{
  Inputs, Override, State, Timers, auto, eq_override, force_off, force_on, mode_off,
}
use wallbox_homeautomation_g.Controller.System.{serve}
use wallbox_homeautomation_g.Evcc.Store.{Snapshot}
use wallbox_homeautomation_g.Go.Float.{Float, nought}
use wallbox_homeautomation_g.Go.Time.{
  Time, add, before, hour, is_zero, zero_time, zero_time-is_zero,
}
use wallbox_homeautomation_g.Web.Commands.{
  OverrideBody, expiry, handle_api_override, parse_override, put_setting,
}
use wallbox_homeautomation_g.Web.Pages.{Texts}
use wallbox_homeautomation_g.Web.Reply.{Context}

abbrev pub commanded : Override → String → String
commanded auto mode = mode
commanded force_on mode = mode
commanded force_off mode = mode_off

pub set_apart : (o : Override) → o ≢ auto → eq_override o auto ≡ false
unfolding eq_override
set_apart auto h = absurd (h refl)
set_apart force_on h = refl
set_apart force_off h = refl

module _ {ℓ} {W : Type ℓ} ⦃f : Float W⦄ where
  -- whether an override that lasts for some hours from `start` is in force
  abbrev pub still_in_force : Time → W → Time → Bool
  still_in_force start lasts later =
      not (f.lt nought lasts)
      || (let until = add start (f.trunc (f.mul lasts (f.of_int (pos hour)))) in
          is_zero until || before later until)

  pub expiry-still_in_force :
      (start : Time) (lasts : W) (later : Time)
      → (is_zero (expiry start lasts) || before later (expiry start lasts))
        ≡ still_in_force start lasts later
  unfolding expiry
  expiry-still_in_force start lasts later = elim (Bool-cases (f.lt nought lasts)) [
    | inl timed ↦ rw timed refl
    | inr endless ↦ rw endless (ap (λ b. b || before later zero_time) zero_time-is_zero)
  ]

  pub override_active_lem :
      (later : Time) (inp : Inputs W)
      → override_active later inp ≡ (
          not (eq_override inp.override auto)
          && (is_zero inp.override_until || before later inp.override_until))
  unfolding override_active
  override_active_lem later inp = ground arith

  decide-forced :
      (later : Time) (inp : Inputs W) (st : State) (tm : Timers) (cfg : Control W)
      → inp.stale ≡ false
      → override_active later inp ≡ true
      → (o : Override) → inp.override ≡ o
      → o ≢ auto
      → (decide later inp st tm cfg).desired_mode ≡ commanded o (effective_mode inp cfg)
  unfolding decide
  decide-forced later inp st tm cfg live active auto e h = absurd (h refl)
  decide-forced later inp st tm cfg live active force_on e h = ground arith
  decide-forced later inp st tm cfg live active force_off e h = ground arith

module _ {ℓ κ} {W : Type ℓ} {D : Type κ} ⦃f : Float W⦄ ⦃r : Recorder W D⦄ (texts : Texts)
    (x : Context) (clock : Time) (req : OverrideBody W) (mode : Override) where
  pub posted :
      (c : Controller W) (d : D)
      → parse_override req.mode ≡ some mode
      → let c' = (handle_api_override texts x clock (some req) c d).0 in
        (c'.cfg ≡ c.cfg)
        × (c'.ctrl.override ≡ mode)
        × (c'.ctrl.override_until ≡ expiry x.now req.hours)
  unfolding handle_api_override put_setting serve set_override
  posted c d e = rw e (refl, refl, refl)

  -- When a posted override is in force.
  pub handle_api_override-in_force :
      (later : Time) (c : Controller W) (d : D) (snap : Snapshot W)
      → parse_override req.mode ≡ some mode
      → let c' = (handle_api_override texts x clock (some req) c d).0 in
        override_active later (inputs_from_snapshot later snap c'.cfg c'.ctrl)
        ≡ (not (eq_override mode auto) && still_in_force x.now req.hours later)
  unfolding inputs_from_snapshot
  handle_api_override-in_force later c d snap e =
      let c' = (handle_api_override texts x clock (some req) c d).0 in
      let (same, set, until) = posted c d e in
      override_active_lem later (inputs_from_snapshot later snap c'.cfg c'.ctrl)
      ∙ rw (set, until)
          (ap (λ b. not (eq_override mode auto) && b) (expiry-still_in_force x.now req.hours later))

  -- After a post of the override "on" or "off", a decision on data that is not stale, at any time
  -- when it is in force, commands "off", or for "on" the charge power that is set.
  pub handle_api_override-obeyed :
      (later : Time) (c : Controller W) (d : D) (snap : Snapshot W) (st : State) (tm : Timers)
      → parse_override req.mode ≡ some mode
      → mode ≢ auto
      → is_stale later snap c.cfg ≡ false
      → still_in_force x.now req.hours later ≡ true
      → let c' = (handle_api_override texts x clock (some req) c d).0 in
        let inp = inputs_from_snapshot later snap c'.cfg c'.ctrl in
        (decide later inp st tm c'.cfg).desired_mode ≡ commanded mode (effective_mode inp c'.cfg)
  unfolding inputs_from_snapshot
  handle_api_override-obeyed later c d snap st tm e h live lasts =
      let c' = (handle_api_override texts x clock (some req) c d).0 in
      let inp = inputs_from_snapshot later snap c'.cfg c'.ctrl in
      let (same, set, until) = posted c d e in
      decide-forced later inp st tm c'.cfg
        (ap (λ (k : Control W). is_stale later snap k) same ∙ live)
        (handle_api_override-in_force later c d snap e ∙ rw (lasts, set_apart mode h)) mode set h
