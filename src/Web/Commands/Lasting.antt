-- ===== src/Web/Commands/Lasting.antt =====
-- handlers.go and controller.go: a posted override over the ticks of the loop that follow it.
use wallbox_homeautomation_g.Base.{
  Bool-absurd, List, [], false, inl, inr, refl, some, true, ◌∙◌, ◌∷◌, ◌≡◌, ◌≢◌,
}
use wallbox_homeautomation_g.Controller.Inputs.{is_stale}
use wallbox_homeautomation_g.Controller.Loop.{commit, plan, tick}
use wallbox_homeautomation_g.Controller.Loop.Frame.{act-frame}
use wallbox_homeautomation_g.Controller.Loop.Race.{commit_keeps_in_force, in_force}
use wallbox_homeautomation_g.Controller.Loop.Struct.{Controller, no_inputs}
use wallbox_homeautomation_g.Controller.Policy.{effective_mode}
use wallbox_homeautomation_g.Controller.Recorder.{Commander, Recorder}
use wallbox_homeautomation_g.Controller.State.{Override, auto}
use wallbox_homeautomation_g.Evcc.Store.{Snapshot}
use wallbox_homeautomation_g.Go.Float.{Float}
use wallbox_homeautomation_g.Go.Time.{Time}
use wallbox_homeautomation_g.Web.Commands.{
  OverrideBody, expiry, handle_api_override, parse_override,
}
use wallbox_homeautomation_g.Web.Commands.Force.{
  commanded, expiry-still_in_force, handle_api_override-obeyed, override_active_lem, posted,
  set_apart, still_in_force,
}
use wallbox_homeautomation_g.Web.Examples.{texts}
use wallbox_homeautomation_g.Web.Pages.{Texts}
use wallbox_homeautomation_g.Web.Reply.{Context}

-- What a tick is given: the answers to its publishes, the time and the snapshot.
pub record Look {ℓ} (W : Type ℓ) : Type ℓ where
  pub answers : Commander
  pub now : Time
  pub snap : Snapshot W

module _ {ℓ} {W : Type ℓ} ⦃f : Float W⦄ where
  -- An override that was posted at `start` for some hours is in force at each of the ticks.
  abbrev pub AllForced : Time → W → List (Look W) → Type 0
  AllForced start lasts [] = Unit
  AllForced start lasts (t ∷ ts) =
      (still_in_force start lasts t.now ≡ true) × AllForced start lasts ts

  forced_lem :
      (start : Time) (lasts : W) (mode : Override) (now : Time) (c : Controller W)
      → mode ≢ auto
      → c.ctrl.override ≡ mode
      → c.ctrl.override_until ≡ expiry start lasts
      → still_in_force start lasts now ≡ true
      → in_force now c.ctrl ≡ true
  forced_lem start lasts mode now c h set until lasting =
      override_active_lem now (record (no_inputs {W = W}) {
        override = c.ctrl.override;
        override_until = c.ctrl.override_until;
      })
      ∙ rw (set, until, set_apart mode h) (expiry-still_in_force start lasts now ∙ lasting)

module _ {ℓ κ} {W : Type ℓ} {D : Type κ} ⦃f : Float W⦄ ⦃r : Recorder W D⦄ where
  unfoldable pub ticks : List (Look W) → Controller W → D → Controller W × D
  ticks [] c d = (c, d)
  ticks (t ∷ ts) c d = let (c', d', commands) = tick t.answers t.now t.snap c d in ticks ts c' d'

  -- A tick leaves the settings and the configuration alone while the override is in force.
  tick-kept :
      (answers : Commander) (now : Time) (snap : Snapshot W) (c : Controller W) (d : D)
      → in_force now c.ctrl ≡ true
      → let c' = (tick answers now snap c d).0 in (c'.cfg ≡ c.cfg) × (c'.ctrl ≡ c.ctrl)
  unfolding tick commit
  tick-kept answers now snap c d h =
      let p = plan now snap c in
      let frame = act-frame answers p (commit p c) d in
      elim (commit_keeps_in_force now snap c c) [
        | inl same ↦ (frame.0, frame.1 ∙ same)
        | inr (past, e) ↦ Bool-absurd h past
      ]

  ticks-kept :
      (start : Time) (lasts : W) (mode : Override) (ts : List (Look W)) (c : Controller W) (d : D)
      → mode ≢ auto
      → c.ctrl.override ≡ mode
      → c.ctrl.override_until ≡ expiry start lasts
      → AllForced start lasts ts
      → let c' = (ticks ts c d).0 in (c'.cfg ≡ c.cfg) × (c'.ctrl ≡ c.ctrl)
  unfolding ticks
  ticks-kept start lasts mode [] c d h set until a = (refl, refl)
  ticks-kept start lasts mode (t ∷ ts) c d h set until (now, a) =
      let (c', d', commands) = tick t.answers t.now t.snap c d in
      let (cfg, ctrl) =
        tick-kept t.answers t.now t.snap c d
          (forced_lem start lasts mode t.now c h set until now) in
      let (cfg', ctrl') = ticks-kept start lasts mode ts c' d' h (rw ctrl set) (rw ctrl until) a in
      (cfg' ∙ cfg, ctrl' ∙ ctrl)

  -- A posted override "on" or "off" is obeyed until it runs out, and for good if it has no hours:
  -- after any ticks of the loop while it is in force, the next tick, if the override is then in force
  -- and the data are not stale, decides for "off", or for "on" for the charge power that is set.
  pub handle_api_override-lasts :
      (texts : Texts) (x : Context) (clock : Time) (req : OverrideBody W) (mode : Override)
      (ts : List (Look W)) (later : Time) (snap : Snapshot W) (c : Controller W) (d : D)
      → parse_override req.mode ≡ some mode
      → mode ≢ auto
      → AllForced x.now req.hours ts
      → still_in_force x.now req.hours later ≡ true
      → is_stale later snap c.cfg ≡ false
      → let (c', d', reply) = handle_api_override texts x clock (some req) c d in
        let (c₁, d₁) = ticks ts c' d' in
        let p = plan later snap c₁ in
        p.decision.desired_mode ≡ commanded mode (effective_mode p.inputs c₁.cfg)
  unfolding plan
  handle_api_override-lasts texts x clock req mode ts later snap c d e h a lasting live =
      let (c', d', reply) = handle_api_override texts x clock (some req) c d in
      let (c₁, d₁) = ticks ts c' d' in
      let (same, set, until) = posted texts x clock req mode c d e in
      let (cfg, ctrl) = ticks-kept x.now req.hours mode ts c' d' h set until a in
      rw (cfg, ctrl)
        (handle_api_override-obeyed texts x clock req mode later c d snap c₁.state c₁.timers e h
          live lasting)
