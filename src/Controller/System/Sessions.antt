-- ===== src/Controller/System/Sessions.antt =====
-- The charge session of the running controller of controller.go, under every interleaving.
use wallbox_homeautomation_g.Base.{arith, sym, ◌∙◌}
use wallbox_homeautomation_g.Config.{Control}
use wallbox_homeautomation_g.Controller.Loop.{Plan, act, commit, forced, limit_stage, mode_stage}
use wallbox_homeautomation_g.Controller.Loop.Frame.{
  SameSession, limit_stage-frame, mode_stage-frame,
}
use wallbox_homeautomation_g.Controller.Loop.Session.Edges.{IsTracked, track_session-IsTracked}
use wallbox_homeautomation_g.Controller.Loop.Struct.{Controller, new}
use wallbox_homeautomation_g.Controller.Recorder.{Commander, Recorder}
use wallbox_homeautomation_g.Controller.Settings.{
  set_auto_profile, set_charge_power, set_override, set_start_threshold, set_target_soc,
}
use wallbox_homeautomation_g.Controller.Settings.Startup.{
  load_auto_profile, load_charge_power, load_start_threshold, load_start_thresholds,
  load_target_soc, load_target_socs, start_up,
}
use wallbox_homeautomation_g.Controller.System.{
  Reachable, Request, System, ask_override, ask_power, ask_profile, ask_target, ask_threshold, boot,
  booted, finish, prepare, request, serve, settle, step, sweep, ◌⇒◌,
}
use wallbox_homeautomation_g.Go.Float.{Float}
use wallbox_homeautomation_g.Go.Time.{Time}

module _ {ℓ} {W : Type ℓ} ⦃f : Float W⦄ where
  pub IsTracked-same : (a b : Controller W) → SameSession a b → IsTracked a → IsTracked b
  IsTracked-same a b h k e = h.1 ∙ k (sym h.0 ∙ e)

module _ {ℓ κ} {W : Type ℓ} {D : Type κ} ⦃f : Float W⦄ ⦃r : Recorder W D⦄ where
  act-IsTracked :
      (answers : Commander) (p : Plan W) (c : Controller W) (d : D)
      → IsTracked c
      → IsTracked (act answers p c d).0
  unfolding act
  act-IsTracked answers p c d h =
      let x = mode_stage answers p c d in
      let y = limit_stage answers p (forced p c) x.0 x.1 in
      track_session-IsTracked p.now p.inputs p.decision.state y.0 y.1 (
        IsTracked-same x.0 y.0 (limit_stage-frame answers p (forced p c) x.0 x.1).1
          (IsTracked-same c x.0 (mode_stage-frame answers p c d).1 h))

  pub serve-session :
      (now : Time) (q : Request W) (c : Controller W) (d : D) → SameSession c (serve now q c d).0
  unfolding serve set_override set_charge_power set_auto_profile set_start_threshold set_target_soc
  serve-session now (ask_override mode until bypass soc) c d = ground arith
  serve-session now (ask_power mode) c d = ground arith
  serve-session now (ask_profile name) c d = ground arith
  serve-session now (ask_threshold w) c d = ground arith
  serve-session now (ask_target pct) c d = ground arith

  booted-IsTracked : (cfg : Control W) (now : Time) (d : D) → IsTracked (booted cfg now d).control
  unfolding booted start_up new load_charge_power load_auto_profile load_start_thresholds
      load_start_threshold load_target_socs load_target_soc
  booted-IsTracked cfg now d h = ground arith

  step-IsTracked : (s t : System W D) → s ⇒ t → IsTracked s.control → IsTracked t.control
  unfolding commit
  step-IsTracked s t (prepare now snap c d) h = h
  step-IsTracked s t (settle p c d) h = h
  step-IsTracked s t (finish answers p c d) h = act-IsTracked answers p c d h
  step-IsTracked s t (request now q _) h =
      IsTracked-same s.control t.control (serve-session now q s.control s.database) h
  step-IsTracked s t (sweep now _) h = h

  -- In every reachable state a session is open only if evcc was charging at the last tick.
  pub Reachable-IsTracked :
      (cfg : Control W) (Start : D → Type 0) (s : System W D)
      → Reachable cfg Start s
      → IsTracked s.control
  Reachable-IsTracked cfg Start s (boot now d _) = booted-IsTracked cfg now d
  Reachable-IsTracked cfg Start _ (step {s} {t} h e) =
      step-IsTracked s t e (Reachable-IsTracked cfg Start s h)
