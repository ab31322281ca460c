-- ===== src/Controller/System/Sound.antt =====
-- The settings of the running controller of controller.go, under every interleaving.
use wallbox_homeautomation_g.Base.{arith, ◌∙◌, ◌≡◌}
use wallbox_homeautomation_g.Config.{Control}
use wallbox_homeautomation_g.Config.Valid.{IsValidControl}
use wallbox_homeautomation_g.Controller.Loop.{commit}
use wallbox_homeautomation_g.Controller.Loop.Frame.{act-frame}
use wallbox_homeautomation_g.Controller.Loop.Struct.{Controller, new}
use wallbox_homeautomation_g.Controller.Recorder.{Recorder}
use wallbox_homeautomation_g.Controller.Settings.{
  set_auto_profile, set_charge_power, set_override, set_start_threshold, set_target_soc,
}
use wallbox_homeautomation_g.Controller.Settings.Valid.{
  IsSound, act-IsSound, commit-IsSound, new-IsSound, set_auto_profile-IsSound,
  set_charge_power-IsSound, set_override-IsSound, set_start_threshold-IsSound,
  set_target_soc-IsSound, start_up-IsSound, start_up-cfg,
}
use wallbox_homeautomation_g.Controller.System.{
  Reachable, Request, System, ask_override, ask_power, ask_profile, ask_target, ask_threshold, boot,
  booted, finish, prepare, request, serve, settle, step, sweep, ◌⇒◌,
}
use wallbox_homeautomation_g.Go.Float.{Float}
use wallbox_homeautomation_g.Go.Time.{Time}

module _ {ℓ} {W : Type ℓ} ⦃f : Float W⦄ where
  -- The configuration is the one given at the start, and the settings are within bounds.
  pub record IsSafe (cfg : Control W) (c : Controller W) : Type ℓ where
    pub fixed : c.cfg ≡ cfg
    pub sound : IsSound c

module _ {ℓ κ} {W : Type ℓ} {D : Type κ} ⦃f : Float W⦄ ⦃r : Recorder W D⦄ where
  pub serve-IsSound :
      (now : Time) (q : Request W) (c : Controller W) (d : D)
      → IsSound c
      → IsSound (serve now q c d).0
  unfolding serve
  serve-IsSound now (ask_override mode until bypass soc) c d h =
      set_override-IsSound now mode until bypass soc c d h
  serve-IsSound now (ask_power mode) c d h = set_charge_power-IsSound now mode c d h
  serve-IsSound now (ask_profile name) c d h = set_auto_profile-IsSound now name c d h
  serve-IsSound now (ask_threshold w) c d h = set_start_threshold-IsSound now w c d h
  serve-IsSound now (ask_target pct) c d h = set_target_soc-IsSound now pct c d h

  pub serve-cfg :
      (now : Time) (q : Request W) (c : Controller W) (d : D) → (serve now q c d).0.cfg ≡ c.cfg
  unfolding serve set_override set_charge_power set_auto_profile set_start_threshold set_target_soc
  serve-cfg now (ask_override mode until bypass soc) c d = ground arith
  serve-cfg now (ask_power mode) c d = ground arith
  serve-cfg now (ask_profile name) c d = ground arith
  serve-cfg now (ask_threshold w) c d = ground arith
  serve-cfg now (ask_target pct) c d = ground arith

  booted-IsSafe :
      (cfg : Control W) (now : Time) (d : D)
      → IsValidControl cfg
      → IsSafe cfg (booted cfg now d).control
  unfolding booted new
  booted-IsSafe cfg now d v = record {
    fixed = start_up-cfg now (new cfg) d;
    sound = start_up-IsSound now (new cfg) d (new-IsSound cfg v);
  }

  step-IsSafe :
      (cfg : Control W) (s t : System W D) → s ⇒ t → IsSafe cfg s.control → IsSafe cfg t.control
  unfolding commit
  step-IsSafe cfg s t (prepare now snap c d) h = h
  step-IsSafe cfg s t (settle p c d) h = record {
    fixed = h.fixed;
    sound = commit-IsSound p c h.sound;
  }
  step-IsSafe cfg s t (finish answers p c d) h = record {
    fixed = (act-frame answers p c d).0 ∙ h.fixed;
    sound = act-IsSound answers p c d h.sound;
  }
  step-IsSafe cfg s t (request now q _) h = record {
    fixed = serve-cfg now q s.control s.database ∙ h.fixed;
    sound = serve-IsSound now q s.control s.database h.sound;
  }
  step-IsSafe cfg s t (sweep now _) h = h

  -- For a valid configuration, in every reachable state, whatever the database holds or answers
  -- and however ticks, setters and the janitor interleave, the settings are within bounds.
  pub Reachable-IsSafe :
      (cfg : Control W) (Start : D → Type 0) (s : System W D)
      → IsValidControl cfg
      → Reachable cfg Start s
      → IsSafe cfg s.control
  Reachable-IsSafe cfg Start s v (boot now d _) = booted-IsSafe cfg now d v
  Reachable-IsSafe cfg Start t v (step {s} h e) =
      step-IsSafe cfg s t e (Reachable-IsSafe cfg Start s v h)
