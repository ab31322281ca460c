-- ===== src/App/Started.antt =====
-- app.go, main.go, controller.go: what the program as a whole sends to evcc.
use wallbox_homeautomation_g.Base.{String, subst, ◌≡◌}
use wallbox_homeautomation_g.App.{run_app, start_app}
use wallbox_homeautomation_g.Config.{Config, Control}
use wallbox_homeautomation_g.Config.Load.{Viper, load_config}
use wallbox_homeautomation_g.Config.Load.Accepted.{load_config-IsValid}
use wallbox_homeautomation_g.Config.Valid.{IsValid}
use wallbox_homeautomation_g.Controller.Loop.{Plan, act}
use wallbox_homeautomation_g.Controller.Loop.Struct.{Controller}
use wallbox_homeautomation_g.Controller.Recorder.{Commander, Recorder}
use wallbox_homeautomation_g.Controller.System.{Reachable, System, boot, committed, step, ◌⇒◌}
use wallbox_homeautomation_g.Controller.System.Commands.{AllCommands, Reachable-AllCommands}
use wallbox_homeautomation_g.Go.Float.{Float}
use wallbox_homeautomation_g.Go.Result.{Result, bind-ok, ok}
use wallbox_homeautomation_g.Go.Time.{Time}

module _ {ℓ κ} {W : Type ℓ} {D : Type κ} ⦃f : Float W⦄ ⦃r : Recorder W D⦄ where
  -- some steps of the loop, the setters and the janitor
  infix 40 ◌⇒*◌
  pub data ◌⇒*◌ : System W D → System W D → Type (ℓ ⊔ κ) where
    at_once : {s : System W D} → s ⇒* s
    after : {s t u : System W D} → s ⇒* t → t ⇒ u → s ⇒* u

  steps-Reachable :
      (cfg : Control W) (Start : D → Type 0) (s t : System W D)
      → s ⇒* t
      → Reachable cfg Start s
      → Reachable cfg Start t
  steps-Reachable cfg Start s t at_once h = h
  steps-Reachable cfg Start s u (after {t = t} k e) h = step (steps-Reachable cfg Start s t k h) e

module _ {ℓ κ μ} {V : Type ℓ} {W : Type κ} {D : Type μ} ⦃f : Float W⦄ ⦃r : Recorder W D⦄ where
  -- The program as it starts has a valid configuration, and is at the start of its controller.
  start_app-Reachable :
      (viper : Viper V W) (path : String) (open_store : String → Result D) (now : Time)
      (s : System W D)
      → start_app viper path open_store now ≡ ok s
      → (cfg : Config W) × IsValid cfg × Reachable cfg.control (λ d. Unit) s
  unfolding start_app run_app
  start_app-Reachable viper path open_store now s h =
      let (cfg, loaded, h₁) = bind-ok (load_config viper path) _ s h in
      let (d, opened, h₂) = bind-ok (open_store cfg.db.path) _ s h₁ in
      (
        cfg,
        load_config-IsValid viper path cfg loaded,
        subst (λ (t : System W D). Reachable cfg.control (λ d. Unit) t) (cc) (boot now d tt),
      )

  -- Whatever the configuration file, the environment, the database, evcc and the web's requests say:
  -- every command that the program publishes after it has started, in any interleaving of its ticks,
  -- setters and the janitor, sets the mode "off", "pv" or "now", or a limit from 1 to 100 percent.
  pub start_app-AllCommands :
      (viper : Viper V W) (path : String) (open_store : String → Result D) (now : Time)
      (s : System W D) (p : Plan W) (c : Controller W) (d : D) (answers : Commander)
      → start_app viper path open_store now ≡ ok s
      → s ⇒* record { control = c; database = d; phase = committed p }
      → AllCommands (act answers p c d).2
  start_app-AllCommands viper path open_store now s p c d answers h k =
      let (cfg, valid, begun) = start_app-Reachable viper path open_store now s h in
      Reachable-AllCommands cfg.control (λ d. Unit) p c d answers valid.control
        (steps-Reachable cfg.control (λ d. Unit) s
          (record { control = c; database = d; phase = committed p }) k begun)
