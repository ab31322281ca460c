-- ===== src/App.antt =====
-- internal/app/app.go and cmd/wha/main.go: the start of the program, up to the control loop. What
-- `Open` makes of the path of the database is a parameter. The web server and the updater are built
-- beside the controller and act through its setters, and by themselves.
pub mod Started
mod Tests
use wallbox_homeautomation_g.Base.{String}
use wallbox_homeautomation_g.Config.{Config}
use wallbox_homeautomation_g.Config.Load.{Viper, load_config}
use wallbox_homeautomation_g.Controller.Recorder.{Recorder}
use wallbox_homeautomation_g.Controller.System.{System, booted}
use wallbox_homeautomation_g.Go.Float.{Float}
use wallbox_homeautomation_g.Go.Result.{Result, ok, ◌>>=◌, ◌>>◌}
use wallbox_homeautomation_g.Go.Time.{Time}

module _ {κ μ} {W : Type κ} {D : Type μ} ⦃f : Float W⦄ ⦃r : Recorder W D⦄ where
  -- `Run`, from a configuration
  unfoldable pub run_app : (String → Result D) → Time → Config W → Result (System W D)
  run_app open_store now cfg = do d ← open_store cfg.db.path; ok (booted cfg.control now d)

module _ {ℓ κ μ} {V : Type ℓ} {W : Type κ} {D : Type μ} ⦃f : Float W⦄ ⦃r : Recorder W D⦄ where
  -- `main`, with the value of WHA_CONFIG
  unfoldable pub start_app : Viper V W → String → (String → Result D) → Time → Result (System W D)
  start_app viper path open_store now = do cfg ← load_config viper path; run_app open_store now cfg
