-- ===== src/Controller/System.antt =====
-- internal/controller/controller.go: the controller as it runs, with the loop of `Run` interleaved
-- with the web layer's setters and the janitor. A tick takes three steps, since the lock is free
-- between its two locked sections and after them; a setter is one step.
pub mod Sound
pub mod Commands
pub mod Told
pub mod Persist
pub mod Restart
pub mod Overlap
pub mod Thresholds
pub mod Sessions
pub mod Rows
mod Tests
use wallbox_homeautomation_g.Base.{Bool, Option, String, none}
use wallbox_homeautomation_g.Base.Int.{ℤ}
use wallbox_homeautomation_g.Config.{Control}
use wallbox_homeautomation_g.Controller.Loop.{Plan, act, commit, plan}
use wallbox_homeautomation_g.Controller.Loop.Struct.{Controller, new}
use wallbox_homeautomation_g.Controller.Recorder.{Commander, Recorder}
use wallbox_homeautomation_g.Controller.Settings.{
  Refusal, set_auto_profile, set_charge_power, set_override, set_start_threshold, set_target_soc,
}
use wallbox_homeautomation_g.Controller.Settings.Startup.{prune, start_up}
use wallbox_homeautomation_g.Controller.State.{Override}
use wallbox_homeautomation_g.Evcc.Store.{Snapshot}
use wallbox_homeautomation_g.Go.Float.{Float}
use wallbox_homeautomation_g.Go.Time.{Time}

-- How far the tick in progress has come.
pub data Phase {ℓ} (W : Type ℓ) : Type ℓ where
  waiting : Phase W
  planned committed : Plan W → Phase W

pub record System {ℓ κ} (W : Type ℓ) (D : Type κ) : Type (ℓ ⊔ κ) where
  pub control : Controller W
  pub database : D
  pub phase : Phase W

-- The call of a setter.
pub data Request {ℓ} (W : Type ℓ) : Type ℓ where
  ask_override : Override → Time → Bool → ℤ → Request W
  ask_power ask_profile : String → Request W
  ask_threshold : W → Request W
  ask_target : ℤ → Request W

module _ {ℓ κ} {W : Type ℓ} {D : Type κ} ⦃f : Float W⦄ ⦃r : Recorder W D⦄ where
  unfoldable pub serve : Time → Request W → Controller W → D → Controller W × D × Option Refusal
  serve now (ask_override mode until bypass soc) c d =
      let (c', d') = set_override now mode until bypass soc c d in (c', d', none)
  serve now (ask_power mode) c d = set_charge_power now mode c d
  serve now (ask_profile name) c d = set_auto_profile now name c d
  serve now (ask_threshold w) c d = set_start_threshold now w c d
  serve now (ask_target pct) c d = set_target_soc now pct c d

  infix 40 ◌⇒◌
  pub data ◌⇒◌ : System W D → System W D → Type (ℓ ⊔ κ) where
    prepare :
        (now : Time) (snap : Snapshot W) (c : Controller W) (d : D)
        → record { control = c; database = d; phase = waiting }
          ⇒ record { control = c; database = d; phase = planned (plan now snap c) }
    settle :
        (p : Plan W) (c : Controller W) (d : D)
        → record { control = c; database = d; phase = planned p }
          ⇒ record { control = commit p c; database = d; phase = committed p }
    finish :
        (answers : Commander) (p : Plan W) (c : Controller W) (d : D)
        → record { control = c; database = d; phase = committed p } ⇒ record {
          control = (act answers p c d).0;
          database = (act answers p c d).1;
          phase = waiting;
        }
    request :
        (now : Time) (q : Request W) (s : System W D)
        → s ⇒ record s {
          control = (serve now q s.control s.database).0;
          database = (serve now q s.control s.database).1;
        }
    sweep :
        (now : Time) (s : System W D) → s ⇒ record s { database = prune now s.control s.database }

  -- the system when the loop of `Run` begins
  unfoldable pub booted : Control W → Time → D → System W D
  booted cfg now d =
      let (c, d₁) = start_up now (new cfg) d in
      record { control = c; database = d₁; phase = waiting }

  -- from a database that satisfies Start
  pub data Reachable (cfg : Control W) (Start : D → Type 0) : System W D → Type (ℓ ⊔ κ) where
    boot : (now : Time) (d : D) → Start d → Reachable cfg Start (booted cfg now d)
    step : {s t : System W D} → Reachable cfg Start s → s ⇒ t → Reachable cfg Start t
