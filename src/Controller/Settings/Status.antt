-- ===== src/Controller/Settings/Status.antt =====
-- controller.go: `StatusView` and `Status`, what the web layer sees of the controller.
use wallbox_homeautomation_g.Base.{Bool, String}
use wallbox_homeautomation_g.Base.Int.{ℤ}
use wallbox_homeautomation_g.Controller.Loop.Struct.{Controller, no_inputs}
use wallbox_homeautomation_g.Controller.Policy.{
  effective_profile, effective_start_threshold, effective_target_soc,
}
use wallbox_homeautomation_g.Controller.State.{Inputs, Override, ReasonCode, State, latch_overrides}
use wallbox_homeautomation_g.Evcc.Store.{Snapshot}
use wallbox_homeautomation_g.Go.Float.{Float}
use wallbox_homeautomation_g.Go.Time.{Time}

pub record StatusView {ℓ} (W : Type ℓ) : Type ℓ where
  pub state : State
  pub desired_mode : String
  pub reason : String
  pub reason_code : ReasonCode
  pub override : Override
  pub override_until : Time
  pub cap_bypass : Bool
  pub cap_bypass_soc : ℤ
  pub charge_power : String
  pub auto_profile : String
  pub start_threshold_w : W
  pub target_soc : ℤ
  pub soc_cap : ℤ
  pub soc_max : ℤ
  pub surplus_w : W
  pub inputs : Inputs W
  pub snapshot : Snapshot W
  pub updated_at : Time

module _ {ℓ} {W : Type ℓ} ⦃f : Float W⦄ where
  unfoldable pub view : Controller W → StatusView W
  view c =
      let (threshold_w, target_soc) = latch_overrides c.ctrl c.cfg in
      let eff = record (no_inputs) {
        auto_profile = c.ctrl.auto_profile;
        start_threshold_w = threshold_w;
        target_soc = target_soc;
      } in
      record {
        state = c.state;
        desired_mode = c.last_decision.desired_mode;
        reason = c.last_decision.reason;
        reason_code = c.last_decision.reason_code;
        override = c.ctrl.override;
        override_until = c.ctrl.override_until;
        cap_bypass = c.ctrl.cap_bypass;
        cap_bypass_soc = c.ctrl.cap_bypass_soc;
        charge_power = c.ctrl.charge_power;
        auto_profile = effective_profile eff c.cfg;
        start_threshold_w = effective_start_threshold eff c.cfg;
        target_soc = effective_target_soc eff c.cfg;
        soc_cap = c.cfg.soc_cap;
        soc_max = c.cfg.soc_max;
        surplus_w = c.last_surplus;
        inputs = c.last_inputs;
        snapshot = c.last_snapshot;
        updated_at = c.last_tick_at;
      }
