-- ===== src/Controller/Inputs.antt =====
-- internal/controller/inputs.go: the inputs of a decision, out of a snapshot of evcc's values.
pub mod Trust
mod Tests
use wallbox_homeautomation_g.Base.{Bool, not, ◌&&◌, ◌||◌}
use wallbox_homeautomation_g.Base.Int.{le_ℤ}
use wallbox_homeautomation_g.Config.{Control}
use wallbox_homeautomation_g.Controller.State.{ControlState, Inputs, latch_overrides}
use wallbox_homeautomation_g.Evcc.Store.{FloatMetric, Snapshot}
use wallbox_homeautomation_g.Go.Float.{Float}
use wallbox_homeautomation_g.Go.Time.{Time, since}

module _ {ℓ} {W : Type ℓ} ⦃f : Float W⦄ where
  unfoldable pub is_fresh : Time → Control W → FloatMetric W → Bool
  is_fresh now cfg m = m.seen && le_ℤ (since now m.at) cfg.stale_timeout

  unfoldable pub is_ready : Snapshot W → Bool
  is_ready s = s.grid.seen && s.pv.seen && s.vehicle_soc.seen && s.connected.seen

  unfoldable pub is_stale : Time → Snapshot W → Control W → Bool
  is_stale now s cfg =
      not s.broker_connected
      || (s.online.seen && not s.online.value)
      || not (is_fresh now cfg s.grid)
      || not (is_fresh now cfg s.pv)

  unfoldable pub inputs_from_snapshot : Time → Snapshot W → Control W → ControlState W → Inputs W
  inputs_from_snapshot now s cfg ctrl =
      let (threshold_w, target_soc) = latch_overrides ctrl cfg in
      record {
        grid_w = s.grid.value;
        pv_w = s.pv.value;
        home_w = s.home.value;
        battery_w = s.battery_power.value;
        charge_w = s.charge_power.value;
        battery_soc = f.round s.battery_soc.value;
        vehicle_soc = f.round s.vehicle_soc.value;
        vehicle_soc_known = s.vehicle_soc.seen;
        is_charging = s.charging.value;
        is_connected = s.connected.value;
        ready = is_ready s;
        stale = is_stale now s cfg;
        override = ctrl.override;
        override_until = ctrl.override_until;
        override_cap_bypass = ctrl.cap_bypass;
        override_cap_bypass_soc = ctrl.cap_bypass_soc;
        charge_power = ctrl.charge_power;
        auto_profile = ctrl.auto_profile;
        start_threshold_w = threshold_w;
        target_soc = target_soc;
      }
