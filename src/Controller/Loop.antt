-- ===== src/Controller/Loop.antt =====
-- internal/controller/controller.go: the controller's state and one control tick. A tick reads the
-- shared state under the lock, decides, and commits under the lock again; then it works alone.
-- Every function returns the new controller, the new database state and the commands it sent.
pub mod Struct
pub mod Session
pub mod Publish
pub mod Frame
pub mod Follow
pub mod Race
mod Tests
use wallbox_homeautomation_g.Base.{Bool, List, false, if◌then◌else◌, not, ◌&&◌, ◌++◌, ◌||◌}
use wallbox_homeautomation_g.Base.Int.{pos, ℤ}
use wallbox_homeautomation_g.Controller.Inputs.{inputs_from_snapshot}
use wallbox_homeautomation_g.Controller.Loop.Publish.{
  blank_event, publish_limit_soc, publish_mode, record_event,
}
use wallbox_homeautomation_g.Controller.Loop.Session.{track_session}
use wallbox_homeautomation_g.Controller.Loop.Struct.{Controller, eq_bool}
use wallbox_homeautomation_g.Controller.Policy.{decide, limit_soc_target, override_active, surplus}
use wallbox_homeautomation_g.Controller.Recorder.{Command, Commander, Recorder}
use wallbox_homeautomation_g.Controller.State.{
  ControlState, Decision, Inputs, State, auto, charging, eq_override, eq_state, state_name,
}
use wallbox_homeautomation_g.Evcc.Store.{Snapshot}
use wallbox_homeautomation_g.Go.Float.{Float}
use wallbox_homeautomation_g.Go.Time.{Time, equal, zero_time}

-- What a tick computes between its two locked sections.
pub record Plan {ℓ} (W : Type ℓ) : Type ℓ where
  pub now : Time
  pub snap : Snapshot W
  pub ctrl : ControlState W
  pub prev_state : State
  pub inputs : Inputs W
  pub decision : Decision
  pub surplus_w : W
  pub limit_target : ℤ
  pub expire_override : Bool

module _ {ℓ} {W : Type ℓ} ⦃f : Float W⦄ where
  -- the first locked section, and the pure part that follows it
  unfoldable pub plan : Time → Snapshot W → Controller W → Plan W
  plan now snap c =
      let inp = inputs_from_snapshot now snap c.cfg c.ctrl in
      record {
        now = now;
        snap = snap;
        ctrl = c.ctrl;
        prev_state = c.state;
        inputs = inp;
        decision = decide now inp c.state c.timers c.cfg;
        surplus_w = surplus inp;
        limit_target = limit_soc_target now inp c.cfg;
        expire_override = not (eq_override c.ctrl.override auto) && not (override_active now inp);
      }

  unfoldable pub expire : Plan W → ControlState W → ControlState W
  expire p ctrl =
      if p.expire_override
        && eq_override ctrl.override p.ctrl.override
        && equal ctrl.override_until p.ctrl.override_until
        && eq_bool ctrl.cap_bypass p.ctrl.cap_bypass
      then record ctrl {
        override = auto;
        override_until = zero_time;
        cap_bypass = false;
        cap_bypass_soc = pos 0;
      }
      else ctrl

  -- the second locked section
  unfoldable pub commit : Plan W → Controller W → Controller W
  commit p c = record c {
    state = p.decision.state;
    timers = p.decision.timers;
    ctrl = expire p c.ctrl;
    last_inputs = p.inputs;
    last_decision = p.decision;
    last_surplus = p.surplus_w;
    last_snapshot = p.snap;
    last_tick_at = p.now;
  }

  -- the edges that force a publish, and their memory
  unfoldable pub forced : Plan W → Controller W → Bool
  forced p c =
      (p.snap.broker_connected && not c.prev_broker_connected)
      || (p.snap.online.value && not c.prev_online)

  unfoldable pub remember_link : Plan W → Controller W → Controller W
  remember_link p c = record c {
    prev_broker_connected = p.snap.broker_connected;
    prev_online = p.snap.online.value;
  }

  module _ {κ} {D : Type κ} ⦃r : Recorder W D⦄ where
    unfoldable pub record_state_change : Plan W → D → D
    record_state_change p d =
        if eq_state p.decision.state p.prev_state
        then d
        else record_event
            (record (blank_event p.now "state_change") {
              from_state = state_name p.prev_state;
              to_state = state_name p.decision.state;
              detail = p.decision.reason;
            })
            p.inputs p.surplus_w d

    unfoldable pub record_sample : Plan W → D → D
    record_sample p d =
        let inp = p.inputs in
        (r.insert_sample
          (record {
            ts = p.now;
            grid_w = inp.grid_w;
            pv_w = inp.pv_w;
            home_w = inp.home_w;
            battery_soc = inp.battery_soc;
            battery_w = inp.battery_w;
            charge_w = inp.charge_w;
            vehicle_soc = inp.vehicle_soc;
            charging = inp.is_charging;
            mode = p.decision.desired_mode;
            surplus_w = p.surplus_w;
            state = state_name p.decision.state;
          })
          d).0

    -- the loop-owned part, after the second locked section: up to `publishMode`, then
    -- `publishLimitSoC`, then the session and the sample
    unfoldable pub mode_stage :
        Commander → Plan W → Controller W → D → Controller W × D × List Command
    mode_stage answers p c d =
        publish_mode answers p.now p.decision p.inputs p.surplus_w (forced p c) (remember_link p c)
          (record_state_change p d)

    unfoldable pub limit_stage :
        Commander → Plan W → Bool → Controller W → D → Controller W × D × List Command
    limit_stage answers p force c d =
        publish_limit_soc answers p.now p.limit_target p.inputs p.surplus_w p.snap.broker_connected
          force c d

    unfoldable pub act : Commander → Plan W → Controller W → D → Controller W × D × List Command
    act answers p c d =
        let (c₂, d₂, sent₂) = mode_stage answers p c d in
        let (c₃, d₃, sent₃) = limit_stage answers p (forced p c) c₂ d₂ in
        let (c₄, d₄) = track_session p.now p.inputs p.decision.state c₃ d₃ in
        (c₄, record_sample p d₄, sent₂ ++ sent₃)

    unfoldable pub tick :
        Commander → Time → Snapshot W → Controller W → D → Controller W × D × List Command
    tick answers now snap c d = let p = plan now snap c in act answers p (commit p c) d
