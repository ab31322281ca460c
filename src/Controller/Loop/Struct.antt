-- ===== src/Controller/Loop/Struct.antt =====
-- controller.go: the struct `Controller`, without its collaborators, and `New`.
use wallbox_homeautomation_g.Base.{Bool, String, [], false, not, true}
use wallbox_homeautomation_g.Base.Int.{pos, ℤ}
use wallbox_homeautomation_g.Config.{Control}
use wallbox_homeautomation_g.Controller.Policy.{reset_timers}
use wallbox_homeautomation_g.Controller.State.{
  ControlState, Decision, Inputs, State, Timers, auto, awaiting_data, idle,
}
use wallbox_homeautomation_g.Evcc.Store.{Snapshot, empty}
use wallbox_homeautomation_g.Go.Float.{Float, nought}
use wallbox_homeautomation_g.Go.Time.{Time, zero_time}

pub record Controller {ℓ} (W : Type ℓ) : Type ℓ where
  pub cfg : Control W
  pub state : State
  pub timers : Timers
  pub ctrl : ControlState W
  pub last_inputs : Inputs W
  pub last_decision : Decision
  pub last_surplus : W
  pub last_snapshot : Snapshot W
  pub last_tick_at : Time
  pub last_mode : String
  pub last_publish_at : Time
  pub limit_soc_set : Bool
  pub last_limit_soc : ℤ
  pub last_limit_publish_at : Time
  pub prev_broker_connected : Bool
  pub prev_online : Bool
  pub prev_charging : Bool
  pub session_id : ℤ
  pub session_peak_w : W
  pub session_en_wh : W
  pub session_sum_w : W
  pub session_ticks : ℤ

unfoldable pub eq_bool : Bool → Bool → Bool
eq_bool true b = b
eq_bool false b = not b

-- the zero Decision; its state and code are zero strings there, shown before the first tick only
abbrev pub no_decision : Decision
no_decision = record {
  state = idle;
  timers = reset_timers;
  desired_mode = "";
  reason = "";
  reason_code = awaiting_data;
}

module _ {ℓ} {W : Type ℓ} ⦃f : Float W⦄ where
  -- the zero Inputs; the override is the zero string there, which no decision reads
  abbrev pub no_inputs : Inputs W
  no_inputs = record {
    grid_w = nought;
    pv_w = nought;
    home_w = nought;
    battery_w = nought;
    charge_w = nought;
    battery_soc = pos 0;
    vehicle_soc = pos 0;
    vehicle_soc_known = false;
    is_charging = false;
    is_connected = false;
    ready = false;
    stale = false;
    override = auto;
    override_until = zero_time;
    override_cap_bypass = false;
    override_cap_bypass_soc = pos 0;
    charge_power = "";
    auto_profile = "";
    start_threshold_w = nought;
    target_soc = pos 0;
  }

  unfoldable pub new : Control W → Controller W
  new cfg = record {
    cfg = cfg;
    state = idle;
    timers = reset_timers;
    ctrl = record {
      override = auto;
      override_until = zero_time;
      cap_bypass = false;
      cap_bypass_soc = pos 0;
      charge_power = cfg.enable_mode;
      auto_profile = cfg.auto_profile;
      start_threshold_w = [];
      target_soc = [];
    };
    last_inputs = no_inputs;
    last_decision = no_decision;
    last_surplus = nought;
    last_snapshot = empty;
    last_tick_at = zero_time;
    last_mode = "";
    last_publish_at = zero_time;
    limit_soc_set = false;
    last_limit_soc = pos 0;
    last_limit_publish_at = zero_time;
    prev_broker_connected = false;
    prev_online = false;
    prev_charging = false;
    session_id = pos 0;
    session_peak_w = nought;
    session_en_wh = nought;
    session_sum_w = nought;
    session_ticks = pos 0;
  }
