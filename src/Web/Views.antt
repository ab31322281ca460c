-- ===== src/Web/Views.antt =====
-- internal/web/dto.go: the view models of the pages and of the JSON API. `rfc3339` is the formatting
-- of a time in UTC.
pub mod Coherent
use wallbox_homeautomation_g.Base.{
  Bool, List, Option, String, false, if◌then◌else◌, map, none, not, some, true, ◌==◌,
}
use wallbox_homeautomation_g.Base.Int.{lt_ℤ, pos, ℤ, ◌+ℤ◌}
use wallbox_homeautomation_g.Config.{
  auto_profile_power_latch, auto_profile_surplus, auto_profile_surplus_latch, enable_mode_now,
}
use wallbox_homeautomation_g.Controller.Settings.Status.{StatusView}
use wallbox_homeautomation_g.Controller.State.{
  auto, eq_override, override_name, reason_code_name, state_name,
}
use wallbox_homeautomation_g.Go.Float.{Float, hours, minutes, seconds}
use wallbox_homeautomation_g.Go.Strconv.{itoa}
use wallbox_homeautomation_g.Go.Strings.{◌+s◌}
use wallbox_homeautomation_g.Go.Time.{Duration, Time, hour, is_zero, minute, since}
use wallbox_homeautomation_g.Store.{Session}
use wallbox_homeautomation_g.Updater.{Info}

pub record StatusVm : Type 0 where
  pub state : String
  pub reason : String
  pub reason_code : String
  pub desired_mode : String
  pub override : String
  pub override_until : String
  pub override_active : Bool
  pub cap_bypass : Bool
  pub cap_bypass_soc : ℤ
  pub cap_bypass_target : ℤ
  pub charge_power : String
  pub charge_power_now : Bool
  pub auto_profile : String
  pub auto_profile_power_latch : Bool
  pub auto_profile_surplus_latch : Bool
  pub auto_profile_is_latch : Bool
  pub start_threshold_w : ℤ
  pub target_soc : ℤ
  pub soc_cap : ℤ
  pub soc_max : ℤ
  pub soc_cap_plus_one : ℤ
  pub surplus_w : ℤ
  pub surplus_kw : String
  pub grid_w : ℤ
  pub pv_w : ℤ
  pub home_w : ℤ
  pub battery_w : ℤ
  pub charge_w : ℤ
  pub grid_kw : String
  pub pv_kw : String
  pub home_kw : String
  pub battery_kw : String
  pub charge_kw : String
  pub battery_soc : ℤ
  pub vehicle_soc : ℤ
  pub is_charging : Bool
  pub is_connected : Bool
  pub ready : Bool
  pub stale : Bool
  pub is_online : Bool
  pub broker_connected : Bool
  pub updated_at : String
  pub updated_ago : String
  pub has_updated : Bool

pub record UpdateVm : Type 0 where
  pub enabled : Bool
  pub current : String
  pub latest : String
  pub update_available : Bool
  pub checked : Bool
  pub checked_ago : String
  pub state : String
  pub message : String
  pub target_version : String
  pub applying : Bool
  pub done : Bool
  pub failed : Bool

pub record SessionVm : Type 0 where
  pub id : ℤ
  pub started_at : String
  pub ended_at : String
  pub is_running : Bool
  pub start_reason : String
  pub stop_reason : String
  pub start_vehicle_soc : Option ℤ
  pub end_vehicle_soc : Option ℤ
  pub energy_wh : ℤ
  pub energy_kwh : String
  pub avg_charge_w : ℤ
  pub peak_charge_w : ℤ

module _ {ℓ} {W : Type ℓ} ⦃f : Float W⦄ where
  unfoldable pub watts : W → ℤ
  watts v = f.round v

  unfoldable pub kw : W → String
  kw v = f.format_fixed 1 (f.div v (f.of_int (pos 1000)))

  unfoldable pub cap_bypass_target : StatusView W → ℤ
  cap_bypass_target v = if lt_ℤ (pos 0) v.cap_bypass_soc then v.cap_bypass_soc else v.soc_max

-- "%d" of a whole number and its unit
abbrev amount : ℤ → String → String
amount n unit = itoa n +s unit

module _ {ℓ} (W : Type ℓ) ⦃f : Float W⦄ where
  unfoldable pub humanize_ago : Duration → String
  humanize_ago given =
      let d : ℤ = if lt_ℤ given (pos 0) then pos 0 else given in
      if lt_ℤ d (pos minute)
      then amount (f.trunc (seconds d)) "s"
      else if lt_ℤ d (pos hour)
      then amount (f.trunc (minutes d)) "m"
      else amount (f.trunc (hours d)) "h"

module _ (rfc3339 : Time → String) where
  -- a time that may be missing
  abbrev stamp : Time → String
  stamp t = if is_zero t then "" else rfc3339 t

  module _ {ℓ} {W : Type ℓ} ⦃f : Float W⦄ where
    unfoldable pub new_status_vm : Time → StatusView W → StatusVm
    new_status_vm now v = record {
      state = state_name v.state;
      reason = v.reason;
      reason_code = reason_code_name v.reason_code;
      desired_mode = v.desired_mode;
      override = override_name v.override;
      override_until = stamp v.override_until;
      override_active = not (eq_override v.override auto);
      cap_bypass = v.cap_bypass;
      cap_bypass_soc = v.cap_bypass_soc;
      cap_bypass_target = cap_bypass_target v;
      charge_power = v.charge_power;
      charge_power_now = v.charge_power == enable_mode_now;
      auto_profile = v.auto_profile;
      auto_profile_power_latch = v.auto_profile == auto_profile_power_latch;
      auto_profile_surplus_latch = v.auto_profile == auto_profile_surplus_latch;
      auto_profile_is_latch = not (v.auto_profile == auto_profile_surplus);
      start_threshold_w = watts v.start_threshold_w;
      target_soc = v.target_soc;
      soc_cap = v.soc_cap;
      soc_max = v.soc_max;
      soc_cap_plus_one = v.soc_cap +ℤ pos 1;
      surplus_w = watts v.surplus_w;
      surplus_kw = kw v.surplus_w;
      grid_w = watts v.inputs.grid_w;
      pv_w = watts v.inputs.pv_w;
      home_w = watts v.inputs.home_w;
      battery_w = watts v.inputs.battery_w;
      charge_w = watts v.inputs.charge_w;
      grid_kw = kw v.inputs.grid_w;
      pv_kw = kw v.inputs.pv_w;
      home_kw = kw v.inputs.home_w;
      battery_kw = kw v.inputs.battery_w;
      charge_kw = kw v.inputs.charge_w;
      battery_soc = v.inputs.battery_soc;
      vehicle_soc = v.inputs.vehicle_soc;
      is_charging = v.inputs.is_charging;
      is_connected = v.inputs.is_connected;
      ready = v.inputs.ready;
      stale = v.inputs.stale;
      is_online = v.snapshot.online.value;
      broker_connected = v.snapshot.broker_connected;
      updated_at = stamp v.updated_at;
      updated_ago = if is_zero v.updated_at then "" else humanize_ago W (since now v.updated_at);
      has_updated = not (is_zero v.updated_at);
    }

    unfoldable pub new_session_vm : Session W → SessionVm
    new_session_vm s = record {
      id = s.id;
      started_at = rfc3339 s.started_at;
      ended_at = elim s.ended_at [ none ↦ "" | some t ↦ rfc3339 t ];
      is_running = elim s.ended_at [ none ↦ true | some t ↦ false ];
      start_reason = s.start_reason;
      stop_reason = s.stop_reason;
      start_vehicle_soc = s.start_vehicle_soc;
      end_vehicle_soc = s.end_vehicle_soc;
      energy_wh = f.round s.energy_wh;
      energy_kwh = f.format_fixed 2 (f.div s.energy_wh (f.of_int (pos 1000)));
      avg_charge_w = watts s.avg_charge_w;
      peak_charge_w = watts s.peak_charge_w;
    }

    unfoldable pub new_session_vms : List (Session W) → List SessionVm
    new_session_vms ss = map new_session_vm ss

module _ {ℓ} (W : Type ℓ) ⦃f : Float W⦄ where
  unfoldable pub new_update_vm : Time → Info → UpdateVm
  new_update_vm now i = record {
    enabled = i.enabled;
    current = i.current;
    latest = i.latest;
    update_available = i.update_available;
    checked = not (is_zero i.checked_at);
    checked_ago = if is_zero i.checked_at then "" else humanize_ago W (since now i.checked_at);
    state = i.state;
    message = i.message;
    target_version = i.target_version;
    applying = i.state == "applying";
    done = i.state == "done";
    failed = i.state == "failed";
  }
