-- ===== src/Controller/Examples.antt =====
-- Concrete inputs, snapshots and a database, over whole watts, for the runs of the tests.
use wallbox_homeautomation_g.Base.{arith, inl, refl, true}
use wallbox_homeautomation_g.Base.Int.{le_ℤ, negsuc, pos, ℤ}
use wallbox_homeautomation_g.Config.{Control, auto_profile_surplus, default_control, enable_mode_pv}
use wallbox_homeautomation_g.Config.Valid.{IsValidControl}
use wallbox_homeautomation_g.Controller.Loop.Struct.{no_inputs}
use wallbox_homeautomation_g.Controller.State.{Inputs, force_on}
use wallbox_homeautomation_g.Go.Float.{whole}
use wallbox_homeautomation_g.Go.Time.{Time}

-- the default configuration, in whole watts
abbrev pub default_cfg : Control ℤ
default_cfg = default_control

abbrev pub at_noon : Time
at_noon = pos 1_000_000_000_000

abbrev pub after_noon : Time
after_noon = pos 1_240_000_000_000

-- 2 kW go to the grid, a connected vehicle is at 50 percent, and it does not charge yet.
abbrev pub sunny : Inputs ℤ
sunny = record (no_inputs) {
  grid_w = negsuc 1999;
  vehicle_soc = pos 50;
  vehicle_soc_known = true;
  is_connected = true;
  ready = true;
  charge_power = enable_mode_pv;
  auto_profile = auto_profile_surplus;
}

-- 1 kW comes from the grid.
abbrev pub cloudy : Inputs ℤ
cloudy = record sunny { grid_w = pos 1000 }

abbrev pub full_vehicle : Inputs ℤ
full_vehicle = record sunny { vehicle_soc = pos 80 }

abbrev pub nearly_full : Inputs ℤ
nearly_full = record sunny { vehicle_soc = pos 79 }

abbrev pub forced_on : Inputs ℤ
forced_on = record sunny {
  override = force_on;
  override_cap_bypass = true;
  override_cap_bypass_soc = pos 90;
}

pub default-IsValidControl : IsValidControl default_cfg
unfolding le_ℤ
default-IsValidControl = record {
  mode = inl refl;
  profile = inl refl;
  thresholds = refl;
  cap_from = omega arith;
  cap_to = omega arith;
  resume = omega arith;
  max_from = omega arith;
  max_to = omega arith;
  durations = record {
    interval = omega arith;
    stale = omega arith;
    republish = omega arith;
    window = omega arith;
    pruned = λ h. omega arith;
    start_dwell = omega arith;
    stop_dwell = omega arith;
  };
}
