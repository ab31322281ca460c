-- ===== src/Evcc/Topics.antt =====
-- internal/evcc/topics.go. The topics that are read carry the metric that they report, so that the
-- laws can range over them.
pub mod Distinct
use wallbox_homeautomation_g.Base.{List, String, [], ◌∷◌}
use wallbox_homeautomation_g.Go.Strings.{◌+s◌}

pub record Topics : Type 0 where
  pub grid_power : String
  pub pv_power : String
  pub home_power : String
  pub battery_soc : String
  pub battery_power : String
  pub status : String
  pub charge_power : String
  pub charging : String
  pub connected : String
  pub enabled : String
  pub vehicle_soc : String
  pub mode : String
  pub limit_soc : String
  pub mode_set : String
  pub limit_soc_set : String

unfoldable pub new_topics : String → String → Topics
new_topics prefix loadpoint_id =
    let lp = prefix +s "/loadpoints/" +s loadpoint_id in
    record {
      grid_power = prefix +s "/site/grid/power";
      pv_power = prefix +s "/site/pvPower";
      home_power = prefix +s "/site/homePower";
      battery_soc = prefix +s "/site/battery/soc";
      battery_power = prefix +s "/site/battery/power";
      status = prefix +s "/status";
      charge_power = lp +s "/chargePower";
      charging = lp +s "/charging";
      connected = lp +s "/connected";
      enabled = lp +s "/enabled";
      vehicle_soc = lp +s "/vehicleSoc";
      mode = lp +s "/mode";
      limit_soc = lp +s "/limitSoc";
      mode_set = lp +s "/mode/set";
      limit_soc_set = lp +s "/limitSoc/set";
    }

unfoldable pub read_subscriptions : Topics → List String
read_subscriptions t =
    t.grid_power ∷ t.pv_power ∷ t.home_power ∷ t.battery_soc ∷ t.battery_power ∷ t.status
    ∷ t.charge_power ∷ t.charging ∷ t.connected ∷ t.enabled ∷ t.vehicle_soc ∷ t.mode ∷ t.limit_soc
    ∷ []
