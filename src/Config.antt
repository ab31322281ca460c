-- ===== src/Config.antt =====
-- internal/config/config.go: the configuration record, its defaults and its constants. A field of
-- type float64 is of a type W with the operations of Go.Float; durations are nanoseconds.
pub mod Validate
pub mod Valid
pub mod Load
mod Tests
use wallbox_homeautomation_g.Base.{Bool, String, false, ◌*◌}
use wallbox_homeautomation_g.Base.Int.{pos, ℤ}
use wallbox_homeautomation_g.Go.Float.{Float}
use wallbox_homeautomation_g.Go.Time.{Duration, hour, minute, second}

pub record Mqtt : Type 0 where
  pub broker : String
  pub client_id : String
  pub username : String
  pub password : String
  pub topic_prefix : String

pub record Evcc : Type 0 where
  pub loadpoint_id : String

pub record Control {ℓ} (W : Type ℓ) : Type ℓ where
  pub enable_mode : String
  pub auto_profile : String
  pub start_threshold_w : W
  pub stop_threshold_w : W
  pub start_dwell : Duration
  pub stop_dwell : Duration
  pub soc_cap : ℤ
  pub soc_resume_below : ℤ
  pub soc_max : ℤ
  pub decision_interval : Duration
  pub stale_timeout : Duration
  pub republish : Duration
  pub retention_window : Duration
  pub retention_interval : Duration

pub record Web : Type 0 where
  pub bind_addr : String
  pub port : ℤ
  pub ca_root_path : String

pub record Db : Type 0 where
  pub path : String

pub record Log : Type 0 where
  pub level : String

pub record Update : Type 0 where
  pub enabled : Bool
  pub repository : String
  pub request_dir : String
  pub check_ttl : Duration

pub record Config {ℓ} (W : Type ℓ) : Type ℓ where
  pub mqtt : Mqtt
  pub evcc : Evcc
  pub control : Control W
  pub web : Web
  pub db : Db
  pub log : Log
  pub update : Update

abbrev pub enable_mode_pv : String
enable_mode_pv = "pv"

abbrev pub enable_mode_now : String
enable_mode_now = "now"

abbrev pub auto_profile_surplus : String
auto_profile_surplus = "surplus"

abbrev pub auto_profile_power_latch : String
auto_profile_power_latch = "power_latch"

abbrev pub auto_profile_surplus_latch : String
auto_profile_surplus_latch = "surplus_latch"

-- `Default`
module _ {ℓ} {W : Type ℓ} ⦃f : Float W⦄ where
  abbrev pub default_control : Control W
  default_control = record {
    enable_mode = enable_mode_pv;
    auto_profile = auto_profile_surplus;
    start_threshold_w = f.of_int (pos 1400);
    stop_threshold_w = f.of_int (pos 0);
    start_dwell = pos (2 * minute);
    stop_dwell = pos (3 * minute);
    soc_cap = pos 80;
    soc_resume_below = pos 78;
    soc_max = pos 100;
    decision_interval = pos (15 * second);
    stale_timeout = pos (60 * second);
    republish = pos (5 * minute);
    retention_window = pos (90 * 24 * hour);
    retention_interval = pos (6 * hour);
  }

  abbrev pub default : Config W
  default = record {
    mqtt = record {
      broker = "tcp://localhost:1883";
      client_id = "wha";
      username = "";
      password = "";
      topic_prefix = "evcc";
    };
    evcc = record { loadpoint_id = "1" };
    control = default_control;
    web = record { bind_addr = "0.0.0.0"; port = pos 8080; ca_root_path = "" };
    db = record { path = "/data/wha.db" };
    log = record { level = "info" };
    update = record {
      enabled = false;
      repository = "joessst-dev/wha";
      request_dir = "/run/update";
      check_ttl = pos hour;
    };
  }
