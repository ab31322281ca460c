-- ===== src/Store.antt =====
-- internal/store: the rows of its tables. The statements that read and write them stand in the
-- child Tables; the controller knows them by the interface of Controller.Recorder alone.
pub mod Tables
pub mod Listing
pub mod Columns
mod Tests
use wallbox_homeautomation_g.Base.{Bool, Option, String}
use wallbox_homeautomation_g.Base.Int.{ℤ}
use wallbox_homeautomation_g.Go.Time.{Time}

pub record Session {ℓ} (W : Type ℓ) : Type ℓ where
  pub id : ℤ
  pub started_at : Time
  pub ended_at : Option Time
  pub start_reason : String
  pub stop_reason : String
  pub start_vehicle_soc : Option ℤ
  pub end_vehicle_soc : Option ℤ
  pub energy_wh : W
  pub avg_charge_w : W
  pub peak_charge_w : W

pub record Event {ℓ} (W : Type ℓ) : Type ℓ where
  pub ts : Time
  pub kind : String
  pub from_state : String
  pub to_state : String
  pub action : String
  pub surplus_w : W
  pub grid_w : W
  pub pv_w : W
  pub battery_soc : ℤ
  pub battery_w : W
  pub vehicle_soc : ℤ
  pub charge_w : W
  pub detail : String

pub record Sample {ℓ} (W : Type ℓ) : Type ℓ where
  pub ts : Time
  pub grid_w : W
  pub pv_w : W
  pub home_w : W
  pub battery_soc : ℤ
  pub battery_w : W
  pub charge_w : W
  pub vehicle_soc : ℤ
  pub charging : Bool
  pub mode : String
  pub surplus_w : W
  pub state : String
