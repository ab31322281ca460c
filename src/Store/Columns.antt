-- ===== src/Store/Columns.antt =====
-- internal/store/sessions.go, db.go: the columns of charge_sessions, and how a row is scanned. A
-- column that may be NULL is an option. `format` is formatTime and `parse` is time.Parse.
pub mod Scanned
use wallbox_homeautomation_g.Base.{Bool, List, Option, String, false, none, some, true, ℕ, ◌&&◌}
use wallbox_homeautomation_g.Base.Dict.{or_zero}
use wallbox_homeautomation_g.Base.Int.{eq_ℤ, ℤ}
use wallbox_homeautomation_g.Go.Float.{Float, nought}
use wallbox_homeautomation_g.Go.Result.{Result, err, of_option, ok, ◌>>=◌, ◌>>◌}
use wallbox_homeautomation_g.Go.Time.{Time}
use wallbox_homeautomation_g.Store.{Session}
use wallbox_homeautomation_g.Store.Tables.{ended, update_where}
use wallbox_homeautomation_g.Updater.Examples.{started}
use wallbox_homeautomation_g.Web.I18n.{format}

pub record SessionRow {ℓ} (W : Type ℓ) : Type ℓ where
  pub id : ℤ
  pub started_at : String
  pub ended_at : Option String
  pub start_reason : String
  pub stop_reason : Option String
  pub start_vehicle_soc : Option ℤ
  pub end_vehicle_soc : Option ℤ
  pub energy_wh : W
  pub avg_charge_w : W
  pub peak_charge_w : W

-- `parseTime` of a column that may be NULL
abbrev pub parse_null : (String → Option Time) → Option String → Result (Option Time)
parse_null parse none = ok none
parse_null parse (some text) = elim (parse text) [ none ↦ err | some t ↦ ok (some t) ]

module _ {ℓ} {W : Type ℓ} where
  unfoldable pub scan_session : (String → Option Time) → SessionRow W → Result (Session W)
  scan_session parse x = do
    started ← of_option (parse x.started_at)
    ended ← parse_null parse x.ended_at
    ok (record {
      id = x.id;
      started_at = started;
      ended_at = ended;
      start_reason = x.start_reason;
      stop_reason = or_zero "" x.stop_reason;
      start_vehicle_soc = x.start_vehicle_soc;
      end_vehicle_soc = x.end_vehicle_soc;
      energy_wh = x.energy_wh;
      avg_charge_w = x.avg_charge_w;
      peak_charge_w = x.peak_charge_w;
    })

  -- what `EndSession` and `UpdateSessionMetrics` set
  unfoldable pub ended_row :
      (Time → String) → Time → String → Option ℤ → W → W → W → SessionRow W → SessionRow W
  ended_row format at reason soc energy average peak x = record x {
    ended_at = some (format at);
    stop_reason = some reason;
    end_vehicle_soc = soc;
    energy_wh = energy;
    avg_charge_w = average;
    peak_charge_w = peak;
  }

  abbrev pub measured_row : W → W → W → SessionRow W → SessionRow W
  measured_row energy average peak x = record x {
    energy_wh = energy;
    avg_charge_w = average;
    peak_charge_w = peak;
  }

  -- `ended_at IS NULL`
  abbrev pub is_open_row : SessionRow W → Bool
  is_open_row x = elim x.ended_at [ none ↦ true | some text ↦ false ]

  unfoldable pub end_session_rows :
      (Time → String)
      → ℤ
      → Time
      → String
      → Option ℤ
      → W
      → W
      → W
      → List (SessionRow W)
      → List (SessionRow W) × ℕ
  end_session_rows format id at reason soc energy average peak =
      update_where (λ x. eq_ℤ x.id id) (ended_row format at reason soc energy average peak)

  unfoldable pub update_metrics_rows : ℤ → W → W → W → List (SessionRow W) → List (SessionRow W) × ℕ
  update_metrics_rows id energy average peak =
      update_where (λ x. eq_ℤ x.id id && is_open_row x) (measured_row energy average peak)

module _ {ℓ} {W : Type ℓ} ⦃f : Float W⦄ where
  -- the row that `StartSession` inserts, with the defaults of the other columns
  unfoldable pub started_row : (Time → String) → ℤ → Time → String → Option ℤ → SessionRow W
  started_row format id at reason soc = record {
    id = id;
    started_at = format at;
    ended_at = none;
    start_reason = reason;
    stop_reason = none;
    start_vehicle_soc = soc;
    end_vehicle_soc = none;
    energy_wh = nought;
    avg_charge_w = nought;
    peak_charge_w = nought;
  }
