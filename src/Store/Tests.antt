-- ===== src/Store/Tests.antt =====
-- Runs on the tables of internal/store.
use wallbox_homeautomation_g.Base.{
  Bool-discrete, Option, String, [], arith, false, filter, if◌then◌else◌, length, none, refl, some,
  ◌-◌, ◌==◌, ◌∷◌, ◌≡◌,
}
use wallbox_homeautomation_g.Base.Int.{eq_ℤ, pos, ℤ, ◌-ℤ◌}
use wallbox_homeautomation_g.Controller.Examples.{after_noon, at_noon, default_cfg}
use wallbox_homeautomation_g.Controller.Loop.Publish.{blank_event}
use wallbox_homeautomation_g.Controller.Loop.Struct.{Controller, new}
use wallbox_homeautomation_g.Controller.Memory.{memory}
use wallbox_homeautomation_g.Controller.Settings.Startup.{prune}
use wallbox_homeautomation_g.Controller.System.{boot, booted}
use wallbox_homeautomation_g.Controller.System.Rows.{IsClean, Reachable-Agrees}
use wallbox_homeautomation_g.Go.Float.{whole}
use wallbox_homeautomation_g.Go.Result.{ok}
use wallbox_homeautomation_g.Go.Time.{Time, add, before}
use wallbox_homeautomation_g.Store.{Session}
use wallbox_homeautomation_g.Store.Columns.{
  SessionRow, end_session_rows, scan_session, started_row, update_metrics_rows,
}
use wallbox_homeautomation_g.Store.Columns.Scanned.{
  FollowedBy, Scans, next_row, no_rows, session_rows-Scans,
}
use wallbox_homeautomation_g.Store.Listing.{recent_sessions}
use wallbox_homeautomation_g.Store.Listing.Order.{IsTop}
use wallbox_homeautomation_g.Store.Listing.Recent.{NewestFirst, recent_sessions-IsTop}
use wallbox_homeautomation_g.Store.Tables.{
  Tables, end_session, prune_samples, start_session, tables, update_session_metrics,
}
use wallbox_homeautomation_g.Store.Tables.Prune.{prune-keeps}
use wallbox_homeautomation_g.Store.Tables.Track.{Agrees}

abbrev abandoned : Session ℤ
abandoned = record {
  id = pos 1;
  started_at = at_noon;
  ended_at = none;
  start_reason = "surplus";
  stop_reason = "";
  start_vehicle_soc = none;
  end_vehicle_soc = none;
  energy_wh = pos 250;
  avg_charge_w = pos 4000;
  peak_charge_w = pos 4100;
}

-- One session was left open by an earlier run.
abbrev left_open : Tables ℤ
left_open = record {
  sessions = abandoned ∷ [];
  next_id = pos 2;
  events = blank_event at_noon "command" ∷ [];
  samples = [];
  settings = [];
}

abbrev waiting_controller : Controller ℤ
waiting_controller = new default_cfg

left_open-IsClean : IsClean left_open
left_open-IsClean = record {
  positive = omega arith;
  below = (omega arith, omega arith, tt);
  alone = (pos 1, ((λ o. refl), tt));
}

Reachable-Agrees_example :
    let s = booted ⦃r = tables⦄ default_cfg at_noon left_open in Agrees s.control s.database
Reachable-Agrees_example =
    Reachable-Agrees default_cfg (booted ⦃r = tables⦄ default_cfg at_noon left_open)
      (boot at_noon left_open left_open-IsClean)

prune-keeps_example :
    let oldest = add after_noon (pos 0 -ℤ default_cfg.retention_window) in
    let t' = prune ⦃r = tables⦄ after_noon waiting_controller left_open in
    (t'.samples ≡ [])
    × (t'.events
        ≡ filter
            (λ e. Bool-discrete (before e.ts oldest) false)
            (blank_event at_noon "command" ∷ []))
    × (t'.sessions ≡ abandoned ∷ [])
    × (t'.settings ≡ [])
    × ((prune_samples oldest left_open).1 ≡ ok (pos (0 - length t'.samples)))
unfolding new
prune-keeps_example = prune-keeps after_noon waiting_controller left_open

recent_sessions-IsTop_example :
    IsTop NewestFirst 20 (recent_sessions (pos 20) left_open) left_open.sessions
recent_sessions-IsTop_example = recent_sessions-IsTop 20 left_open

-- The columns of the open session, with times as two texts.
abbrev format_times : Time → String
format_times at = if eq_ℤ at at_noon then "noon" else "later"

abbrev parse_times : String → Option Time
parse_times text = if text == "noon" then some at_noon else some after_noon

abbrev abandoned_row : SessionRow ℤ
abandoned_row = record {
  id = pos 1;
  started_at = "noon";
  ended_at = none;
  start_reason = "surplus";
  stop_reason = none;
  start_vehicle_soc = none;
  end_vehicle_soc = none;
  energy_wh = pos 250;
  avg_charge_w = pos 4000;
  peak_charge_w = pos 4100;
}

scanned : scan_session parse_times abandoned_row ≡ ok abandoned
unfolding scan_session ◌==◌
scanned = refl

later_reads : parse_times (format_times after_noon) ≡ some after_noon
unfolding eq_ℤ ◌==◌
later_reads = refl

session_rows-Scans_example :
    Scans parse_times
      (abandoned_row ∷ started_row format_times (pos 2) after_noon "surplus" none ∷ [])
      (start_session after_noon "surplus" none left_open).0.sessions
    × FollowedBy parse_times
        (end_session_rows format_times
          (pos 1)
          after_noon
          "surplus"
          none
          (pos 250)
          (pos 4000)
          (pos 4100)
          (abandoned_row ∷ []))
        (end_session (pos 1) after_noon "surplus" none (pos 250) (pos 4000) (pos 4100) left_open)
    × FollowedBy parse_times
        (update_metrics_rows (pos 1) (pos 250) (pos 4000) (pos 4100) (abandoned_row ∷ []))
        (update_session_metrics (pos 1) (pos 250) (pos 4000) (pos 4100) left_open)
session_rows-Scans_example =
    session_rows-Scans format_times parse_times (abandoned_row ∷ []) left_open (pos 1) after_noon
      "surplus" none (pos 250) (pos 4000) (pos 4100) (next_row scanned no_rows) later_reads
