-- ===== src/Web/Tests.antt =====
-- Runs of internal/web.
use wallbox_homeautomation_g.Base.{
  List, Option, String, [], arith, false, none, refl, some, true, ◌++◌, ◌==◌, ◌↔◌, ◌∷◌, ◌≡◌, ◌⊎◌,
}
use wallbox_homeautomation_g.Base.Int.{
  eq_ℤ, int64, le_ℤ, lt_ℤ, negsuc, pos, ℤ, ◌+ℤ◌, ◌-ℤ◌, ◌<ℤ◌, ◌≤ℤ◌,
}
use wallbox_homeautomation_g.Config.Validate.{is_enable_mode, is_profile}
use wallbox_homeautomation_g.Controller.Examples.{
  after_noon, at_noon, default-IsValidControl, default_cfg,
}
use wallbox_homeautomation_g.Controller.Inputs.{inputs_from_snapshot}
use wallbox_homeautomation_g.Controller.Loop.Struct.{Controller, new}
use wallbox_homeautomation_g.Controller.Memory.{blank_memory, memory}
use wallbox_homeautomation_g.Controller.Policy.{clamp_bypass, limit_soc_target, override_active}
use wallbox_homeautomation_g.Controller.Settings.Status.{view}
use wallbox_homeautomation_g.Controller.Settings.Valid.{IsSound}
use wallbox_homeautomation_g.Controller.State.{eq_override, force_on}
use wallbox_homeautomation_g.Controller.System.{boot}
use wallbox_homeautomation_g.Evcc.Store.{empty}
use wallbox_homeautomation_g.Go.Float.{nought, whole, whole-IsOrdered}
use wallbox_homeautomation_g.Go.Strings.{is_space, trim_left, trim_right, trim_space}
use wallbox_homeautomation_g.Go.Strings.Parts.{cut_at, cut_prefix, split_on, to_lower}
use wallbox_homeautomation_g.Go.Time.{Time, add, is_zero}
use wallbox_homeautomation_g.Store.{Sample}
use wallbox_homeautomation_g.Store.Listing.{in_range, max_history_rows, where_rows}
use wallbox_homeautomation_g.Store.Listing.Order.{All, IsTop}
use wallbox_homeautomation_g.Store.Listing.Recent.{OldestFirst}
use wallbox_homeautomation_g.Store.Tables.{Tables}
use wallbox_homeautomation_g.Web.Examples.{header, rfc3339, running}
use wallbox_homeautomation_g.Web.History.{default_from, handle_api_history, max_history_window}
use wallbox_homeautomation_g.Web.History.Window.{handle_api_history-lists}
use wallbox_homeautomation_g.Web.I18n.{consider, default_lang, entry, match_lang, parse_q}
use wallbox_homeautomation_g.Web.I18n.Best.{NoneAbove, NoneReaches, match_lang-best, offer}
use wallbox_homeautomation_g.Web.Reply.{json_samples, tables_listings}
use wallbox_homeautomation_g.Web.Views.{cap_bypass_target, new_status_vm}
use wallbox_homeautomation_g.Web.Views.Coherent.{
  IsCoherent, Reachable-IsCoherent, cap_bypass_target-clamped_iff,
}

match_test : match_lang ℤ header ≡ "de"
unfolding match_lang consider entry split_on trim_space trim_left trim_right is_space cut_at
    to_lower parse_q ◌==◌ lt_ℤ cut_prefix
match_test = refl

match_lang-best_example :
    let parts = split_on b',' header in
    (NoneAbove {W = ℤ} nought parts × (match_lang ℤ header ≡ default_lang))
    ⊎ ((earlier : List String) × (p : String) × (after : List String) × (q : ℤ) × (parts
          ≡ earlier ++ p ∷ after)
        × (offer p ≡ some (match_lang ℤ header, q))
        × (lt_ℤ (pos 0) q ≡ true)
        × NoneReaches q earlier
        × NoneAbove q after)
match_lang-best_example = match_lang-best ℤ whole-IsOrdered header

Reachable-IsCoherent_example : IsCoherent (new_status_vm rfc3339 after_noon (view running.control))
Reachable-IsCoherent_example =
    Reachable-IsCoherent default_cfg (λ d. Unit) running rfc3339 after_noon default-IsValidControl
      (boot at_noon blank_memory tt)

-- A bypass of the cap to a target below it.
abbrev bypassed : Controller ℤ
bypassed = record (new default_cfg) {
  ctrl = record ((new default_cfg).ctrl) {
    override = force_on;
    cap_bypass = true;
    cap_bypass_soc = pos 40;
  };
}

bypassed-IsSound : IsSound bypassed
unfolding new is_enable_mode is_profile ◌==◌
bypassed-IsSound = record {
  config = default-IsValidControl;
  settings = record {
    bypass = λ e. refl;
    no_bypass = λ e. absurd (cc);
    power = refl;
    profile = refl;
    thresholds = tt;
    targets = tt;
  };
}

cap_bypass_target-clamped_iff_example :
    (cap_bypass_target (view bypassed)
      ≡ limit_soc_target at_noon
          (inputs_from_snapshot at_noon empty bypassed.cfg bypassed.ctrl)
          bypassed.cfg)
    ↔ ((pos 40 ≤ℤ pos 0) ⊎ ((pos 80 <ℤ pos 40) × (pos 40 ≤ℤ pos 100)))
unfolding new inputs_from_snapshot override_active is_zero eq_override eq_ℤ
cap_bypass_target-clamped_iff_example =
    cap_bypass_target-clamped_iff bypassed at_noon empty bypassed-IsSound refl refl

clamp_test :
    (cap_bypass_target (view bypassed) ≡ pos 40) × (clamp_bypass (pos 40) default_cfg ≡ pos 81)
unfolding cap_bypass_target view clamp_bypass new lt_ℤ le_ℤ ◌+ℤ◌ int64
clamp_test = (refl, refl)

-- A query for the day before, without parameters, of tables with two samples in reverse.
abbrev reads_nothing : String → Option Time
reads_nothing text = none

abbrev sample_at : Time → Sample ℤ
sample_at at = record {
  ts = at;
  grid_w = negsuc 1999;
  pv_w = pos 0;
  home_w = pos 0;
  battery_soc = pos 0;
  battery_w = pos 0;
  charge_w = pos 0;
  vehicle_soc = pos 50;
  charging = false;
  mode = "off";
  surplus_w = pos 2000;
  state = "idle";
}

abbrev recorded : Tables ℤ
recorded = record {
  sessions = [];
  next_id = pos 1;
  events = [];
  samples = sample_at after_noon ∷ sample_at at_noon ∷ [];
  settings = [];
}

day_before : default_from after_noon ≤ℤ after_noon
unfolding default_from add ◌+ℤ◌ ◌-ℤ◌
day_before = omega arith

handle_api_history-lists_example :
    (listed : List (Sample ℤ)) × (a : Time) × (handle_api_history ⦃l = tables_listings⦄
        reads_nothing after_noon "" "" recorded
      ≡ json_samples listed)
    × ((((after_noon -ℤ default_from after_noon) ≤ℤ pos max_history_window)
          × (a ≡ default_from after_noon))
        ⊎ ((pos max_history_window <ℤ (after_noon -ℤ default_from after_noon))
            × (a ≡ (after_noon -ℤ pos max_history_window))))
    × IsTop OldestFirst max_history_rows listed
        (where_rows (in_range a after_noon) recorded.samples)
    × All (λ s. (a ≤ℤ s.ts) × (s.ts ≤ℤ after_noon)) listed
unfolding ◌==◌
handle_api_history-lists_example =
    handle_api_history-lists reads_nothing after_noon "" "" (default_from after_noon) after_noon
      recorded refl refl day_before
