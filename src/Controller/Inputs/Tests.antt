-- ===== src/Controller/Inputs/Tests.antt =====
-- Runs of inputs.go at concrete snapshots.
use wallbox_homeautomation_g.Base.{
  ==_iff, [], arith, false, refl, sym, true, ◌==◌, ◌∙◌, ◌∷◌, ◌≡◌, ◌≢◌,
}
use wallbox_homeautomation_g.Base.Dict.{lookup}
use wallbox_homeautomation_g.Base.Int.{eq_ℤ, le_ℤ, lt_ℤ, negsuc, pos, ℤ, ◌-ℤ◌}
use wallbox_homeautomation_g.Config.{enable_mode_pv}
use wallbox_homeautomation_g.Controller.Examples.{after_noon, at_noon, default_cfg}
use wallbox_homeautomation_g.Controller.Inputs.{inputs_from_snapshot, is_fresh, is_ready, is_stale}
use wallbox_homeautomation_g.Controller.Inputs.Trust.{IsLive, decide-IsLive, lost_broker-failsafe}
use wallbox_homeautomation_g.Controller.Loop.Struct.{new}
use wallbox_homeautomation_g.Controller.Policy.{
  crossed_up, decide, decide_auto, decide_from_idle, decide_profile, effective_mode,
  effective_profile, effective_target_soc, is_latch, new_decision, override_active, reset_timers,
  soc_target, surplus,
}
use wallbox_homeautomation_g.Controller.State.{
  ControlState, charging, eq_override, eq_state, failsafe, latch_overrides, mode_off, stale_off,
  surplus_pending,
}
use wallbox_homeautomation_g.Evcc.Client.{handle, handle_all, on_connection_lost, on_message}
use wallbox_homeautomation_g.Evcc.Store.{BoolMetric, FloatMetric, Snapshot, empty}
use wallbox_homeautomation_g.Evcc.Topics.{new_topics}
use wallbox_homeautomation_g.Go.Float.{whole}
use wallbox_homeautomation_g.Go.Time.{is_zero, since}

abbrev reading : ℤ → FloatMetric ℤ
reading w = record { value = w; at = after_noon; seen = true }

abbrev yes : BoolMetric
yes = record { value = true; at = after_noon; seen = true }

-- All metrics came in just now, and the vehicle is not full.
abbrev live : Snapshot ℤ
live = record empty {
  grid = reading (negsuc 1999);
  pv = reading (pos 3000);
  vehicle_soc = reading (pos 50);
  connected = yes;
  online = yes;
  broker_connected = true;
}

abbrev settings : ControlState ℤ
settings = (new default_cfg).ctrl

live_starts :
    (decide after_noon
      (inputs_from_snapshot after_noon live default_cfg settings)
      surplus_pending
      (crossed_up at_noon)
      default_cfg).desired_mode
    ≡ enable_mode_pv
unfolding decide decide_auto decide_profile decide_from_idle override_active surplus
    effective_profile effective_target_soc effective_mode soc_target eq_state eq_override is_zero
    since is_latch lt_ℤ le_ℤ eq_ℤ inputs_from_snapshot is_ready is_stale is_fresh latch_overrides
    lookup new ◌-ℤ◌ ◌==◌
live_starts = refl

pv_is_not_off : enable_mode_pv ≢ mode_off
unfolding ◌==◌
pv_is_not_off = ground (arith, ==_iff enable_mode_pv mode_off)

decide-IsLive_example :
    IsLive after_noon default_cfg live
    × (override_active after_noon (inputs_from_snapshot after_noon live default_cfg settings)
          ≡ false
        → (true ≡ true) × (true ≡ true) × (true ≡ true))
decide-IsLive_example =
    decide-IsLive after_noon live default_cfg settings surplus_pending (crossed_up at_noon)
      (λ e. pv_is_not_off (sym live_starts ∙ e))

lost_broker-failsafe_example :
    decide after_noon
      (inputs_from_snapshot after_noon
        (handle_all
          (on_message "evcc/site/grid/power" "1500" after_noon ∷ [])
          (handle on_connection_lost (record { topics = new_topics "evcc" "1"; snap = live }))).snap
        default_cfg
        settings)
      charging
      reset_timers
      default_cfg
    ≡ new_decision failsafe reset_timers mode_off stale_off
lost_broker-failsafe_example =
    lost_broker-failsafe (on_message "evcc/site/grid/power" "1500" after_noon ∷ [])
      (record { topics = new_topics "evcc" "1"; snap = live }) after_noon default_cfg settings
      charging reset_timers tt
