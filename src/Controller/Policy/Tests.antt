-- ===== src/Controller/Policy/Tests.antt =====
-- Runs of policy.go at concrete inputs.
use wallbox_homeautomation_g.Base.{
  ==_iff, List, [], arith, false, if◌then◌else◌, inl, refl, sym, true, ◌*◌, ◌==◌, ◌↔◌, ◌∙◌, ◌∷◌,
  ◌≡◌, ◌≢◌, ◌⊎◌,
}
use wallbox_homeautomation_g.Base.Int.{eq_ℤ, int64, le_ℤ, lt_ℤ, pos, ℤ, ◌+ℤ◌, ◌-ℤ◌, ◌<ℤ◌, ◌≤ℤ◌}
use wallbox_homeautomation_g.Config.{enable_mode_pv}
use wallbox_homeautomation_g.Controller.Examples.{
  after_noon, at_noon, cloudy, default-IsValidControl, default_cfg, forced_on, full_vehicle,
  nearly_full, sunny,
}
use wallbox_homeautomation_g.Controller.Memory.{memory}
use wallbox_homeautomation_g.Controller.Policy.{
  crossed_up, decide, decide_auto, decide_from_charging, decide_from_idle, decide_profile,
  effective_mode, effective_profile, effective_start_threshold, effective_target_soc, is_enabled,
  is_latch, latch_trigger, limit_soc_target, override_active, reset_timers, resume_below,
  soc_target, surplus,
}
use wallbox_homeautomation_g.Controller.Policy.Begin.{IsEager, sustained_trigger_charges}
use wallbox_homeautomation_g.Controller.Policy.Diagram.{◌⟶◌}
use wallbox_homeautomation_g.Controller.Policy.History.{
  run-⟶, HeldSince, IsAbove, IsLow, Tick, advance, run,
}
use wallbox_homeautomation_g.Controller.Policy.Latch.{IsPercent, band, latch_holds, soc_reached_iff}
use wallbox_homeautomation_g.Controller.Policy.Limit.{Bypasses, limit_soc_target-range}
use wallbox_homeautomation_g.Controller.Policy.Safety.{MayCharge, decide-enabled_needs}
use wallbox_homeautomation_g.Controller.Policy.Stable.{SamePlan, decide-again}
use wallbox_homeautomation_g.Controller.Policy.Subside.{stop_is_sustained}
use wallbox_homeautomation_g.Controller.Policy.Sustain.{charging_is_sustained}
use wallbox_homeautomation_g.Controller.State.{
  Timers, charging, eq_override, eq_state, force_on, mode_off, soc_reached, surplus_pending,
}
use wallbox_homeautomation_g.Go.Float.{whole, whole-IsOrdered}
use wallbox_homeautomation_g.Go.Time.{Time, is_zero, minute, second, since}

abbrev pending : Timers
pending = crossed_up at_noon

-- the example history, newest first
abbrev started : List (Tick ℤ)
started = record { now = at_noon; inputs = sunny } ∷ []

abbrev risen : Tick ℤ
risen = record { now = after_noon; inputs = sunny }

abbrev clouded : Tick ℤ
clouded = record { now = after_noon +ℤ pos second; inputs = cloudy }

abbrev faded : Tick ℤ
faded = record { now = after_noon +ℤ pos (4 * minute); inputs = cloudy }

abbrev filled : List (Tick ℤ)
filled = record { now = at_noon; inputs = full_vehicle } ∷ []

abbrev still_full : Tick ℤ
still_full = record { now = after_noon; inputs = nearly_full }

-- Automatic control on an input of the examples.
runs :
    ((run default_cfg (risen ∷ started)).state ≡ charging)
    × (is_enabled (run default_cfg started).state ≡ false)
    × (is_enabled (run default_cfg (clouded ∷ risen ∷ started)).state ≡ true)
    × (is_enabled (run default_cfg (faded ∷ clouded ∷ risen ∷ started)).state ≡ false)
    × ((run default_cfg filled).state ≡ soc_reached)
unfolding run advance decide decide_auto decide_profile decide_from_idle decide_from_charging
    override_active surplus effective_profile effective_target_soc effective_mode soc_target
    resume_below eq_state eq_override is_zero since is_latch lt_ℤ le_ℤ eq_ℤ int64 ◌-ℤ◌ ◌+ℤ◌ ◌==◌
runs = (refl, refl, refl, refl, refl)

forces :
    (override_active after_noon sunny ≡ false)
    × (override_active after_noon cloudy ≡ false)
    × (override_active after_noon nearly_full ≡ false)
    × (override_active after_noon forced_on ≡ true)
unfolding override_active eq_override is_zero eq_ℤ
forces = (refl, refl, refl, refl)

targets :
    (soc_target sunny default_cfg ≡ pos 80)
    × (soc_target cloudy default_cfg ≡ pos 80)
    × (soc_target nearly_full default_cfg -ℤ band default_cfg ≡ pos 78)
unfolding soc_target effective_target_soc is_latch effective_profile ◌==◌ eq_ℤ ◌-ℤ◌
targets = (refl, refl, refl)

pv_is_not_off : enable_mode_pv ≢ mode_off
unfolding ◌==◌
pv_is_not_off = ground (arith, ==_iff enable_mode_pv mode_off)

starts_pv :
    (decide after_noon sunny surplus_pending pending default_cfg).desired_mode ≡ enable_mode_pv
unfolding decide decide_auto decide_profile decide_from_idle override_active surplus
    effective_profile effective_target_soc effective_mode soc_target eq_state eq_override is_zero
    since is_latch lt_ℤ le_ℤ eq_ℤ ◌-ℤ◌ ◌==◌
starts_pv = refl

starts_not_off :
    (decide after_noon sunny surplus_pending pending default_cfg).desired_mode ≢ mode_off
starts_not_off e = pv_is_not_off (sym starts_pv ∙ e)

sunny_mode : effective_mode sunny default_cfg ≡ enable_mode_pv
unfolding effective_mode ◌==◌
sunny_mode = refl

noon_is_set : is_zero after_noon ≡ false
unfolding is_zero eq_ℤ
noon_is_set = refl

watts_ordered : whole.lt default_cfg.stop_threshold_w default_cfg.start_threshold_w ≡ true
unfolding lt_ℤ
watts_ordered = refl

percent : IsPercent nearly_full default_cfg
percent = record {
  cap_from = omega arith;
  cap_to = omega arith;
  resume_from = omega arith;
  resume = omega arith;
  target_from = omega arith;
  target_to = omega arith;
}

sunny-MayCharge : MayCharge sunny default_cfg
sunny-MayCharge = record { ready = refl; connected = refl; below = rw targets.0 (omega arith) }

cloudy-MayCharge : MayCharge cloudy default_cfg
cloudy-MayCharge = record { ready = refl; connected = refl; below = rw targets.1 (omega arith) }

charging_is_sustained_example :
    (s : Time) × HeldSince (IsAbove default_cfg) s (risen ∷ started)
    × (default_cfg.start_dwell ≤ℤ since after_noon s)
charging_is_sustained_example =
    charging_is_sustained default_cfg risen started runs.0 runs.1 forces.0

stop_is_sustained_example :
    (s : Time) × HeldSince (IsLow default_cfg) s (faded ∷ clouded ∷ risen ∷ started)
    × (default_cfg.stop_dwell ≤ℤ since faded.now s)
unfolding override_active eq_override
stop_is_sustained_example =
    stop_is_sustained default_cfg faded (clouded ∷ risen ∷ started) runs.2 runs.3 refl refl
      cloudy-MayCharge

decide-enabled_needs_example :
    (sunny.stale ≡ false)
    × (((sunny.override ≡ force_on) × (override_active after_noon sunny ≡ true))
        ⊎ ((override_active after_noon sunny ≡ false) × MayCharge sunny default_cfg))
decide-enabled_needs_example =
    decide-enabled_needs after_noon sunny surplus_pending pending default_cfg starts_not_off

latch_holds_example : (run default_cfg (still_full ∷ filled)).state ≡ soc_reached
latch_holds_example = latch_holds default_cfg filled (still_full ∷ []) runs.4 (
  record {
    percent = percent;
    fresh = refl;
    unforced = forces.2;
    ready = refl;
    connected = refl;
    held = rw targets.2 (omega arith);
  },
  tt,
)

soc_reached_iff_example :
    (((decide after_noon nearly_full soc_reached reset_timers default_cfg).state ≡ soc_reached) ↔ (
      (soc_target nearly_full default_cfg ≤ℤ pos 79)
      ⊎ ((soc_reached ≡ soc_reached)
          × (soc_target nearly_full default_cfg -ℤ band default_cfg ≤ℤ pos 79))))
    × ((decide after_noon nearly_full soc_reached reset_timers default_cfg).state ≡ soc_reached
        → (decide after_noon nearly_full soc_reached reset_timers default_cfg).desired_mode
          ≡ mode_off)
soc_reached_iff_example =
    soc_reached_iff after_noon nearly_full soc_reached reset_timers default_cfg percent refl
      forces.2 refl refl

limit_soc_target-range_example :
    (pos 1 ≤ℤ limit_soc_target after_noon forced_on default_cfg)
    × (limit_soc_target after_noon forced_on default_cfg ≤ℤ pos 100)
    × (Bypasses after_noon forced_on
        → (pos 80 <ℤ limit_soc_target after_noon forced_on default_cfg)
          × (limit_soc_target after_noon forced_on default_cfg ≤ℤ pos 100))
    × (¬ Bypasses after_noon forced_on
        → limit_soc_target after_noon forced_on default_cfg ≡ soc_target forced_on default_cfg)
limit_soc_target-range_example =
    limit_soc_target-range after_noon forced_on default_cfg default-IsValidControl (inl refl)

decide-again_example :
    SamePlan
      (decide after_noon sunny
        (decide after_noon sunny surplus_pending pending default_cfg).state
        (decide after_noon sunny surplus_pending pending default_cfg).timers
        default_cfg)
      (decide after_noon sunny surplus_pending pending default_cfg)
decide-again_example =
    decide-again whole-IsOrdered after_noon sunny surplus_pending pending default_cfg watts_ordered
      (omega arith) (omega arith)

sunny-is_above :
    (if is_latch sunny default_cfg
      then whole.le
          (effective_start_threshold sunny default_cfg)
          (latch_trigger sunny (effective_profile sunny default_cfg))
      else whole.le default_cfg.start_threshold_w (surplus sunny))
    ≡ true
unfolding is_latch effective_profile effective_start_threshold latch_trigger surplus le_ℤ eq_ℤ lt_ℤ
    ◌-ℤ◌ ◌+ℤ◌ ◌==◌
sunny-is_above = refl

sunny-is_low : pos 50 <ℤ resume_below sunny default_cfg
unfolding resume_below int64 ◌-ℤ◌
sunny-is_low = rw targets.0 (omega arith)

-- The same surplus at two ticks.
risen-IsEager : IsEager default_cfg risen
risen-IsEager = record {
  above = record {
    fresh = refl;
    unforced = forces.0;
    may = sunny-MayCharge;
    above = sunny-is_above;
  };
  low = sunny-is_low;
}

abbrev noon_tick : Tick ℤ
noon_tick = record { now = at_noon; inputs = sunny }

unforced_at_noon : override_active at_noon sunny ≡ false
unfolding override_active eq_override
unforced_at_noon = refl

noon_tick-IsEager : IsEager default_cfg noon_tick
noon_tick-IsEager = record {
  above = record {
    fresh = refl;
    unforced = unforced_at_noon;
    may = sunny-MayCharge;
    above = sunny-is_above;
  };
  low = sunny-is_low;
}

dwelt : default_cfg.start_dwell ≤ℤ since after_noon at_noon
unfolding since ◌-ℤ◌
dwelt = omega arith

sustained_trigger_charges_example : is_enabled (run default_cfg (risen ∷ started)).state ≡ true
sustained_trigger_charges_example =
    sustained_trigger_charges whole-IsOrdered default_cfg watts_ordered risen noon_tick [] []
      (risen-IsEager, tt) noon_tick-IsEager (omega arith) tt dwelt

run-⟶_example : (run default_cfg started).state ⟶ (run default_cfg (risen ∷ started)).state
unfolding is_zero eq_ℤ
run-⟶_example = run-⟶ default_cfg risen started (refl, tt) risen-IsEager.above.unforced
