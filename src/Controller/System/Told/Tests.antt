-- ===== src/Controller/System/Told/Tests.antt =====
-- Two ticks of the controller on a sunny noon, with a vehicle at half charge.
use wallbox_homeautomation_g.Base.{
  ==_of_≡, Bool-absurd, ap, false, refl, some, sym, true, ◌==◌, ◌∙◌, ◌≡◌, ◌≢◌,
}
use wallbox_homeautomation_g.Base.Dict.{lookup}
use wallbox_homeautomation_g.Base.Int.{eq_ℤ, le_ℤ, lt_ℤ, negsuc, pos, ℤ, ◌-ℤ◌, ◌<ℤ◌}
use wallbox_homeautomation_g.Config.{enable_mode_pv}
use wallbox_homeautomation_g.Controller.Examples.{
  after_noon, at_noon, default-IsValidControl, default_cfg,
}
use wallbox_homeautomation_g.Controller.Inputs.{inputs_from_snapshot, is_fresh, is_ready, is_stale}
use wallbox_homeautomation_g.Controller.Loop.{Plan, act, commit, expire, plan}
use wallbox_homeautomation_g.Controller.Loop.Follow.{Knows, Told, hear, nothing_told}
use wallbox_homeautomation_g.Controller.Loop.Frame.{act-frame}
use wallbox_homeautomation_g.Controller.Loop.Struct.{Controller, new}
use wallbox_homeautomation_g.Controller.Memory.{Memory, blank_memory, memory}
use wallbox_homeautomation_g.Controller.Policy.{
  crossed_up, decide, decide_auto, decide_from_idle, decide_profile, effective_mode,
  effective_profile, is_latch, new_decision, override_active, soc_target, surplus,
}
use wallbox_homeautomation_g.Controller.Recorder.{Commander}
use wallbox_homeautomation_g.Controller.Settings.{setting_key}
use wallbox_homeautomation_g.Controller.Settings.Startup.{
  load_auto_profile, load_charge_power, load_start_threshold, load_start_thresholds,
  load_target_soc, load_target_socs, recover_dangling_session, start_up, stored, stored_target,
  stored_threshold,
}
use wallbox_homeautomation_g.Controller.State.{
  Decision, eq_override, eq_state, latch_overrides, mode_off, surplus_dwell_start, surplus_pending,
}
use wallbox_homeautomation_g.Controller.System.{
  System, booted, committed, finish, prepare, settle, waiting,
}
use wallbox_homeautomation_g.Controller.System.Told.{IsPlan, Ran, act-follows, begin, go_on}
use wallbox_homeautomation_g.Controller.System.Told.Charging.{charging-told}
use wallbox_homeautomation_g.Evcc.Store.{Snapshot, empty}
use wallbox_homeautomation_g.Go.Float.{whole}
use wallbox_homeautomation_g.Go.Strings.{◌+s◌}
use wallbox_homeautomation_g.Go.Time.{Time, is_zero, saturate, since}

abbrev obedient : Commander
obedient x = true

abbrev sunny_at : Time → Snapshot ℤ
sunny_at t = record empty {
  grid = record { value = negsuc 1999; at = t; seen = true };
  pv = record { value = pos 3000; at = t; seen = true };
  vehicle_soc = record { value = pos 50; at = t; seen = true };
  connected = record { value = true; at = t; seen = true };
  broker_connected = true;
}

abbrev start : System ℤ Memory
start = booted default_cfg at_noon blank_memory

abbrev first_plan : Plan ℤ
first_plan = plan at_noon (sunny_at at_noon) start.control

abbrev first_commit : Controller ℤ
first_commit = commit first_plan start.control

abbrev between : System ℤ Memory
between = record {
  control = (act obedient first_plan first_commit start.database).0;
  database = (act obedient first_plan first_commit start.database).1;
  phase = waiting;
}

abbrev told_first : Told
told_first = hear obedient (act obedient first_plan first_commit start.database).2 nothing_told

abbrev second_plan : Plan ℤ
second_plan = plan after_noon (sunny_at after_noon) between.control

abbrev second_commit : Controller ℤ
second_commit = commit second_plan between.control

abbrev charging_commit : System ℤ Memory
charging_commit = record {
  control = second_commit;
  database = between.database;
  phase = committed second_plan;
}

first_tick : Ran default_cfg (λ d. Unit) told_first between
unfolding booted
first_tick =
    go_on
      (go_on
        (go_on (begin at_noon blank_memory tt)
          (prepare at_noon (sunny_at at_noon) start.control start.database))
        (settle first_plan start.control start.database))
      (finish obedient first_plan first_commit start.database)

charging_commit-Ran : Ran default_cfg (λ d. Unit) told_first charging_commit
charging_commit-Ran =
    go_on
      (go_on first_tick (prepare after_noon (sunny_at after_noon) between.control between.database))
      (settle second_plan between.control between.database)

start_is_new : start.control ≡ new default_cfg
unfolding booted start_up load_charge_power load_auto_profile load_start_thresholds
    load_start_threshold load_target_socs load_target_soc stored stored_threshold stored_target
    setting_key recover_dangling_session ◌+s◌ ◌==◌ new lookup
start_is_new = refl

pends :
    (plan at_noon (sunny_at at_noon) (new default_cfg)).decision
    ≡ new_decision surplus_pending (crossed_up at_noon) mode_off surplus_dwell_start
unfolding plan decide inputs_from_snapshot is_stale is_fresh is_ready new le_ℤ since ◌-ℤ◌
    override_active eq_override decide_auto soc_target is_latch effective_profile eq_state
    decide_profile decide_from_idle surplus ◌==◌ is_zero eq_ℤ latch_overrides saturate lt_ℤ
pends = refl

-- What the first tick leaves, for the second.
HasPended : Controller ℤ → Type 0
HasPended c =
    (c.cfg ≡ default_cfg)
    × (c.ctrl ≡ (new default_cfg).ctrl)
    × (c.state ≡ surplus_pending)
    × (c.timers ≡ crossed_up at_noon)

override_kept :
    expire (plan at_noon (sunny_at at_noon) (new default_cfg)) (new default_cfg).ctrl
    ≡ (new default_cfg).ctrl
unfolding expire plan new eq_override
override_kept = refl

commit_pended :
    HasPended (commit (plan at_noon (sunny_at at_noon) (new default_cfg)) (new default_cfg))
unfolding HasPended commit new
commit_pended = (
  refl,
  override_kept,
  ap (λ (e : Decision). e.state) pends,
  ap (λ (e : Decision). e.timers) pends,
)

between_pended : HasPended between.control
unfolding HasPended
between_pended =
    let frame = act-frame obedient first_plan first_commit start.database in
    let left : HasPended first_commit = rw start_is_new commit_pended in
    (frame.0 ∙ left.0, frame.1 ∙ left.1, frame.2 ∙ left.2, frame.3 ∙ left.3)

charging_at :
    let inp =
      inputs_from_snapshot after_noon (sunny_at after_noon) default_cfg (new default_cfg).ctrl in
    ((decide after_noon inp surplus_pending (crossed_up at_noon) default_cfg).desired_mode
      ≡ enable_mode_pv)
    × (override_active after_noon inp ≡ false)
unfolding decide inputs_from_snapshot is_stale is_fresh is_ready new le_ℤ since ◌-ℤ◌ override_active
    eq_override decide_auto soc_target is_latch effective_profile eq_state decide_profile
    decide_from_idle surplus ◌==◌ is_zero eq_ℤ latch_overrides saturate lt_ℤ effective_mode
charging_at = (refl, refl)

charging_from :
    (c : Controller ℤ)
    → HasPended c
    → let p = plan after_noon (sunny_at after_noon) c in
      (p.decision.desired_mode ≡ enable_mode_pv) × (override_active p.now p.inputs ≡ false)
unfolding plan HasPended
charging_from c (cfg, ctrl, state, timers) = rw (cfg, ctrl, state, timers) charging_at

charges :
    (second_plan.decision.desired_mode ≡ enable_mode_pv)
    × (override_active second_plan.now second_plan.inputs ≡ false)
charges = charging_from between.control between_pended

charges_ne : second_plan.decision.desired_mode ≢ mode_off
unfolding ◌==◌
charges_ne e = Bool-absurd (==_of_≡ enable_mode_pv mode_off (sym charges.0 ∙ e)) refl

act-follows_example :
    let (c', d', commands) = act obedient second_plan second_commit between.database in
    let told' = hear obedient commands told_first in
    IsPlan second_plan
    × Knows told' c'
    × (true ≡ true → told'.mode ≡ some second_plan.decision.desired_mode)
    × (second_plan.snap.broker_connected ≡ true
        → true ≡ true
        → told'.limit ≡ some second_plan.limit_target)
act-follows_example =
    act-follows default_cfg (λ d. Unit) told_first second_plan second_commit between.database
      obedient default-IsValidControl charging_commit-Ran

charging-told_example :
    let told' =
      hear obedient (act obedient second_plan second_commit between.database).2 told_first in
    (told'.mode ≡ some second_plan.decision.desired_mode)
    × (limit : ℤ) × (told'.limit ≡ some limit)
    × (second_plan.inputs.vehicle_soc <ℤ limit)
charging-told_example =
    charging-told default_cfg (λ d. Unit) told_first second_plan second_commit between.database
      obedient default-IsValidControl charging_commit-Ran refl refl charges.1 charges_ne
