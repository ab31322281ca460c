-- ===== src/Controller/Loop/Tests.antt =====
-- Runs of the control loop of controller.go at concrete inputs, on the small database.
use wallbox_homeautomation_g.Base.{List, [], false, refl, true, ◌++◌, ◌∷◌, ◌≡◌, ◌≢◌, ◌⊎◌}
use wallbox_homeautomation_g.Base.Int.{pos, ℤ, ◌+ℤ◌}
use wallbox_homeautomation_g.Controller.Examples.{
  after_noon, at_noon, default_cfg, full_vehicle, sunny,
}
use wallbox_homeautomation_g.Controller.Loop.{Plan, act, commit, plan}
use wallbox_homeautomation_g.Controller.Loop.Publish.Due.{IsLimitDue, IsModeDue, SendsIf, act-sends}
use wallbox_homeautomation_g.Controller.Loop.Race.{commit_keeps_in_force, in_force}
use wallbox_homeautomation_g.Controller.Loop.Session.{open_session, reset_session, track_session}
use wallbox_homeautomation_g.Controller.Loop.Session.Tally.{IsTotalOf, Moment, samples, track_all}
use wallbox_homeautomation_g.Controller.Loop.Session.Totals.{session-totals}
use wallbox_homeautomation_g.Controller.Loop.Struct.{Controller, new}
use wallbox_homeautomation_g.Controller.Memory.{blank_memory, memory}
use wallbox_homeautomation_g.Controller.Recorder.{Command, Commander, set_limit_soc, set_mode}
use wallbox_homeautomation_g.Controller.State.{Inputs, auto, charging, force_on, soc_reached}
use wallbox_homeautomation_g.Evcc.Store.{Snapshot, empty}
use wallbox_homeautomation_g.Go.Float.{hours, whole}
use wallbox_homeautomation_g.Go.Time.{minute, zero_time}

abbrev fresh_controller : Controller ℤ
fresh_controller = new default_cfg

abbrev overridden : Controller ℤ
overridden = record fresh_controller {
  ctrl = record (fresh_controller.ctrl) { override = force_on; override_until = at_noon };
}

abbrev drawing : ℤ → Inputs ℤ
drawing w = record sunny { is_charging = true; charge_w = pos 0 +ℤ w }

abbrev first_draw : Moment ℤ
first_draw = record { now = at_noon; inputs = drawing (pos 4000); state = charging }

abbrev second_draw : Moment ℤ
second_draw = record { now = after_noon; inputs = drawing (pos 6000); state = charging }

abbrev stopped : Moment ℤ
stopped = record { now = after_noon +ℤ pos minute; inputs = full_vehicle; state = soc_reached }

abbrev obedient : Commander
obedient x = true

abbrev connected_snapshot : Snapshot ℤ
connected_snapshot = record empty { broker_connected = true }

abbrev first_plan : Plan ℤ
first_plan = plan after_noon connected_snapshot fresh_controller

act-sends_example :
    (modes : List Command) × (limits : List Command) × ((act obedient first_plan fresh_controller
        blank_memory).2
      ≡ modes ++ limits)
    × SendsIf
        (IsModeDue first_plan fresh_controller)
        (set_mode first_plan.decision.desired_mode)
        modes
    × SendsIf
        (IsLimitDue first_plan fresh_controller)
        (set_limit_soc first_plan.limit_target)
        limits
act-sends_example = act-sends obedient first_plan fresh_controller blank_memory

commit_keeps_in_force_example :
    let found = fresh_controller.ctrl in
    let left = (commit (plan after_noon empty overridden) fresh_controller).ctrl in
    (left ≡ found)
    ⊎ ((in_force after_noon found ≡ false)
        × (left ≡ record found {
          override = auto;
          override_until = zero_time;
          cap_bypass = false;
          cap_bypass_soc = pos 0;
        }))
commit_keeps_in_force_example = commit_keeps_in_force after_noon empty overridden fresh_controller

not_tracking : (fresh_controller.prev_charging ≡ false) × (fresh_controller.session_id ≡ pos 0)
unfolding new
not_tracking = (refl, refl)

session-totals_example :
    let (c', d') = track_all (first_draw ∷ second_draw ∷ []) fresh_controller blank_memory in
    (c'.session_id
      ≡ (open_session at_noon (drawing (pos 4000)) fresh_controller blank_memory).0.session_id)
    × IsTotalOf
        (hours fresh_controller.cfg.decision_interval)
        (samples (first_draw ∷ second_draw ∷ []))
        (reset_session fresh_controller)
        c'
    × (c'.session_id ≢ pos 0
        → (track_session stopped.now full_vehicle soc_reached c' d').1
          ≡ record d' { ended = (c'.session_id, c'.session_en_wh) ∷ d'.ended })
session-totals_example =
    session-totals first_draw stopped (second_draw ∷ []) fresh_controller blank_memory
      not_tracking.0 (refl, (refl, tt)) refl
