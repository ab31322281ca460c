-- ===== src/Controller/System/Tests.antt =====
-- Runs of the interleaved controller of controller.go, on the small database.
use wallbox_homeautomation_g.Base.{String, arith, false, none, refl, some, true, ◌==◌, ◌≡◌}
use wallbox_homeautomation_g.Base.Dict.{lookup}
use wallbox_homeautomation_g.Base.Int.{eq_ℤ, le_ℤ, lt_ℤ, pos, ℤ, ◌%ℤ◌}
use wallbox_homeautomation_g.Config.{auto_profile_power_latch, enable_mode_now}
use wallbox_homeautomation_g.Config.Validate.{is_enable_mode, is_profile}
use wallbox_homeautomation_g.Controller.Examples.{
  after_noon, at_noon, default-IsValidControl, default_cfg,
}
use wallbox_homeautomation_g.Controller.Loop.{Plan, commit, plan}
use wallbox_homeautomation_g.Controller.Loop.Struct.{Controller, new}
use wallbox_homeautomation_g.Controller.Memory.{Memory, blank_memory, memory, memory-KeepsSettings}
use wallbox_homeautomation_g.Controller.Recorder.{Commander}
use wallbox_homeautomation_g.Controller.Settings.{
  active_profile, invalid, is_latch_profile, is_start_threshold, is_target_soc, set_auto_profile,
  set_charge_power, set_start_threshold, set_target_soc, setting_key, start_threshold_key_prefix,
  target_soc_key_prefix,
}
use wallbox_homeautomation_g.Controller.Settings.Startup.{recover_dangling_session, start_up}
use wallbox_homeautomation_g.Controller.State.{force_off}
use wallbox_homeautomation_g.Controller.System.{
  Reachable, System, ask_override, ask_target, boot, booted, committed, planned, prepare, request,
  serve, settle, step,
}
use wallbox_homeautomation_g.Controller.System.Persist.{Reads, refused-unchanged}
use wallbox_homeautomation_g.Controller.System.Restart.{restart-target_soc}
use wallbox_homeautomation_g.Controller.System.Sound.{IsSafe, Reachable-IsSafe}
use wallbox_homeautomation_g.Controller.System.Thresholds.{restart-start_threshold}
use wallbox_homeautomation_g.Evcc.Store.{empty}
use wallbox_homeautomation_g.Go.Float.{whole}
use wallbox_homeautomation_g.Go.Time.{zero_time}

abbrev obedient : Commander
obedient x = true

abbrev start : System ℤ Memory
start = booted default_cfg at_noon blank_memory

-- A tick is planned, the operator forces charging off, and the tick is committed.
abbrev first_plan : Plan ℤ
first_plan = plan at_noon empty start.control

abbrev raced : Controller ℤ × Memory
raced =
    let (c, d, refusal) =
      serve at_noon (ask_override force_off zero_time false (pos 0)) start.control start.database in
    (c, d)

abbrev raced_commit : System ℤ Memory
raced_commit = record {
  control = commit first_plan raced.0;
  database = raced.1;
  phase = committed first_plan;
}

raced_commit-Reachable : Reachable default_cfg (λ d. Unit) raced_commit
unfolding booted
raced_commit-Reachable =
    step
      (step
        (step (boot at_noon blank_memory tt) (prepare at_noon empty start.control start.database))
        (request at_noon (ask_override force_off zero_time false (pos 0))
          (record start { phase = planned first_plan })))
      (settle first_plan raced.0 raced.1)

Reachable-IsSafe_example : IsSafe default_cfg raced_commit.control
Reachable-IsSafe_example =
    Reachable-IsSafe default_cfg (λ d. Unit) raced_commit default-IsValidControl
      raced_commit-Reachable

abbrev latched : Controller ℤ
latched = record (new default_cfg) {
  ctrl = record ((new default_cfg).ctrl) { auto_profile = auto_profile_power_latch };
}

-- What the setters and the loads find on the small database.
accepted :
    ((set_charge_power at_noon enable_mode_now (new default_cfg) blank_memory).2 ≡ none)
    × ((set_auto_profile at_noon auto_profile_power_latch (new default_cfg) blank_memory).2 ≡ none)
    × ((set_target_soc at_noon (pos 70) latched blank_memory).2 ≡ none)
    × ((serve at_noon (ask_target (pos 75)) latched blank_memory).2 ≡ some invalid)
unfolding serve set_charge_power set_auto_profile set_target_soc is_enable_mode is_profile
    is_target_soc is_latch_profile active_profile new lt_ℤ eq_ℤ ◌%ℤ◌ ◌==◌
accepted = (refl, refl, refl, refl)

reads : (k : String) (d : Memory) → Reads ℤ k (recover_dangling_session ℤ after_noon d)
reads k d e = cc

refused-unchanged_example :
    ((serve at_noon (ask_target (pos 75)) latched blank_memory).0 ≡ latched)
    × ((serve at_noon (ask_target (pos 75)) latched blank_memory).2 ≡ some invalid
        → (serve at_noon (ask_target (pos 75)) latched blank_memory).1 ≡ blank_memory)
refused-unchanged_example =
    refused-unchanged at_noon (ask_target (pos 75)) latched blank_memory
      (λ e. ground (arith, accepted.3))

restart-target_soc_example :
    lookup
      (active_profile latched)
      (start_up after_noon
        (new default_cfg)
        (set_target_soc at_noon (pos 70) latched blank_memory).1).0.ctrl.target_soc
    ≡ some (pos 70)
restart-target_soc_example =
    restart-target_soc memory-KeepsSettings at_noon after_noon (pos 70) latched (new default_cfg)
      blank_memory accepted.2 (reads (setting_key target_soc_key_prefix (active_profile latched)) _)

threshold_accepted :
    ((set_start_threshold at_noon (pos 1500) latched blank_memory).2 ≡ none)
    × (whole.parse_float (whole.format_float (pos 1500)) ≡ some (pos 1500))
unfolding set_start_threshold is_start_threshold is_latch_profile active_profile new lt_ℤ le_ℤ eq_ℤ
    ◌%ℤ◌ ◌==◌
threshold_accepted = (refl, refl)

restart-start_threshold_example :
    lookup
      (active_profile latched)
      (start_up after_noon latched
        (set_start_threshold at_noon (pos 1500) latched blank_memory).1).0.ctrl.start_threshold_w
    ≡ some (pos 1500)
restart-start_threshold_example =
    restart-start_threshold memory-KeepsSettings at_noon after_noon (pos 1500) latched latched
      blank_memory threshold_accepted.0 threshold_accepted.1 refl
      (reads (setting_key start_threshold_key_prefix (active_profile latched)) _)
