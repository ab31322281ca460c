-- ===== src/App/Tests.antt =====
-- A run of the program, from the configuration of a reader that finds no file.
use wallbox_homeautomation_g.Base.{String, refl, some, true, ◌==◌, ◌≡◌}
use wallbox_homeautomation_g.App.{run_app, start_app}
use wallbox_homeautomation_g.App.Started.{after, at_once, start_app-AllCommands}
use wallbox_homeautomation_g.Base.Int.{le_ℤ, lt_ℤ, ℤ}
use wallbox_homeautomation_g.Config.Load.{Viper, file_missing, load_config, overlay}
use wallbox_homeautomation_g.Config.Validate.{
  is_enable_mode, is_profile, validate, validate_control, validate_durations, validate_update,
}
use wallbox_homeautomation_g.Controller.Examples.{at_noon, default_cfg}
use wallbox_homeautomation_g.Controller.Loop.{Plan, act, commit, plan}
use wallbox_homeautomation_g.Controller.Memory.{Memory, blank_memory, memory}
use wallbox_homeautomation_g.Controller.System.{System, booted, prepare, settle}
use wallbox_homeautomation_g.Controller.System.Commands.{AllCommands}
use wallbox_homeautomation_g.Evcc.Store.{empty}
use wallbox_homeautomation_g.Go.Float.{whole}
use wallbox_homeautomation_g.Go.Result.{Result, err, ok}

abbrev defaults : Viper (Unit {0}) ℤ
defaults = record {
  fresh = tt;
  marshal = λ cfg. some "";
  merge_config = λ seed v. some v;
  merge_file = λ path v. file_missing;
  merge_found = λ v. file_missing;
  unmarshal = λ v cfg. some cfg;
}

abbrev empty_store : String → Result Memory
empty_store path = ok blank_memory

abbrev started_system : System ℤ Memory
started_system = booted default_cfg at_noon blank_memory

abbrev first_plan : Plan ℤ
first_plan = plan at_noon empty started_system.control

starts : start_app defaults "" empty_store at_noon ≡ ok started_system
unfolding start_app run_app load_config overlay validate validate_control validate_durations
    validate_update is_enable_mode is_profile lt_ℤ le_ℤ ◌==◌
starts = refl

-- A file that is named and missing is an error.
missing_test : load_config defaults "/etc/wha/wha.yaml" ≡ err
unfolding load_config overlay ◌==◌
missing_test = refl

start_app-AllCommands_example :
    AllCommands
      (act
        (λ x. true)
        first_plan
        (commit first_plan started_system.control)
        started_system.database).2
unfolding booted
start_app-AllCommands_example =
    start_app-AllCommands defaults "" empty_store at_noon started_system first_plan
      (commit first_plan started_system.control) started_system.database (λ x. true) starts
      (after (after at_once (prepare at_noon empty started_system.control started_system.database))
        (settle first_plan started_system.control started_system.database))
