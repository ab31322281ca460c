-- ===== src/Controller/System/Overlap/Tests.antt =====
-- Calls of SetChargePower that overlap, on the small database.
use wallbox_homeautomation_g.Base.{
  ==_of_≡, Bool-absurd, List, String, [], refl, true, ◌==◌, ◌↔◌, ◌∷◌, ◌≡◌, ◌≢◌,
}
use wallbox_homeautomation_g.Base.Dict.{insert, lookup}
use wallbox_homeautomation_g.Base.Int.{ℤ}
use wallbox_homeautomation_g.Config.{enable_mode_now, enable_mode_pv}
use wallbox_homeautomation_g.Config.Validate.{is_enable_mode}
use wallbox_homeautomation_g.Controller.Examples.{after_noon, at_noon, default_cfg}
use wallbox_homeautomation_g.Controller.Loop.Struct.{new}
use wallbox_homeautomation_g.Controller.Memory.{Memory, blank_memory, memory, memory-KeepsSettings}
use wallbox_homeautomation_g.Controller.Settings.{audit, charge_power_setting, setting_key}
use wallbox_homeautomation_g.Controller.Settings.Startup.{
  load_auto_profile, load_charge_power, load_start_threshold, load_start_thresholds,
  load_target_soc, load_target_socs, recover_dangling_session, start_up, stored, stored_target,
  stored_threshold,
}
use wallbox_homeautomation_g.Controller.Settings.Status.{view}
use wallbox_homeautomation_g.Controller.System.Overlap.{overlap-restores_iff, run_power}
use wallbox_homeautomation_g.Controller.System.Overlap.Steps.{
  PowerStep, change_power, changes, finished, first, record_power, second, write_power, writes,
}
use wallbox_homeautomation_g.Controller.System.Persist.{Reads}
use wallbox_homeautomation_g.Go.Float.{whole}
use wallbox_homeautomation_g.Go.Strings.{◌+s◌}

reads : (k : String) (d : Memory) → Reads ℤ k (recover_dangling_session ℤ after_noon d)
reads k d e = cc

-- Two calls whose writes and whose changes of the memory come in different orders.
abbrev crossed : List PowerStep
crossed =
    write_power enable_mode_pv
    ∷ write_power enable_mode_now
    ∷ change_power enable_mode_now
    ∷ change_power enable_mode_pv
    ∷ record_power at_noon enable_mode_now
    ∷ record_power at_noon enable_mode_pv
    ∷ []

modes_known : (is_enable_mode enable_mode_pv ≡ true) × (is_enable_mode enable_mode_now ≡ true)
unfolding is_enable_mode ◌==◌
modes_known = (refl, refl)

modes_differ : enable_mode_pv ≢ enable_mode_now
unfolding ◌==◌
modes_differ e = Bool-absurd (==_of_≡ enable_mode_pv enable_mode_now e) refl

overlap-restores_iff_example :
    let (c', d') = run_power crossed (new default_cfg) blank_memory in
    ((start_up after_noon (new default_cfg) d').0.ctrl.charge_power ≡ (view c').charge_power)
    ↔ (writes crossed ≡ changes crossed)
unfolding ◌==◌
overlap-restores_iff_example =
    overlap-restores_iff memory-KeepsSettings at_noon at_noon after_noon enable_mode_pv
      enable_mode_now crossed (new default_cfg) (new default_cfg) blank_memory modes_differ
      (first (second (second (first (second (first finished))))))
      (modes_known.0, refl, (modes_known.1, refl, tt)) (reads charge_power_setting _)

-- The status then shows "pv", and a restart restores "now".
crossed_test :
    let (c', d') = run_power crossed (new default_cfg) blank_memory in
    ((view c').charge_power ≡ enable_mode_pv)
    × ((start_up after_noon (new default_cfg) d').0.ctrl.charge_power ≡ enable_mode_now)
unfolding run_power view start_up recover_dangling_session load_charge_power stored audit
    is_enable_mode load_auto_profile load_start_thresholds load_start_threshold load_target_socs
    load_target_soc stored_target stored_threshold new lookup insert setting_key ◌+s◌ ◌==◌
crossed_test = (refl, refl)
