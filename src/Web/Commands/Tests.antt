-- ===== src/Web/Commands/Tests.antt =====
-- Runs of the handlers that change the controller.
use wallbox_homeautomation_g.Base.{List, [], arith, false, refl, some, true, ◌==◌, ◌∷◌, ◌≡◌}
use wallbox_homeautomation_g.Base.Int.{le_ℤ, lt_ℤ, pos, ℤ, ◌+ℤ◌, ◌-ℤ◌}
use wallbox_homeautomation_g.Config.{enable_mode_now}
use wallbox_homeautomation_g.Config.Validate.{is_enable_mode}
use wallbox_homeautomation_g.Controller.Examples.{after_noon, default_cfg}
use wallbox_homeautomation_g.Controller.Inputs.{is_fresh, is_stale}
use wallbox_homeautomation_g.Controller.Loop.{plan}
use wallbox_homeautomation_g.Controller.Loop.Struct.{new}
use wallbox_homeautomation_g.Controller.Memory.{blank_memory, memory, memory-KeepsSettings}
use wallbox_homeautomation_g.Controller.Policy.{effective_mode}
use wallbox_homeautomation_g.Controller.Settings.{set_charge_power}
use wallbox_homeautomation_g.Controller.Settings.Startup.{start_up}
use wallbox_homeautomation_g.Controller.Settings.Status.{view}
use wallbox_homeautomation_g.Controller.State.{force_on, override_name}
use wallbox_homeautomation_g.Controller.System.{serve}
use wallbox_homeautomation_g.Evcc.Store.{FloatMetric, Snapshot, empty}
use wallbox_homeautomation_g.Go.Float.{whole}
use wallbox_homeautomation_g.Go.Time.{minute, saturate, second, since}
use wallbox_homeautomation_g.Web.Commands.{
  OverrideBody, accepted, handle_api_override, handle_charge_power, handle_post, parse_override,
  post_charge_power, post_override, put_setting,
}
use wallbox_homeautomation_g.Web.Commands.Effect.{Answers, handle_post-Answers}
use wallbox_homeautomation_g.Web.Commands.Force.{still_in_force}
use wallbox_homeautomation_g.Web.Commands.Lasting.{Look, handle_api_override-lasts, ticks}
use wallbox_homeautomation_g.Web.Commands.Restore.{handle_charge_power-restored}
use wallbox_homeautomation_g.Web.Examples.{rfc3339, running, texts, visit}
use wallbox_homeautomation_g.Web.Reply.{Context, status_of}
use wallbox_homeautomation_g.Web.Views.{new_status_vm}

abbrev on_for_good : OverrideBody ℤ
on_for_good = record { mode = "on"; hours = pos 0; cap_bypass = false; cap_bypass_soc = pos 0 }

handle_post-Answers_example : Answers after_noon running.control running.database (
    handle_post texts visit after_noon
      (post_override (some on_for_good))
      running.control
      running.database)
handle_post-Answers_example =
    handle_post-Answers texts visit after_noon (post_override (some on_for_good)) running.control
      running.database

abbrev reading : FloatMetric ℤ
reading = record { value = pos 1999; at = after_noon; seen = true }

abbrev live : Snapshot ℤ
live = record empty { grid = reading; pv = reading; broker_connected = true }

posts_on : parse_override on_for_good.mode ≡ some force_on
unfolding parse_override override_name ◌==◌
posts_on = refl

lasts_for_good : still_in_force after_noon (pos 0) after_noon ≡ true
unfolding lt_ℤ
lasts_for_good = refl

-- two ticks, and a third one
abbrev two_looks : List (Look ℤ)
two_looks =
    record { answers = λ x. true; now = after_noon; snap = live }
    ∷ record { answers = λ x. false; now = after_noon +ℤ pos second; snap = live }
    ∷ []

later_in_force :
    (still_in_force after_noon (pos 0) (after_noon +ℤ pos second) ≡ true)
    × (is_stale (after_noon +ℤ pos second) live (new default_cfg).cfg ≡ false)
unfolding lt_ℤ is_stale is_fresh new since le_ℤ ◌-ℤ◌ ◌+ℤ◌ saturate
later_in_force = (refl, refl)

handle_api_override-lasts_example :
    let later = after_noon +ℤ pos second in
    let (c', d', reply) =
      handle_api_override texts visit after_noon
        (some on_for_good)
        (new default_cfg)
        blank_memory in
    let (c₁, d₁) = ticks two_looks c' d' in
    let p = plan later live c₁ in p.decision.desired_mode ≡ effective_mode p.inputs c₁.cfg
handle_api_override-lasts_example =
    handle_api_override-lasts texts visit after_noon on_for_good force_on two_looks
      (after_noon +ℤ pos second) live (new default_cfg) blank_memory posts_on (λ e. ground arith)
      (lasts_for_good, (later_in_force.0, tt)) later_in_force.0 later_in_force.1

abbrev tomorrow : Context
tomorrow = record visit { now = after_noon +ℤ pos minute }

answered_200 :
    status_of
      (handle_post texts visit after_noon
        (post_charge_power (some enable_mode_now))
        (new default_cfg)
        blank_memory).2
    ≡ 200
unfolding handle_post handle_charge_power put_setting serve set_charge_power is_enable_mode accepted
    status_of ◌==◌
answered_200 = refl

handle_charge_power-restored_example :
    let (c', d', reply) =
      handle_post texts visit after_noon
        (post_charge_power (some enable_mode_now))
        (new default_cfg)
        blank_memory in
    ((new_status_vm rfc3339 after_noon (view c')).charge_power ≡ enable_mode_now)
    × ((new_status_vm rfc3339 tomorrow.now
          (view (start_up tomorrow.now (new default_cfg) d').0)).charge_power
        ≡ enable_mode_now)
handle_charge_power-restored_example =
    handle_charge_power-restored memory-KeepsSettings texts visit tomorrow after_noon
      enable_mode_now (new default_cfg) (new default_cfg) blank_memory answered_200 (λ e. cc)
