-- ===== src/Controller/System/Overlap.antt =====
-- controller.go: SetChargePower by its steps, for calls that overlap. The lock is held for the change
-- of the memory alone, so the steps of several calls come in any order in which each call's stand.
pub mod Steps
mod Tests
use wallbox_homeautomation_g.Base.{List, String, [], arith, none, refl, true, ◌↔◌, ◌∷◌, ◌≡◌, ◌≢◌}
use wallbox_homeautomation_g.Config.Validate.{is_enable_mode}
use wallbox_homeautomation_g.Controller.Loop.Struct.{Controller}
use wallbox_homeautomation_g.Controller.Recorder.{KeepsSettings, Recorder}
use wallbox_homeautomation_g.Controller.Settings.{
  audit, charge_power_setting, set_charge_power, with_ctrl,
}
use wallbox_homeautomation_g.Controller.Settings.Startup.{recover_dangling_session, start_up}
use wallbox_homeautomation_g.Controller.Settings.Status.{view}
use wallbox_homeautomation_g.Controller.System.Overlap.Steps.{
  Merge, Merge-changes, Merge-writes, PowerStep, change_power, changes, last_change,
  last_change-last_of, last_write, last_write-last_of, power_steps, record_power, same_last,
  some_write, two_orders, write_power, writes,
}
use wallbox_homeautomation_g.Controller.System.Persist.{Holds, Reads, audit-Holds, recover-stored}
use wallbox_homeautomation_g.Controller.System.Restart.{start_up-charge_power}
use wallbox_homeautomation_g.Evcc.Topics.Distinct.{charge_power}
use wallbox_homeautomation_g.Go.Float.{Float}
use wallbox_homeautomation_g.Go.Result.{is_ok}
use wallbox_homeautomation_g.Go.Strings.{◌+s◌}
use wallbox_homeautomation_g.Go.Time.{Time}

module _ {ℓ κ} (W : Type ℓ) {D : Type κ} ⦃f : Float W⦄ ⦃r : Recorder W D⦄ where
  -- Every write of the run is of a known mode and succeeds.
  abbrev pub AllWritten : List PowerStep → D → Type 0
  AllWritten [] d = Unit
  AllWritten (write_power m ∷ steps) d =
      (is_enable_mode m ≡ true)
      × (is_ok (r.set_setting charge_power_setting m d).1 ≡ true)
      × AllWritten steps (r.set_setting charge_power_setting m d).0
  AllWritten (change_power m ∷ steps) d = AllWritten steps d
  AllWritten (record_power now m ∷ steps) d =
      AllWritten steps (audit W now "command" ("charge_power:" +s m) d)

module _ {ℓ κ} {W : Type ℓ} {D : Type κ} ⦃f : Float W⦄ ⦃r : Recorder W D⦄ where
  abbrev pub power_step : PowerStep → Controller W → D → Controller W × D
  power_step (write_power m) c d = (c, (r.set_setting charge_power_setting m d).0)
  power_step (change_power m) c d = (with_ctrl c (record (c.ctrl) { charge_power = m }), d)
  power_step (record_power now m) c d = (c, audit W now "command" ("charge_power:" +s m) d)

  unfoldable pub run_power : List PowerStep → Controller W → D → Controller W × D
  run_power [] c d = (c, d)
  run_power (s ∷ steps) c d = let (c', d') = power_step s c d in run_power steps c' d'

  -- A call whose write succeeds is its three steps.
  pub set_charge_power-steps :
      (now : Time) (m : String) (c : Controller W) (d : D)
      → is_enable_mode m ≡ true
      → is_ok (r.set_setting charge_power_setting m d).1 ≡ true
      → let (c', d') = run_power (write_power m ∷ change_power m ∷ record_power now m ∷ []) c d in
        set_charge_power now m c d ≡ (c', d', none)
  unfolding set_charge_power run_power
  set_charge_power-steps now m c d known written = ground arith

  shown_lem :
      (steps : List PowerStep) (c : Controller W) (d : D)
      → (run_power steps c d).0.ctrl.charge_power ≡ last_change c.ctrl.charge_power steps
  unfolding run_power
  shown_lem [] c d = refl
  shown_lem (write_power m ∷ steps) c d =
      shown_lem steps c (r.set_setting charge_power_setting m d).0
  shown_lem (change_power m ∷ steps) c d =
      shown_lem steps (with_ctrl c (record (c.ctrl) { charge_power = m })) d
  shown_lem (record_power now m ∷ steps) c d =
      shown_lem steps c (audit W now "command" ("charge_power:" +s m) d)

  module _ (keeps : KeepsSettings W D) where
    stored_lem :
        (v : String) (steps : List PowerStep) (c : Controller W) (d : D)
        → AllWritten W steps d
        → is_enable_mode v ≡ true
        → Holds W charge_power_setting v d
        → (is_enable_mode (last_write v steps) ≡ true)
          × Holds W charge_power_setting (last_write v steps) (run_power steps c d).1
    unfolding run_power
    stored_lem v [] c d a known h = (known, h)
    stored_lem v (write_power m ∷ steps) c d (good, written, a) known h =
        stored_lem m steps c (r.set_setting charge_power_setting m d).0 a good
          (keeps.get-set_self charge_power_setting m d written)
    stored_lem v (change_power m ∷ steps) c d a known h =
        stored_lem v steps (with_ctrl c (record (c.ctrl) { charge_power = m })) d a known h
    stored_lem v (record_power now m ∷ steps) c d a known h =
        stored_lem v steps c (audit W now "command" ("charge_power:" +s m) d) a known
          (audit-Holds W keeps charge_power_setting v now "command" ("charge_power:" +s m) d h)

    -- after the first write, whatever was stored before
    stored_after :
        (v : String) (steps : List PowerStep) (c : Controller W) (d : D)
        → AllWritten W steps d
        → writes steps ≢ []
        → (is_enable_mode (last_write v steps) ≡ true)
          × Holds W charge_power_setting (last_write v steps) (run_power steps c d).1
    unfolding run_power
    stored_after v [] c d a some_write = absurd (some_write refl)
    stored_after v (write_power m ∷ steps) c d (good, written, a) some_write =
        stored_lem m steps c (r.set_setting charge_power_setting m d).0 a good
          (keeps.get-set_self charge_power_setting m d written)
    stored_after v (change_power m ∷ steps) c d a some_write =
        stored_after v steps (with_ctrl c (record (c.ctrl) { charge_power = m })) d a some_write
    stored_after v (record_power now m ∷ steps) c d a some_write =
        stored_after v steps c (audit W now "command" ("charge_power:" +s m) d) a some_write

    -- Two calls of SetChargePower for different known modes whose steps interleave in any way, and whose
    -- writes succeed, on a database that keeps its settings: a restart on the database that they leave
    -- restores the charge power that the status shows, if the setting reads, exactly when the calls
    -- changed the memory in the order in which they wrote.
    pub overlap-restores_iff :
        (t₁ t₂ later : Time) (m n : String) (steps : List PowerStep) (c c₀ : Controller W) (d : D)
        → m ≢ n
        → Merge (power_steps t₁ m) (power_steps t₂ n) steps
        → AllWritten W steps d
        → let (c', d') = run_power steps c d in
          Reads W charge_power_setting (recover_dangling_session W later d')
          → ((start_up later c₀ d').0.ctrl.charge_power ≡ (view c').charge_power)
            ↔ (writes steps ≡ changes steps)
    unfolding view
    overlap-restores_iff t₁ t₂ later m n steps c c₀ d other both a reads =
        let (c', d') = run_power steps c d in
        let wrote =
          two_orders m n (writes steps)
            (Merge-writes (power_steps t₁ m) (power_steps t₂ n) steps both) in
        let changed =
          two_orders m n (changes steps)
            (Merge-changes (power_steps t₁ m) (power_steps t₂ n) steps both) in
        let (good, held) = stored_after "" steps c d a (some_write m n (writes steps) wrote) in
        let restored : (start_up later c₀ d').0.ctrl.charge_power ≡ last_write "" steps =
          start_up-charge_power later (last_write "" steps) c₀ d'
            (recover-stored W keeps charge_power_setting (last_write "" steps) later d' held reads)
            good in
        rw
          (
            restored,
            shown_lem steps c d,
            last_write-last_of "" steps,
            last_change-last_of c.ctrl.charge_power steps,
          )
          (same_last m n "" c.ctrl.charge_power (writes steps) (changes steps) other wrote changed)
