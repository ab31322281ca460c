-- ===== src/Web/Commands/Restore.antt =====
-- handlers.go, controller.go, settings.go: a setting that was posted, on the status page and after a
-- restart.
use wallbox_homeautomation_g.Base.{Option, String, arith, none, refl, some, ◌≡◌}
use wallbox_homeautomation_g.Controller.Loop.Struct.{Controller}
use wallbox_homeautomation_g.Controller.Recorder.{KeepsSettings, Recorder}
use wallbox_homeautomation_g.Controller.Settings.{
  Refusal, charge_power_setting, invalid, not_persisted, set_charge_power,
}
use wallbox_homeautomation_g.Controller.Settings.Startup.{recover_dangling_session, start_up}
use wallbox_homeautomation_g.Controller.Settings.Status.{view}
use wallbox_homeautomation_g.Controller.System.{serve}
use wallbox_homeautomation_g.Controller.System.Persist.{Reads}
use wallbox_homeautomation_g.Controller.System.Restart.{restart-charge_power}
use wallbox_homeautomation_g.Go.Float.{Float}
use wallbox_homeautomation_g.Go.Time.{Time}
use wallbox_homeautomation_g.Web.Commands.{
  handle_charge_power, handle_post, post_charge_power, put_setting, refusal_reply,
}
use wallbox_homeautomation_g.Web.Pages.{Texts}
use wallbox_homeautomation_g.Web.Reply.{Context, Reply, error_handler, status_of}
use wallbox_homeautomation_g.Web.Views.{new_status_vm}

accepted_of_200 {ℓ} :
    {W : Type ℓ} ⦃f : Float W⦄ (o : Option Refusal) (reply : Reply W)
    → status_of (refusal_reply o reply) ≡ 200
    → o ≡ none
unfolding status_of error_handler
accepted_of_200 none reply h = refl
accepted_of_200 (some invalid) reply h = absurd (omega arith)
accepted_of_200 (some not_persisted) reply h = absurd (omega arith)

module _ {ℓ κ} {W : Type ℓ} {D : Type κ} ⦃f : Float W⦄ ⦃r : Recorder W D⦄ where
  set_charge_power-shown :
      (clock : Time) (m : String) (c : Controller W) (d : D)
      → (set_charge_power clock m c d).2 ≡ none
      → (set_charge_power clock m c d).0.ctrl.charge_power ≡ m
  unfolding set_charge_power
  set_charge_power-shown clock m c d h = ground arith

  module _ (keeps : KeepsSettings W D) where
    -- A charge power that was posted and answered with 200 stands on the status page of the running
    -- controller, and on that of any controller that is started later on the database, if the setting
    -- reads then.
    pub handle_charge_power-restored :
        (texts : Texts) (x later : Context) (clock : Time) (m : String) (c c₀ : Controller W)
        (d : D)
        → let (c', d', reply) = handle_post texts x clock (post_charge_power (some m)) c d in
          status_of reply ≡ 200
          → Reads W charge_power_setting (recover_dangling_session W later.now d')
          → ((new_status_vm texts.rfc3339 x.now (view c')).charge_power ≡ m)
            × ((new_status_vm texts.rfc3339 later.now
                  (view (start_up later.now c₀ d').0)).charge_power
                ≡ m)
    unfolding handle_post handle_charge_power put_setting serve new_status_vm view
    handle_charge_power-restored texts x later clock m c c₀ d h reads =
        let fine = accepted_of_200 (set_charge_power clock m c d).2 _ h in
        (
          set_charge_power-shown clock m c d fine,
          restart-charge_power keeps clock later.now m c c₀ d fine reads,
        )
