-- ===== src/Web/Updates.antt =====
-- internal/web/handlers.go, sw.go: the handlers over the updater. Templates are given their models;
-- `render` is the template of the service worker with the version put in.
pub mod Apply
pub mod Cached
mod Tests
use wallbox_homeautomation_g.Base.{Option, String, if◌then◌else◌, none, not, some, ◌==◌, ◌||◌}
use wallbox_homeautomation_g.Go.Float.{Float}
use wallbox_homeautomation_g.Go.Time.{Time}
use wallbox_homeautomation_g.Updater.{Info, Triggered, Updater, requested}
use wallbox_homeautomation_g.Updater.Files.{Calls, Files}
use wallbox_homeautomation_g.Updater.Whole.{Sidecar, check_registry, info_of, trigger_files}
use wallbox_homeautomation_g.Web.Commands.{bad_request}
use wallbox_homeautomation_g.Web.Pages.{update_fragment_of}
use wallbox_homeautomation_g.Web.Reply.{
  Context, Reply, acknowledged, failed, json_update, other_error, sent, update_fragment,
}
use wallbox_homeautomation_g.Web.Views.{new_update_vm}

module _ {ℓ} {W : Type ℓ} ⦃f : Float W⦄ where
  -- A failed check is only logged.
  unfoldable pub handle_update_check :
      Context → Sidecar → String → Time → Time → Files → Updater → Updater × Reply W
  handle_update_check x side base now done files u =
      let (u', i, fine) = check_registry side base now done files u in
      (
        u',
        (if x.is_htmx
            then update_fragment (update_fragment_of W x i)
            else json_update (new_update_vm W x.now i)),
      )

  abbrev pub answered : Context → Info → Triggered → Reply W
  answered x i (requested q) =
      if x.is_htmx then update_fragment (update_fragment_of W x i) else acknowledged
  answered x i _ = bad_request

  abbrev pub applied : Context → Sidecar → Calls → Time → Updater → Files → String → Files × Reply W
  applied x side calls now u files version =
      let i = info_of side files u in
      let (answer, files') = trigger_files side calls now version u files in
      if not i.enabled
      then (files, bad_request)
      else if version == "" || not (version == i.latest)
      then (files, bad_request)
      else (files', answered x (info_of side files' u) answer)

  -- The body, `none` where BodyParser reports an error, is a version. The partial reads the status
  -- file again.
  unfoldable pub handle_update_apply :
      Context → Sidecar → Calls → Time → Updater → Files → Option String → Files × Reply W
  handle_update_apply x side calls now u files none = (files, bad_request)
  handle_update_apply x side calls now u files (some version) =
      applied x side calls now u files version

unfoldable pub worker_version : Info → String
worker_version i = if i.current == "" then "dev" else i.current

-- `none` is an error of the template.
unfoldable pub handle_service_worker {ℓ} : {W : Type ℓ} → (String → Option String) → Info → Reply W
handle_service_worker render i = elim (render (worker_version i)) [
  | none ↦ failed other_error
  | some body ↦ sent 200 body
]
