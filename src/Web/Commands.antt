-- ===== src/Web/Commands.antt =====
-- internal/web/handlers.go: the handlers that change the controller. A body is what BodyParser made
-- of it, `none` where it reports an error.
pub mod Effect
pub mod Force
pub mod Lasting
pub mod Restore
mod Tests
use wallbox_homeautomation_g.Base.{Bool, Option, String, if◌then◌else◌, none, some, ◌&&◌, ◌==◌}
use wallbox_homeautomation_g.Base.Int.{pos, ℤ}
use wallbox_homeautomation_g.Controller.Loop.Struct.{Controller}
use wallbox_homeautomation_g.Controller.Recorder.{Recorder}
use wallbox_homeautomation_g.Controller.Settings.{Refusal, invalid, not_persisted}
use wallbox_homeautomation_g.Controller.State.{
  Override, auto, eq_override, force_off, force_on, override_name,
}
use wallbox_homeautomation_g.Controller.System.{
  Request, ask_override, ask_power, ask_profile, ask_target, ask_threshold, serve,
}
use wallbox_homeautomation_g.Go.Float.{Float, nought}
use wallbox_homeautomation_g.Go.Time.{Time, add, hour, zero_time}
use wallbox_homeautomation_g.Web.Pages.{Texts, render_partial}
use wallbox_homeautomation_g.Web.Reply.{Context, Reply, acknowledged, failed, fiber_error}

-- the body of POST /api/override
pub record OverrideBody {ℓ} (W : Type ℓ) : Type ℓ where
  pub mode : String
  pub hours : W
  pub cap_bypass : Bool
  pub cap_bypass_soc : ℤ

unfoldable pub parse_override : String → Option Override
parse_override mode =
    if mode == override_name auto
    then some auto
    else if mode == override_name force_on
    then some force_on
    else if mode == override_name force_off
    then some force_off
    else none

abbrev pub bad_request {ℓ} : {W : Type ℓ} → Reply W
bad_request = failed (fiber_error 400)

module _ {ℓ} {W : Type ℓ} ⦃f : Float W⦄ where
  -- `time.Duration(req.Hours * float64(time.Hour))` from now; the zero time is no expiry
  unfoldable pub expiry : Time → W → Time
  expiry now h =
      if f.lt nought h then add now (f.trunc (f.mul h (f.of_int (pos hour)))) else zero_time

  -- the error of a setter
  abbrev pub refusal_reply : Option Refusal → Reply W → Reply W
  refusal_reply none reply = reply
  refusal_reply (some invalid) reply = bad_request
  refusal_reply (some not_persisted) reply = failed (fiber_error 500)

  module _ (texts : Texts) (x : Context) where
    -- for htmx the refreshed partial
    unfoldable pub accepted : String → Controller W → Reply W
    accepted partial c = if x.is_htmx then render_partial texts x partial c else acknowledged

    module _ {κ} {D : Type κ} ⦃r : Recorder W D⦄ (clock : Time) where
      -- The call of a setter, and the answer with a partial. The controller has a clock of its own.
      unfoldable pub put_setting :
          String → Request W → Controller W → D → Controller W × D × Reply W
      put_setting partial q c d =
          let (c', d', refusal) = serve clock q c d in
          (c', d', refusal_reply refusal (accepted partial c'))

      abbrev pub with_mode :
          OverrideBody W → Option Override → Controller W → D → Controller W × D × Reply W
      with_mode req none c d = (c, d, bad_request)
      with_mode req (some mode) c d =
          put_setting "partials/controls"
            (ask_override mode (expiry x.now req.hours)
              (req.cap_bypass && eq_override mode force_on) req.cap_bypass_soc)
            c d

      unfoldable pub handle_api_override :
          Option (OverrideBody W) → Controller W → D → Controller W × D × Reply W
      handle_api_override none c d = (c, d, bad_request)
      handle_api_override (some req) c d = with_mode req (parse_override req.mode) c d

      -- A handler of a body with a single setting.
      abbrev handle_setting {μ} :
          {B : Type μ}
          → String
          → (B → Request W)
          → Option B
          → Controller W
          → D
          → Controller W × D × Reply W
      handle_setting partial ask none c d = (c, d, bad_request)
      handle_setting partial ask (some value) c d = put_setting partial (ask value) c d

      unfoldable pub handle_charge_power :
          Option String → Controller W → D → Controller W × D × Reply W
      handle_charge_power = handle_setting "partials/controls" ask_power

      unfoldable pub handle_auto_profile :
          Option String → Controller W → D → Controller W × D × Reply W
      handle_auto_profile = handle_setting "partials/settings" ask_profile

      unfoldable pub handle_start_threshold :
          Option W → Controller W → D → Controller W × D × Reply W
      handle_start_threshold = handle_setting "partials/settings" ask_threshold

      unfoldable pub handle_target_soc : Option ℤ → Controller W → D → Controller W × D × Reply W
      handle_target_soc = handle_setting "partials/settings" ask_target

-- the POST routes of `registerRoutes` that change the controller, with the bodies
pub data Post {ℓ} (W : Type ℓ) : Type ℓ where
  post_override : Option (OverrideBody W) → Post W
  post_charge_power post_auto_profile : Option String → Post W
  post_start_threshold : Option W → Post W
  post_target_soc : Option ℤ → Post W

module _ {ℓ κ} {W : Type ℓ} {D : Type κ} ⦃f : Float W⦄ ⦃r : Recorder W D⦄ where
  unfoldable pub handle_post :
      Texts → Context → Time → Post W → Controller W → D → Controller W × D × Reply W
  handle_post texts x clock (post_override body) = handle_api_override texts x clock body
  handle_post texts x clock (post_charge_power body) = handle_charge_power texts x clock body
  handle_post texts x clock (post_auto_profile body) = handle_auto_profile texts x clock body
  handle_post texts x clock (post_start_threshold body) = handle_start_threshold texts x clock body
  handle_post texts x clock (post_target_soc body) = handle_target_soc texts x clock body
