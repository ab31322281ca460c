-- ===== src/Web/Pages.antt =====
-- internal/web/handlers.go: the pages, the partials and the lists of the JSON API, over the state of
-- the controller and the updater's information.
use wallbox_homeautomation_g.Base.{List, Option, String, if◌then◌else◌}
use wallbox_homeautomation_g.Base.Dict.{or_zero}
use wallbox_homeautomation_g.Base.Int.{lt_ℤ, pos, ℤ}
use wallbox_homeautomation_g.Controller.Loop.Struct.{Controller}
use wallbox_homeautomation_g.Controller.Settings.Status.{view}
use wallbox_homeautomation_g.Go.Float.{Float}
use wallbox_homeautomation_g.Go.Result.{Result, err, ok}
use wallbox_homeautomation_g.Go.Time.{Time}
use wallbox_homeautomation_g.Store.{Session}
use wallbox_homeautomation_g.Updater.{Info}
use wallbox_homeautomation_g.Web.Reply.{
  Context, Listings, Reply, SessionsFragment, StatusFragment, UpdateFragment, control_page,
  dashboard, failed, fragment, json_events, json_sessions, json_status, lang_of, other_error, sent,
  sessions_fragment, settings_page, update_fragment,
}
use wallbox_homeautomation_g.Web.Views.{new_session_vms, new_status_vm, new_update_vm}

-- `queryLimit` of the value that `QueryInt` reads, if there is one
unfoldable pub query_limit : Option ℤ → ℤ → ℤ
query_limit given fallback =
    let v = or_zero fallback given in if lt_ℤ (pos 0) v then v else fallback

abbrev pub default_sessions_limit : ℤ
default_sessions_limit = pos 20

abbrev pub default_events_limit : ℤ
default_events_limit = pos 50

-- what a server's pages are made with: the translation of a key, and the formatting of times
pub record Texts : Type 0 where
  pub translate : String → String → String
  pub rfc3339 : Time → String

-- an error of the store, or what is made of its rows
abbrev pub on_listing {ℓ κ} : {W : Type ℓ} {A : Type κ} → Result A → (A → Reply W) → Reply W
on_listing err reply = failed other_error
on_listing (ok a) reply = reply a

unfoldable pub update_fragment_of {ℓ} : (W : Type ℓ) ⦃f : Float W⦄ → Context → Info → UpdateFragment
update_fragment_of W x i = record { vm = new_update_vm W x.now i; lang = lang_of W x }

module _ {ℓ} {W : Type ℓ} ⦃f : Float W⦄ (texts : Texts) (x : Context) where
  unfoldable pub status_fragment : Controller W → StatusFragment
  status_fragment c = record { vm = new_status_vm texts.rfc3339 x.now (view c); lang = lang_of W x }

  unfoldable pub sessions_fragment_of : List (Session W) → SessionsFragment
  sessions_fragment_of ss = record {
    lang = lang_of W x;
    sessions = new_session_vms texts.rfc3339 ss;
  }

  unfoldable pub handle_control : Controller W → Reply W
  handle_control c = control_page (record {
    title = texts.translate (lang_of W x) "control.title";
    lang = lang_of W x;
    active = "control";
    status = status_fragment c;
  })

  unfoldable pub handle_settings : Info → Reply W
  handle_settings i = settings_page (record {
    title = texts.translate (lang_of W x) "settings.title";
    lang = lang_of W x;
    active = "settings";
    update = update_fragment_of W x i;
  })

  -- `renderControlStatusPartial`, `renderSettingsPartial`, `renderStatusPartial`,
  -- `handleDetailPartial` and `renderControlsPartial`, by the name of the template
  unfoldable pub render_partial : String → Controller W → Reply W
  render_partial name c = fragment name (status_fragment c)

  unfoldable pub render_update_partial : Info → Reply W
  render_update_partial i = update_fragment (update_fragment_of W x i)

  unfoldable pub handle_api_status : Controller W → Reply W
  handle_api_status c = json_status (new_status_vm texts.rfc3339 x.now (view c))

  module _ {κ} {D : Type κ} ⦃l : Listings W D⦄ where
    unfoldable pub handle_dashboard : Controller W → D → Reply W
    handle_dashboard c d = on_listing (l.recent_sessions default_sessions_limit d) λ ss.
        dashboard (record {
          title = texts.translate (lang_of W x) "dashboard.title";
          lang = lang_of W x;
          active = "status";
          status = status_fragment c;
          sessions = sessions_fragment_of ss;
        })

    unfoldable pub handle_sessions_partial : D → Reply W
    handle_sessions_partial d =
        on_listing (l.recent_sessions default_sessions_limit d)
          λ ss. sessions_fragment (sessions_fragment_of ss)

    unfoldable pub handle_api_sessions : Option ℤ → D → Reply W
    handle_api_sessions limit d =
        on_listing (l.recent_sessions (query_limit limit default_sessions_limit) d)
          λ ss. json_sessions (new_session_vms texts.rfc3339 ss)

module _ {ℓ κ} {W : Type ℓ} {D : Type κ} ⦃l : Listings W D⦄ where
  unfoldable pub handle_api_events : Option ℤ → D → Reply W
  handle_api_events limit d =
      on_listing (l.recent_events (query_limit limit default_events_limit) d) json_events

module _ {ℓ} {W : Type ℓ} where
  -- `handleHealthz` and `handleReadyz`
  unfoldable pub handle_healthz : Reply W
  handle_healthz = sent 200 "ok"

  unfoldable pub handle_readyz : Controller W → Reply W
  handle_readyz c = if c.last_snapshot.broker_connected then sent 200 "ok" else sent 503 "not ready"
