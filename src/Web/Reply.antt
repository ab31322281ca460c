-- ===== src/Web/Reply.antt =====
-- internal/web/server.go, dto.go: what a handler answers, the store as the handlers know it, the
-- errors, and the language of a request. Headers other than those below and the texts of errors are
-- left out; the templates are given their models.
use wallbox_homeautomation_g.Base.{Bool, List, Option, String, ℕ}
use wallbox_homeautomation_g.Base.Int.{ℤ}
use wallbox_homeautomation_g.Go.Float.{Float}
use wallbox_homeautomation_g.Go.Result.{Result, ok}
use wallbox_homeautomation_g.Go.Time.{Time}
use wallbox_homeautomation_g.Store.{Event, Sample, Session}
use wallbox_homeautomation_g.Store.Listing.{recent_events, recent_sessions, samples_between}
use wallbox_homeautomation_g.Store.Tables.{Tables}
use wallbox_homeautomation_g.Web.I18n.{resolve_lang}
use wallbox_homeautomation_g.Web.Views.{SessionVm, StatusVm, UpdateVm}

-- the wrappers of the view models with the request's language
pub record StatusFragment : Type 0 where
  pub vm : StatusVm
  pub lang : String

pub record SessionsFragment : Type 0 where
  pub lang : String
  pub sessions : List SessionVm

pub record UpdateFragment : Type 0 where
  pub vm : UpdateVm
  pub lang : String

pub record DashboardVm : Type 0 where
  pub title : String
  pub lang : String
  pub active : String
  pub status : StatusFragment
  pub sessions : SessionsFragment

pub record ControlVm : Type 0 where
  pub title : String
  pub lang : String
  pub active : String
  pub status : StatusFragment

pub record SettingsVm : Type 0 where
  pub title : String
  pub lang : String
  pub active : String
  pub update : UpdateFragment

pub record SetupVm : Type 0 where
  pub title : String
  pub lang : String
  pub active : String
  pub has_ca_root : Bool

-- `fiber.NewError`, or any other error
pub data HttpError : Type 0 where
  fiber_error : ℕ → HttpError
  other_error : HttpError

pub data Reply {ℓ} (W : Type ℓ) : Type ℓ where
  dashboard : DashboardVm → Reply W
  control_page : ControlVm → Reply W
  settings_page : SettingsVm → Reply W
  setup_page : SetupVm → Reply W
  -- a partial, by its name
  fragment : String → StatusFragment → Reply W
  sessions_fragment : SessionsFragment → Reply W
  update_fragment : UpdateFragment → Reply W
  json_status : StatusVm → Reply W
  json_sessions : List SessionVm → Reply W
  json_events : List (Event W) → Reply W
  json_samples : List (Sample W) → Reply W
  json_update : UpdateVm → Reply W
  -- {"ok": true}
  acknowledged : Reply W
  -- a status and a text
  sent : ℕ → String → Reply W
  -- the cookie `lang`, if one is set, and the target
  redirected : Option String → String → Reply W
  -- the type of the content, the name of the file, and the content
  download : String → String → String → Reply W
  failed : HttpError → Reply W

-- the subset of the store that the handlers need
pub record Listings {ℓ κ} (W : Type ℓ) (D : Type κ) : Type (ℓ ⊔ κ) where
  pub recent_sessions : ℤ → D → Result (List (Session W))
  pub recent_events : ℤ → D → Result (List (Event W))
  pub samples : Time → Time → D → Result (List (Sample W))

instance abbrev pub tables_listings {ℓ} : {W : Type ℓ} → Listings W (Tables W)
tables_listings = record {
  recent_sessions = λ limit t. ok (recent_sessions limit t);
  recent_events = λ limit t. ok (recent_events limit t);
  samples = λ from to t. ok (samples_between from to t);
}

-- `errorHandler`: the status of the JSON error
unfoldable pub error_handler : HttpError → ℕ
error_handler (fiber_error code) = code
error_handler other_error = 500

unfoldable pub status_of {ℓ} : {W : Type ℓ} → Reply W → ℕ
status_of (sent code body) = code
status_of (redirected cookie target) = 302
status_of (failed e) = error_handler e
status_of _ = 200

-- What a handler has of a request, beside its parameters: the time, the cookie `lang`, the
-- Accept-Language header, and whether htmx made it.
pub record Context : Type 0 where
  pub now : Time
  pub cookie : String
  pub accept_language : String
  pub is_htmx : Bool

-- `langMiddleware` and `langFromCtx`
unfoldable pub lang_of {ℓ} : (W : Type ℓ) ⦃f : Float W⦄ → Context → String
lang_of W c = resolve_lang W c.cookie c.accept_language
