-- ===== src/Web/Language.antt =====
-- internal/web/handlers.go: GET /lang/:code. `parse` is url.Parse with the request URI of the URL.
pub mod Redirect
use wallbox_homeautomation_g.Base.{Option, String, if◌then◌else◌, none, not, some, ◌==◌}
use wallbox_homeautomation_g.Web.Commands.{bad_request}
use wallbox_homeautomation_g.Web.I18n.{is_supported}
use wallbox_homeautomation_g.Web.Reply.{Reply, redirected}

pub record Url : Type 0 where
  pub host : String
  -- `RequestURI`: the path and the query
  pub request_uri : String

abbrev pub path_of : String → Option Url → String
path_of host none = "/"
path_of host (some u) =
    if not (u.host == host) then "/" else if not (u.request_uri == "") then u.request_uri else "/"

unfoldable pub same_origin_path : (String → Option Url) → String → String → String
same_origin_path parse referer host = if referer == "" then "/" else path_of host (parse referer)

unfoldable pub handle_set_lang {ℓ} :
    {W : Type ℓ} → (String → Option Url) → String → String → String → Reply W
handle_set_lang parse code referer host =
    if not (is_supported code)
    then bad_request
    else redirected (some code) (same_origin_path parse referer host)
