-- ===== src/Web/History.antt =====
-- internal/web/handlers.go: GET /api/history. `parse` is the reading of an RFC3339 text, and a query
-- parameter that is missing reads as the empty text.
pub mod Window
use wallbox_homeautomation_g.Base.{Option, String, if◌then◌else◌, none, some, ℕ, ◌*◌, ◌==◌}
use wallbox_homeautomation_g.Base.Int.{lt_ℤ, pos, ◌-ℤ◌}
use wallbox_homeautomation_g.Go.Time.{Time, add, before, hour, since}
use wallbox_homeautomation_g.Web.Commands.{bad_request}
use wallbox_homeautomation_g.Web.Pages.{on_listing}
use wallbox_homeautomation_g.Web.Reply.{Listings, Reply, json_samples}

abbrev pub default_history_window : ℕ
default_history_window = 24 * hour

abbrev pub max_history_window : ℕ
max_history_window = 7 * 24 * hour

-- `none` is an error
abbrev pub bound_of : (String → Option Time) → String → Time → Option Time
bound_of parse text fallback = if text == "" then some fallback else parse text

-- the clamped window; `none` where the end is before the start
unfoldable pub clamp_window : Time → Time → Option (Time × Time)
clamp_window from to =
    if before to from
    then none
    else if lt_ℤ (pos max_history_window) (since to from)
    then some (add to (pos 0 -ℤ pos max_history_window), to)
    else some (from, to)

unfoldable pub default_from : Time → Time
default_from now = add now (pos 0 -ℤ pos default_history_window)

abbrev window_of : Option Time → Option Time → Option (Time × Time)
window_of none to = none
window_of (some from) none = none
window_of (some from) (some to) = clamp_window from to

unfoldable pub history_window :
    (String → Option Time) → Time → String → String → Option (Time × Time)
history_window parse now from_text to_text =
    window_of (bound_of parse from_text (default_from now)) (bound_of parse to_text now)

module _ {ℓ κ} {W : Type ℓ} {D : Type κ} ⦃l : Listings W D⦄ where
  abbrev samples_in : Option (Time × Time) → D → Reply W
  samples_in none d = bad_request
  samples_in (some (from, to)) d = on_listing (l.samples from to d) json_samples

  unfoldable pub handle_api_history : (String → Option Time) → Time → String → String → D → Reply W
  handle_api_history parse now from_text to_text d =
      samples_in (history_window parse now from_text to_text) d
