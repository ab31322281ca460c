-- ===== src/Web/Examples.antt =====
-- What the runs of internal/web are given.
use wallbox_homeautomation_g.Base.{String, false}
use wallbox_homeautomation_g.Base.Int.{ℤ}
use wallbox_homeautomation_g.Controller.Examples.{after_noon, at_noon, default_cfg}
use wallbox_homeautomation_g.Controller.Memory.{Memory, blank_memory, memory}
use wallbox_homeautomation_g.Controller.System.{System, booted}
use wallbox_homeautomation_g.Go.Float.{whole}
use wallbox_homeautomation_g.Go.Time.{Time}
use wallbox_homeautomation_g.Web.Pages.{Texts}
use wallbox_homeautomation_g.Web.Reply.{Context}

-- Whole numbers as weights, with the texts of two of them.
abbrev pub header : String
header = "fr, en-US, De-AT ; q=1500, en;q=1500"

-- The system at start-up, and what a server is given.
abbrev pub running : System ℤ Memory
running = booted default_cfg at_noon blank_memory

abbrev pub rfc3339 : Time → String
rfc3339 at = "2024-06-01T12:00:00Z"

abbrev pub texts : Texts
texts = record { translate = λ lang key. key; rfc3339 = rfc3339 }

abbrev pub visit : Context
visit = record { now = after_noon; cookie = ""; accept_language = header; is_htmx = false }
