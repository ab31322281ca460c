-- ===== src/Evcc/Tests.antt =====
-- A message on a topic of evcc's, read by state.go.
use wallbox_homeautomation_g.Base.{◌≡◌}
use wallbox_homeautomation_g.Base.Int.{pos, ℤ}
use wallbox_homeautomation_g.Controller.Memory.{memory}
use wallbox_homeautomation_g.Evcc.Store.{Snapshot, apply_to, empty}
use wallbox_homeautomation_g.Evcc.Store.Frame.{apply_to-routes, record_metric}
use wallbox_homeautomation_g.Evcc.Topics.{new_topics}
use wallbox_homeautomation_g.Evcc.Topics.Distinct.{grid, topic_of}
use wallbox_homeautomation_g.Go.Float.{whole}

abbrev nothing_yet : Snapshot ℤ
nothing_yet = empty

apply_to-routes_example :
    apply_to
      (new_topics "evcc" "1")
      (topic_of (new_topics "evcc" "1") grid)
      "1500"
      (pos 9)
      nothing_yet
    ≡ record_metric grid "1500" (pos 9) nothing_yet
apply_to-routes_example = apply_to-routes "evcc" "1" grid "1500" (pos 9) nothing_yet
