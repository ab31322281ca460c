-- ===== src/Controller/Loop/Publish.antt =====
-- controller.go: what is published to evcc, and the audit events about it.
pub mod Due
use wallbox_homeautomation_g.Base.{
  Bool, List, String, [], if◌then◌else◌, not, true, ◌&&◌, ◌==◌, ◌∷◌,
}
use wallbox_homeautomation_g.Base.Int.{eq_ℤ, lt_ℤ, pos, ℤ}
use wallbox_homeautomation_g.Controller.Loop.Struct.{Controller}
use wallbox_homeautomation_g.Controller.Policy.{surplus}
use wallbox_homeautomation_g.Controller.Recorder.{
  Command, Commander, Recorder, set_limit_soc, set_mode,
}
use wallbox_homeautomation_g.Controller.State.{Decision, Inputs}
use wallbox_homeautomation_g.Go.Float.{Float, nought}
use wallbox_homeautomation_g.Go.Strconv.{itoa}
use wallbox_homeautomation_g.Go.Strings.{◌+s◌}
use wallbox_homeautomation_g.Go.Time.{Time, since}
use wallbox_homeautomation_g.Store.{Event}

module _ {ℓ} {W : Type ℓ} ⦃f : Float W⦄ where
  abbrev pub blank_event : Time → String → Event W
  blank_event now kind = record {
    ts = now;
    kind = kind;
    from_state = "";
    to_state = "";
    action = "";
    surplus_w = nought;
    grid_w = nought;
    pv_w = nought;
    battery_soc = pos 0;
    battery_w = nought;
    vehicle_soc = pos 0;
    charge_w = nought;
    detail = "";
  }

  module _ {κ} {D : Type κ} ⦃r : Recorder W D⦄ where
    unfoldable pub record_event : Event W → Inputs W → W → D → D
    record_event e inp surplus d =
        (r.insert_event
          (record e {
            surplus_w = surplus;
            grid_w = inp.grid_w;
            pv_w = inp.pv_w;
            battery_soc = inp.battery_soc;
            battery_w = inp.battery_w;
            vehicle_soc = inp.vehicle_soc;
            charge_w = inp.charge_w;
          })
          d).0

    unfoldable pub publish_mode :
        Commander
        → Time
        → Decision
        → Inputs W
        → W
        → Bool
        → Controller W
        → D
        → Controller W × D × List Command
    publish_mode answers now dec inp surplus force c d =
        let same = dec.desired_mode == c.last_mode in
        let command = set_mode dec.desired_mode in
        if same && not force && lt_ℤ (since now c.last_publish_at) c.cfg.republish
        then (c, d, [])
        else if not (answers command)
        then (c, d, command ∷ [])
        else (
          record c { last_mode = dec.desired_mode; last_publish_at = now },
          if same
              then d
              else record_event
                  (record (blank_event now "command") {
                    action = "set_mode:" +s dec.desired_mode;
                    detail = dec.reason;
                  })
                  inp surplus d,
          command ∷ [],
        )

    unfoldable pub publish_limit_soc :
        Commander
        → Time
        → ℤ
        → Inputs W
        → W
        → Bool
        → Bool
        → Controller W
        → D
        → Controller W × D × List Command
    publish_limit_soc answers now target inp surplus broker_connected force c d =
        let same = eq_ℤ target c.last_limit_soc in
        let command = set_limit_soc target in
        if not broker_connected
        then (c, d, [])
        else if c.limit_soc_set
            && same
            && not force
            && lt_ℤ (since now c.last_limit_publish_at) c.cfg.republish
        then (c, d, [])
        else if not (answers command)
        then (c, d, command ∷ [])
        else (
          record c { limit_soc_set = true; last_limit_soc = target; last_limit_publish_at = now },
          if not same && c.limit_soc_set
              then record_event
                  (record (blank_event now "command") { action = "set_limit_soc:" +s itoa target })
                  inp surplus d
              else d,
          command ∷ [],
        )
