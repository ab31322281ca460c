-- ===== src/Controller/Loop/Session.antt =====
-- controller.go: charge sessions, opened and closed on the edges of evcc's charging flag.
pub mod Edges
pub mod Tally
pub mod Totals
use wallbox_homeautomation_g.Base.{Bool, Option, String, if◌then◌else◌, none, not, some, ◌&&◌}
use wallbox_homeautomation_g.Base.Int.{eq_ℤ, int64, lt_ℤ, pos, ℤ, ◌+ℤ◌}
use wallbox_homeautomation_g.Controller.Loop.Struct.{Controller}
use wallbox_homeautomation_g.Controller.Policy.{override_active}
use wallbox_homeautomation_g.Controller.Recorder.{Recorder}
use wallbox_homeautomation_g.Controller.State.{Inputs, State, failsafe, soc_reached}
use wallbox_homeautomation_g.Go.Float.{Float, hours, nought}
use wallbox_homeautomation_g.Go.Result.{err, ok}
use wallbox_homeautomation_g.Go.Time.{Time}

unfoldable pub soc_ptr : ℤ → Bool → Option ℤ
soc_ptr v known = if known then some v else none

module _ {ℓ} {W : Type ℓ} ⦃f : Float W⦄ where
  unfoldable pub start_reason_for : Time → Inputs W → String
  start_reason_for now inp = if override_active now inp then "override" else "surplus"

  unfoldable pub stop_reason_for : Time → State → Inputs W → String
  stop_reason_for now soc_reached inp = "soc_cap"
  stop_reason_for now failsafe inp = "stale"
  stop_reason_for now _ inp = if override_active now inp then "override" else "surplus_low"

  -- `float64(c.sessionTicks)` divides the sum of the samples.
  unfoldable pub average : Controller W → W
  average c = f.div c.session_sum_w (f.of_int c.session_ticks)

  abbrev pub reset_session : Controller W → Controller W
  reset_session c = record c {
    session_peak_w = nought;
    session_en_wh = nought;
    session_sum_w = nought;
    session_ticks = pos 0;
  }

  unfoldable pub accumulate : Inputs W → Controller W → Controller W
  accumulate inp c = record c {
    session_en_wh = f.add c.session_en_wh (f.mul inp.charge_w (hours c.cfg.decision_interval));
    session_sum_w = f.add c.session_sum_w inp.charge_w;
    session_ticks = int64 (c.session_ticks +ℤ pos 1);
    session_peak_w = if f.lt c.session_peak_w inp.charge_w then inp.charge_w else c.session_peak_w;
  }

  module _ {κ} {D : Type κ} ⦃r : Recorder W D⦄ where
    unfoldable pub open_session : Time → Inputs W → Controller W → D → Controller W × D
    open_session now inp c d =
        let c₁ = reset_session c in
        let (d₁, started) =
          r.start_session now (start_reason_for now inp)
            (soc_ptr inp.vehicle_soc inp.vehicle_soc_known) d in
        elim started [ err ↦ (c₁, d₁) | ok id ↦ (record c₁ { session_id = id }, d₁) ]

    unfoldable pub close_session : Time → Inputs W → String → Controller W → D → Controller W × D
    close_session now inp reason c d =
        if eq_ℤ c.session_id (pos 0)
        then (c, d)
        else let avg = if lt_ℤ (pos 0) c.session_ticks then average c else nought in
          let (d₁, ended) =
            r.end_session c.session_id now reason (soc_ptr inp.vehicle_soc inp.vehicle_soc_known)
              c.session_en_wh avg c.session_peak_w d in
          (record c { session_id = pos 0 }, d₁)

    -- the `switch` on the charging edge
    unfoldable pub session_edge : Time → Inputs W → State → Controller W → D → Controller W × D
    session_edge now inp st c d =
        if inp.is_charging && not c.prev_charging
        then open_session now inp c d
        else if not inp.is_charging && c.prev_charging
        then close_session now inp (stop_reason_for now st inp) c d
        else (c, d)

    unfoldable pub persist_metrics : Controller W → D → D
    persist_metrics c d =
        if eq_ℤ c.session_id (pos 0)
        then d
        else (r.update_session_metrics c.session_id c.session_en_wh (average c) c.session_peak_w
            d).0

    unfoldable pub track_session : Time → Inputs W → State → Controller W → D → Controller W × D
    track_session now inp st c d =
        let (c₁, d₁) = session_edge now inp st c d in
        if inp.is_charging && not inp.stale
        then (let c₂ = accumulate inp c₁ in
            (record c₂ { prev_charging = inp.is_charging }, persist_metrics c₂ d₁))
        else (record c₁ { prev_charging = inp.is_charging }, d₁)
