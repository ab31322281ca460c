-- ===== src/Controller/Loop/Session/Totals.antt =====
-- A whole charge session of controller.go, from the rising edge to the falling one.
use wallbox_homeautomation_g.Base.{
  List, [], arith, false, if◌then◌else◌, refl, subst, true, ◌∙◌, ◌∷◌, ◌≡◌, ◌≢◌,
}
use wallbox_homeautomation_g.Base.Int.{eq_ℤ→≡, lt_ℤ, pos}
use wallbox_homeautomation_g.Controller.Loop.Session.{
  accumulate, average, close_session, open_session, reset_session, session_edge, soc_ptr,
  stop_reason_for, track_session,
}
use wallbox_homeautomation_g.Controller.Loop.Session.Tally.{
  AllCharging, IsTotalOf, IsTotalOf-trans, Moment, accumulate-ticks, samples, samples-++, track_all,
}
use wallbox_homeautomation_g.Controller.Loop.Struct.{Controller}
use wallbox_homeautomation_g.Controller.Recorder.{Recorder}
use wallbox_homeautomation_g.Go.Float.{Float, hours, nought}

module _ {ℓ κ} {W : Type ℓ} {D : Type κ} ⦃f : Float W⦄ ⦃r : Recorder W D⦄ where
  continues :
      (m : Moment W) (c : Controller W) (d : D)
      → m.inputs.is_charging ≡ true
      → c.prev_charging ≡ true
      → let c' = (track_session m.now m.inputs m.state c d).0 in
        (c'.prev_charging ≡ true)
        × (c'.session_id ≡ c.session_id)
        × (c'.cfg ≡ c.cfg)
        × IsTotalOf (hours c.cfg.decision_interval) (samples (m ∷ [])) c c'
  unfolding track_session session_edge accumulate samples
  continues m c d h k = (
    ground arith,
    ground arith,
    ground arith,
    record {
      energy = ground arith;
      sum = ground arith;
      peak = ground arith;
      ticks = λ n e b. ground (arith, accumulate-ticks m.inputs c n e);
    },
  )

  follows :
      (ms : List (Moment W)) (c : Controller W) (d : D)
      → AllCharging ms
      → c.prev_charging ≡ true
      → let c' = (track_all ms c d).0 in
        (c'.prev_charging ≡ true)
        × (c'.session_id ≡ c.session_id)
        × (c'.cfg ≡ c.cfg)
        × IsTotalOf (hours c.cfg.decision_interval) (samples ms) c c'
  unfolding track_all samples
  follows [] c d h k = (
    k,
    refl,
    refl,
    record { energy = refl; sum = refl; peak = refl; ticks = λ n e b. ground arith },
  )
  follows (m ∷ ms) c d h k =
      let x = track_session m.now m.inputs m.state c d in
      let one = continues m c d h.0 k in
      let rest = follows ms x.0 x.1 h.1 one.0 in
      let dt = hours c.cfg.decision_interval in
      (
        rest.0,
        rest.1 ∙ one.1,
        rest.2 ∙ one.2,
        rw (samples-++ m ms) (
            IsTotalOf-trans dt (samples (m ∷ [])) (samples ms) c x.0 (track_all ms x.0 x.1).0 one.3
              (subst
                (λ g.
                  IsTotalOf (hours g.decision_interval) (samples ms) x.0 (track_all ms x.0 x.1).0)
                one.2 rest.3)),
      )

  opens :
      (m : Moment W) (c : Controller W) (d : D)
      → m.inputs.is_charging ≡ true
      → c.prev_charging ≡ false
      → let c' = (track_session m.now m.inputs m.state c d).0 in
        (c'.prev_charging ≡ true)
        × (c'.session_id ≡ (open_session m.now m.inputs c d).0.session_id)
        × (c'.cfg ≡ c.cfg)
        × IsTotalOf (hours c.cfg.decision_interval) (samples (m ∷ [])) (reset_session c) c'
  unfolding track_session session_edge open_session accumulate samples
  opens m c d h k = (
    ground arith,
    ground arith,
    ground arith,
    record {
      energy = ground arith;
      sum = ground arith;
      peak = ground arith;
      ticks =
          λ n e b. ground (arith, accumulate-ticks m.inputs (open_session m.now m.inputs c d).0 n);
    },
  )

  falls :
      (m : Moment W) (c : Controller W) (d : D)
      → m.inputs.is_charging ≡ false
      → c.prev_charging ≡ true
      → c.session_id ≢ pos 0
      → (track_session m.now m.inputs m.state c d).1
        ≡ (r.end_session c.session_id m.now
            (stop_reason_for m.now m.state m.inputs)
            (soc_ptr m.inputs.vehicle_soc m.inputs.vehicle_soc_known)
            c.session_en_wh
            (if lt_ℤ (pos 0) c.session_ticks then average c else nought)
            c.session_peak_w
            d).0
  unfolding track_session session_edge close_session
  falls m c d h k id = ground (arith, eq_ℤ→≡ c.session_id (pos 0))

  -- From a tick at which evcc starts to charge, over further charging ticks, to one at which it
  -- stops: the session that the first tick opened is still the open one at the end, its energy, sum
  -- and peak are the folds of the charge powers at the ticks that were not stale, its tick count
  -- their number if that is below 2^63, and, if the database gave an id other than 0, the last tick
  -- ends that row with these totals.
  pub session-totals :
      (m last : Moment W) (ms : List (Moment W)) (c : Controller W) (d : D)
      → c.prev_charging ≡ false
      → AllCharging (m ∷ ms)
      → last.inputs.is_charging ≡ false
      → let (c', d') = track_all (m ∷ ms) c d in
        (c'.session_id ≡ (open_session m.now m.inputs c d).0.session_id)
        × IsTotalOf (hours c.cfg.decision_interval) (samples (m ∷ ms)) (reset_session c) c'
        × (c'.session_id ≢ pos 0
            → (track_session last.now last.inputs last.state c' d').1
              ≡ (r.end_session c'.session_id last.now
                  (stop_reason_for last.now last.state last.inputs)
                  (soc_ptr last.inputs.vehicle_soc last.inputs.vehicle_soc_known)
                  c'.session_en_wh
                  (if lt_ℤ (pos 0) c'.session_ticks then average c' else nought)
                  c'.session_peak_w
                  d').0)
  unfolding track_all
  session-totals m last ms c d k h stop =
      let x = track_session m.now m.inputs m.state c d in
      let y = track_all ms x.0 x.1 in
      let one = opens m c d h.0 k in
      let rest = follows ms x.0 x.1 h.1 one.0 in
      let dt = hours c.cfg.decision_interval in
      (
        rest.1 ∙ one.1,
        rw (samples-++ m ms) (
            IsTotalOf-trans dt (samples (m ∷ [])) (samples ms) (reset_session c) x.0 y.0 one.3 (
              subst (λ g. IsTotalOf (hours g.decision_interval) (samples ms) x.0 y.0) one.2
                rest.3)),
        λ id. falls last y.0 y.1 stop rest.0 id,
      )
