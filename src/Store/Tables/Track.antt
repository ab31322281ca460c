-- ===== src/Store/Tables/Track.antt =====
-- The session that controller.go tracks, against the open rows of the table of sessions.go.
use wallbox_homeautomation_g.Base.{
  Bool, Bool-cases, Option, String, arith, if◌then◌else◌, inl, inr, none, not, refl, some, true,
  ◌&&◌, ◌≡◌,
}
use wallbox_homeautomation_g.Base.Int.{eq_ℤ, int_laws, lt_ℤ, pos, ℤ, ◌<ℤ◌}
use wallbox_homeautomation_g.Controller.Loop.Session.{
  accumulate, average, close_session, open_session, persist_metrics, session_edge, soc_ptr,
  stop_reason_for, track_session,
}
use wallbox_homeautomation_g.Controller.Loop.Session.Edges.{IsTracked}
use wallbox_homeautomation_g.Controller.Loop.Struct.{Controller}
use wallbox_homeautomation_g.Controller.Settings.Startup.{recover_dangling_session}
use wallbox_homeautomation_g.Controller.State.{Inputs, State}
use wallbox_homeautomation_g.Go.Float.{Float, nought}
use wallbox_homeautomation_g.Go.Time.{Time}
use wallbox_homeautomation_g.Store.{Session}
use wallbox_homeautomation_g.Store.Tables.{
  Tables, end_session, ended, is_open, newest_open, start_session, tables, update_session_metrics,
  update_where, with_sessions,
}
use wallbox_homeautomation_g.Store.Tables.Open.{
  AllBelow, AllClosed-OpenAre, OpenAre, OpenAre-AllClosed, append-AllBelow, append-OpenAre,
  newest_open-AllClosed, newest_open-OpenAre, update_where-AllBelow, update_where-AllClosed,
  update_where-OpenAre,
}

module _ {ℓ} {W : Type ℓ} where
  -- The rows still open are those of the session that the controller tracks.
  pub record Agrees (c : Controller W) (t : Tables W) : Type 0 where
    pub positive : pos 0 <ℤ t.next_id
    pub below : AllBelow t.next_id t.sessions
    pub alone : OpenAre c.session_id t.sessions

  pub Agrees-same :
      (c c' : Controller W) (t : Tables W) → c'.session_id ≡ c.session_id → Agrees c t → Agrees c' t
  Agrees-same c c' t e h = record { positive = h.positive; below = h.below; alone = rw e h.alone }

module _ {ℓ} {W : Type ℓ} ⦃f : Float W⦄ where
  open_session-Agrees :
      (now : Time) (inp : Inputs W) (c : Controller W) (t : Tables W)
      → c.session_id ≡ pos 0
      → Agrees c t
      → let (c', t') = open_session ⦃r = tables⦄ now inp c t in Agrees c' t'
  unfolding open_session start_session
  open_session-Agrees now inp c t z h = record {
    positive = omega (int_laws, h.positive);
    below = append-AllBelow t.next_id t.sessions _ h.below h.positive refl;
    alone =
        append-OpenAre t.sessions _
          (OpenAre-AllClosed t.next_id t.sessions h.below (rw z at h.alone));
  }

  -- an update that leaves ids alone and opens no session again
  update-Agrees :
      (c : Controller W) (t : Tables W) (p : Session W → Bool) (g : Session W → Session W)
      → ((s : Session W) → (g s).id ≡ s.id)
      → ((s : Session W) → is_open (g s) ≡ true → is_open s ≡ true)
      → Agrees c t
      → Agrees c (with_sessions t (update_where p g t.sessions).0)
  update-Agrees c t p g same opens h = record {
    positive = h.positive;
    below = update_where-AllBelow t.next_id p g t.sessions same h.below;
    alone = update_where-OpenAre c.session_id p g t.sessions same opens h.alone;
  }

  persist_metrics-Agrees :
      (c : Controller W) (t : Tables W) → Agrees c t → Agrees c (persist_metrics ⦃r = tables⦄ c t)
  unfolding persist_metrics update_session_metrics is_open
  persist_metrics-Agrees c t h = ground (
    arith,
    update-Agrees c t (λ s. eq_ℤ s.id c.session_id && is_open s)
        (λ s. record s {
          energy_wh = c.session_en_wh;
          avg_charge_w = average c;
          peak_charge_w = c.session_peak_w;
        })
        (λ s. refl) (λ s o. o) h,
  )

  end_session-sessions :
      (id : ℤ) (at : Time) (reason : String) (soc : Option ℤ) (energy mean peak : W) (t : Tables W)
      → (end_session id at reason soc energy mean peak t).0
        ≡ with_sessions t
            (update_where (λ s. eq_ℤ s.id id) (ended at reason soc energy mean peak) t.sessions).0
  unfolding end_session
  end_session-sessions id at reason soc energy mean peak t = ground arith

  -- Ending the session that the open rows belong to leaves none open.
  end_session-Agrees :
      (c c' : Controller W) (at : Time) (reason : String) (soc : Option ℤ) (energy mean peak : W)
      (t : Tables W)
      → Agrees c t
      → Agrees c' (end_session c.session_id at reason soc energy mean peak t).0
  unfolding ended
  end_session-Agrees c c' at reason soc energy mean peak t h =
      let p : Session W → Bool = λ s. eq_ℤ s.id c.session_id in
      let g : Session W → Session W = ended at reason soc energy mean peak in
      rw (end_session-sessions c.session_id at reason soc energy mean peak t) (record {
        positive = h.positive;
        below = update_where-AllBelow t.next_id p g t.sessions (λ s. refl) h.below;
        alone =
            AllClosed-OpenAre c'.session_id (update_where p g t.sessions).0 (
              update_where-AllClosed c.session_id at reason soc energy mean peak t.sessions
                h.alone);
      })

  close_session-Agrees :
      (now : Time) (inp : Inputs W) (reason : String) (c : Controller W) (t : Tables W)
      → Agrees c t
      → let (c', t') = close_session ⦃r = tables⦄ now inp reason c t in Agrees c' t'
  unfolding close_session
  close_session-Agrees now inp reason c t h = elim (Bool-cases (eq_ℤ c.session_id (pos 0))) [
    | inl same ↦ rw same h
    | inr other ↦ rw other (
        end_session-Agrees c (record c { session_id = pos 0 }) now reason
          (soc_ptr inp.vehicle_soc inp.vehicle_soc_known) c.session_en_wh
          (if lt_ℤ (pos 0) c.session_ticks then average c else nought) c.session_peak_w t h)
  ]

  session_edge-Agrees :
      (now : Time) (inp : Inputs W) (st : State) (c : Controller W) (t : Tables W)
      → IsTracked c
      → Agrees c t
      → let (c', t') = session_edge ⦃r = tables⦄ now inp st c t in Agrees c' t'
  unfolding session_edge
  session_edge-Agrees now inp st c t k h = ground (
    arith,
    open_session-Agrees now inp c t,
    close_session-Agrees now inp (stop_reason_for now st inp) c t h,
  )

  -- On a database whose statements do not fail, a tick keeps the controller and its table in step:
  -- whenever no session was open unless evcc was charging, and the rows still open were those of
  -- the session that the controller tracks, the latter holds after `trackSession` again. So no row
  -- is left open behind the controller's back, and none is opened twice.
  pub track_session-Agrees :
      (now : Time) (inp : Inputs W) (st : State) (c : Controller W) (t : Tables W)
      → IsTracked c
      → Agrees c t
      → let (c', t') = track_session ⦃r = tables⦄ now inp st c t in Agrees c' t'
  unfolding track_session accumulate
  track_session-Agrees now inp st c t k h =
      let x = session_edge ⦃r = tables⦄ now inp st c t in
      let edge = session_edge-Agrees now inp st c t k h in
      let c₂ = accumulate inp x.0 in
      elim (Bool-cases (inp.is_charging && not inp.stale)) [
        | inl counted ↦ rw counted (
            Agrees-same c₂ (record c₂ { prev_charging = inp.is_charging })
              (persist_metrics ⦃r = tables⦄ c₂ x.1) refl
              (persist_metrics-Agrees c₂ x.1 (Agrees-same x.0 c₂ x.1 refl edge)))
        | inr skipped ↦
            rw skipped
              (Agrees-same x.0 (record (x.0) { prev_charging = inp.is_charging }) x.1 refl edge)
      ]

  recovered :
      (now : Time) (c c' : Controller W) (t : Tables W)
      → Agrees c t
      → (o : Option (Session W)) → newest_open t.sessions ≡ o
      → Agrees c' (elim o as (λ x. Tables W) [
        | none ↦ t
        | some s ↦
            (end_session s.id now "restart" none s.energy_wh s.avg_charge_w s.peak_charge_w t).0
      ])
  recovered now c c' t h none e = record {
    positive = h.positive;
    below = h.below;
    alone = AllClosed-OpenAre c'.session_id t.sessions (newest_open-AllClosed t.sessions e);
  }
  recovered now c c' t h (some s) e =
      end_session-Agrees (record c { session_id = s.id }) c' now "restart" none s.energy_wh
        s.avg_charge_w s.peak_charge_w t
        (Agrees-same c (record c { session_id = s.id }) t
          (newest_open-OpenAre c.session_id t.sessions s h.alone e) h)

  -- Where the rows that are open at the start are of one session, none is left open, so any
  -- controller agrees. (Of two sessions only the newer one is ended.)
  pub recover_dangling_session-Agrees :
      (now : Time) (c c' : Controller W) (t : Tables W)
      → Agrees c t
      → Agrees c' (recover_dangling_session W ⦃r = tables⦄ now t)
  unfolding recover_dangling_session
  recover_dangling_session-Agrees now c c' t h =
      recovered now c c' t h (newest_open t.sessions) refl
