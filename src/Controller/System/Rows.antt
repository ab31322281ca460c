-- ===== src/Controller/System/Rows.antt =====
-- The running controller of controller.go on the tables of internal/store: the rows of
-- charge_sessions that are open, under every interleaving.
use wallbox_homeautomation_g.Base.{Bool, arith, refl, ◌≡◌}
use wallbox_homeautomation_g.Base.Int.{pos, ℤ, ◌<ℤ◌}
use wallbox_homeautomation_g.Config.{Control}
use wallbox_homeautomation_g.Controller.Loop.{
  Plan, act, commit, forced, limit_stage, mode_stage, record_sample, record_state_change,
}
use wallbox_homeautomation_g.Controller.Loop.Frame.{limit_stage-frame, mode_stage-frame}
use wallbox_homeautomation_g.Controller.Loop.Publish.{publish_limit_soc, publish_mode, record_event}
use wallbox_homeautomation_g.Controller.Loop.Session.{track_session}
use wallbox_homeautomation_g.Controller.Loop.Session.Edges.{IsTracked}
use wallbox_homeautomation_g.Controller.Loop.Struct.{Controller, new}
use wallbox_homeautomation_g.Controller.Recorder.{Commander}
use wallbox_homeautomation_g.Controller.Settings.{
  audit, set_auto_profile, set_charge_power, set_override, set_start_threshold, set_target_soc,
}
use wallbox_homeautomation_g.Controller.Settings.Startup.{prune, start_up}
use wallbox_homeautomation_g.Controller.System.{
  Reachable, Request, System, ask_override, ask_power, ask_profile, ask_target, ask_threshold, boot,
  booted, finish, prepare, request, serve, settle, step, sweep, ◌⇒◌,
}
use wallbox_homeautomation_g.Controller.System.Sessions.{
  IsTracked-same, Reachable-IsTracked, serve-session,
}
use wallbox_homeautomation_g.Go.Float.{Float}
use wallbox_homeautomation_g.Go.Time.{Time}
use wallbox_homeautomation_g.Store.Tables.{
  Tables, insert_event, insert_sample, prune_events, prune_samples, set_setting, tables,
}
use wallbox_homeautomation_g.Store.Tables.Open.{AllBelow, OpenAre}
use wallbox_homeautomation_g.Store.Tables.Track.{
  Agrees, Agrees-same, recover_dangling_session-Agrees, track_session-Agrees,
}

module _ {ℓ} {W : Type ℓ} where
  -- No row of a session was added or changed.
  abbrev SameRows : Tables W → Tables W → Type ℓ
  SameRows t t' = (t'.sessions ≡ t.sessions) × (t'.next_id ≡ t.next_id)

  -- What the start needs of the tables: ids as SQLite gives them, and the open rows of one session.
  pub record IsClean (t : Tables W) : Type 0 where
    pub positive : pos 0 <ℤ t.next_id
    pub below : AllBelow t.next_id t.sessions
    pub alone : (id : ℤ) × OpenAre id t.sessions

  Agrees-SameRows :
      (c c' : Controller W) (t t' : Tables W)
      → c'.session_id ≡ c.session_id
      → SameRows t t'
      → Agrees c t
      → Agrees c' t'
  Agrees-SameRows c c' t t' e same h = record {
    positive = rw (same.1) h.positive;
    below = rw (same.0, same.1) h.below;
    alone = rw (same.0, e) h.alone;
  }

module _ {ℓ} {W : Type ℓ} ⦃f : Float W⦄ where
  serve-SameRows :
      (now : Time) (q : Request W) (c : Controller W) (t : Tables W)
      → SameRows t (serve ⦃r = tables⦄ now q c t).1
  unfolding serve set_override set_charge_power set_auto_profile set_start_threshold set_target_soc
      audit set_setting insert_event
  serve-SameRows now (ask_override mode until bypass soc) c t = (refl, refl)
  serve-SameRows now (ask_power mode) c t = ground arith
  serve-SameRows now (ask_profile name) c t = ground arith
  serve-SameRows now (ask_threshold w) c t = ground arith
  serve-SameRows now (ask_target pct) c t = ground arith

  prune-SameRows :
      (now : Time) (c : Controller W) (t : Tables W) → SameRows t (prune ⦃r = tables⦄ now c t)
  unfolding prune prune_samples prune_events
  prune-SameRows now c t = (refl, refl)

  mode_stage-SameRows :
      (answers : Commander) (p : Plan W) (c : Controller W) (t : Tables W)
      → SameRows t (mode_stage ⦃r = tables⦄ answers p c t).1
  unfolding mode_stage publish_mode record_state_change record_event insert_event
  mode_stage-SameRows answers p c t = ground arith

  limit_stage-SameRows :
      (answers : Commander) (p : Plan W) (force : Bool) (c : Controller W) (t : Tables W)
      → SameRows t (limit_stage ⦃r = tables⦄ answers p force c t).1
  unfolding limit_stage publish_limit_soc record_event insert_event
  limit_stage-SameRows answers p force c t = ground arith

  record_sample-SameRows : (p : Plan W) (t : Tables W) → SameRows t (record_sample ⦃r = tables⦄ p t)
  unfolding record_sample insert_sample
  record_sample-SameRows p t = (refl, refl)

  act-Agrees :
      (answers : Commander) (p : Plan W) (c : Controller W) (t : Tables W)
      → IsTracked c
      → Agrees c t
      → let done = act ⦃r = tables⦄ answers p c t in Agrees done.0 done.1
  unfolding act
  act-Agrees answers p c t k h =
      let x = mode_stage ⦃r = tables⦄ answers p c t in
      let y = limit_stage ⦃r = tables⦄ answers p (forced p c) x.0 x.1 in
      let z = track_session ⦃r = tables⦄ p.now p.inputs p.decision.state y.0 y.1 in
      let after_mode = (mode_stage-frame ⦃r = tables⦄ answers p c t).1 in
      let after_limit = (limit_stage-frame ⦃r = tables⦄ answers p (forced p c) x.0 x.1).1 in
      let tracked = IsTracked-same x.0 y.0 after_limit (IsTracked-same c x.0 after_mode k) in
      let agree =
        Agrees-SameRows x.0 y.0 x.1 y.1 (after_limit.1)
          (limit_stage-SameRows answers p (forced p c) x.0 x.1)
          (Agrees-SameRows c x.0 t x.1 (after_mode.1) (mode_stage-SameRows answers p c t) h) in
      Agrees-SameRows z.0 z.0 z.1 (record_sample ⦃r = tables⦄ p z.1) refl
        (record_sample-SameRows p z.1)
        (track_session-Agrees p.now p.inputs p.decision.state y.0 y.1 tracked agree)

  booted-Agrees :
      (cfg : Control W) (now : Time) (t : Tables W)
      → IsClean t
      → let s = booted ⦃r = tables⦄ cfg now t in Agrees s.control s.database
  unfolding booted start_up
  booted-Agrees cfg now t h =
      recover_dangling_session-Agrees now (record (new cfg) { session_id = h.alone.0 })
        (start_up ⦃r = tables⦄ now (new cfg) t).0 t
        (record { positive = h.positive; below = h.below; alone = h.alone.1 })

  step-Agrees :
      (s t : System W (Tables W))
      → ◌⇒◌ ⦃r = tables⦄ s t
      → IsTracked s.control
      → Agrees s.control s.database
      → Agrees t.control t.database
  unfolding commit
  step-Agrees s t (prepare now snap c d) k h = h
  step-Agrees s t (settle p c d) k h = Agrees-same c t.control d refl h
  step-Agrees s t (finish answers p c d) k h = act-Agrees answers p c d k h
  step-Agrees s t (request now q _) k h =
      Agrees-SameRows s.control t.control s.database t.database
        ((serve-session ⦃r = tables⦄ now q s.control s.database).1)
        (serve-SameRows now q s.control s.database) h
  step-Agrees s t (sweep now _) k h =
      Agrees-SameRows s.control s.control s.database t.database refl
        (prune-SameRows now s.control s.database) h

  -- On tables whose statements do not fail, from a start at which the open rows are of one session:
  -- in every reachable state, under every interleaving, each row of charge_sessions that is open is
  -- that of the session which the controller tracks, so none is open while it tracks none.
  pub Reachable-Agrees :
      (cfg : Control W) (s : System W (Tables W))
      → Reachable ⦃r = tables⦄ cfg IsClean s
      → Agrees s.control s.database
  Reachable-Agrees cfg s (boot now t clean) = booted-Agrees cfg now t clean
  Reachable-Agrees cfg _ (step {s} {t} h e) =
      step-Agrees s t e (Reachable-IsTracked ⦃r = tables⦄ cfg IsClean s h)
        (Reachable-Agrees cfg s h)
