-- ===== src/Controller/Loop/Frame.antt =====
-- controller.go: what the loop-owned part of a tick leaves alone.
use wallbox_homeautomation_g.Base.{Bool, arith, ◌∙◌, ◌≡◌}
use wallbox_homeautomation_g.Base.Int.{ℤ}
use wallbox_homeautomation_g.Controller.Loop.{
  Plan, act, forced, limit_stage, mode_stage, record_state_change, remember_link,
}
use wallbox_homeautomation_g.Controller.Loop.Publish.{publish_limit_soc, publish_mode}
use wallbox_homeautomation_g.Controller.Loop.Session.{
  accumulate, close_session, open_session, session_edge, track_session,
}
use wallbox_homeautomation_g.Controller.Loop.Struct.{Controller}
use wallbox_homeautomation_g.Controller.Recorder.{Commander, Recorder}
use wallbox_homeautomation_g.Controller.State.{Decision, Inputs, State}
use wallbox_homeautomation_g.Go.Float.{Float}
use wallbox_homeautomation_g.Go.Time.{Time}

module _ {ℓ} {W : Type ℓ} ⦃f : Float W⦄ where
  -- The fields that the web layer reads under the lock, and the configuration.
  abbrev pub SameShared : Controller W → Controller W → Type ℓ
  SameShared c c' =
      (c'.cfg ≡ c.cfg)
      × (c'.ctrl ≡ c.ctrl)
      × (c'.state ≡ c.state)
      × (c'.timers ≡ c.timers)
      × (c'.last_decision ≡ c.last_decision)
      × (c'.last_snapshot ≡ c.last_snapshot)

  SameShared-trans : (a b c : Controller W) → SameShared a b → SameShared b c → SameShared a c
  SameShared-trans a b c h k = (k.0 ∙ h.0, k.1 ∙ h.1, k.2 ∙ h.2, k.3 ∙ h.3, k.4 ∙ h.4, k.5 ∙ h.5)

  -- What the publishing steps share with the session steps.
  abbrev pub SameSession : Controller W → Controller W → Type ℓ
  SameSession c c' =
      (c'.prev_charging ≡ c.prev_charging)
      × (c'.session_id ≡ c.session_id)
      × (c'.session_en_wh ≡ c.session_en_wh)
      × (c'.session_sum_w ≡ c.session_sum_w)
      × (c'.session_peak_w ≡ c.session_peak_w)
      × (c'.session_ticks ≡ c.session_ticks)

  abbrev pub SameMode : Controller W → Controller W → Type 0
  SameMode c c' = (c'.last_mode ≡ c.last_mode) × (c'.last_publish_at ≡ c.last_publish_at)

  abbrev pub SameLimit : Controller W → Controller W → Type 0
  SameLimit c c' =
      (c'.limit_soc_set ≡ c.limit_soc_set)
      × (c'.last_limit_soc ≡ c.last_limit_soc)
      × (c'.last_limit_publish_at ≡ c.last_limit_publish_at)

  module _ {κ} {D : Type κ} ⦃r : Recorder W D⦄ where
    pub publish_mode-frame :
        (answers : Commander) (now : Time) (dec : Decision) (inp : Inputs W) (s : W) (force : Bool)
        (c : Controller W) (d : D)
        → let c' = (publish_mode answers now dec inp s force c d).0 in
          SameShared c c' × SameSession c c' × SameLimit c c'
    unfolding publish_mode
    publish_mode-frame answers now dec inp s force c d = ground arith

    pub publish_limit_soc-frame :
        (answers : Commander) (now : Time) (target : ℤ) (inp : Inputs W) (s : W)
        (broker force : Bool) (c : Controller W) (d : D)
        → let c' = (publish_limit_soc answers now target inp s broker force c d).0 in
          SameShared c c' × SameSession c c' × SameMode c c'
    unfolding publish_limit_soc
    publish_limit_soc-frame answers now target inp s broker force c d = ground arith

    pub track_session-frame :
        (now : Time) (inp : Inputs W) (st : State) (c : Controller W) (d : D)
        → let c' = (track_session now inp st c d).0 in
          SameShared c c' × SameMode c c' × SameLimit c c'
    unfolding track_session session_edge open_session close_session accumulate
    track_session-frame now inp st c d = ground arith

    pub mode_stage-frame :
        (answers : Commander) (p : Plan W) (c : Controller W) (d : D)
        → let c' = (mode_stage answers p c d).0 in
          SameShared c c' × SameSession c c' × SameLimit c c'
    unfolding mode_stage remember_link
    mode_stage-frame answers p c d =
        publish_mode-frame answers p.now p.decision p.inputs p.surplus_w (forced p c)
          (remember_link p c) (record_state_change p d)

    pub limit_stage-frame :
        (answers : Commander) (p : Plan W) (force : Bool) (c : Controller W) (d : D)
        → let c' = (limit_stage answers p force c d).0 in
          SameShared c c' × SameSession c c' × SameMode c c'
    unfolding limit_stage
    limit_stage-frame answers p force c d =
        publish_limit_soc-frame answers p.now p.limit_target p.inputs p.surplus_w
          p.snap.broker_connected force c d

    -- The loop-owned part of a tick leaves the shared fields as the second locked section set them.
    pub act-frame :
        (answers : Commander) (p : Plan W) (c : Controller W) (d : D)
        → SameShared c (act answers p c d).0
    unfolding act
    act-frame answers p c d =
        let x = mode_stage answers p c d in
        let y = limit_stage answers p (forced p c) x.0 x.1 in
        let z = track_session p.now p.inputs p.decision.state y.0 y.1 in
        SameShared-trans c x.0 z.0 (mode_stage-frame answers p c d).0 (
          SameShared-trans x.0 y.0 z.0 (limit_stage-frame answers p (forced p c) x.0 x.1).0
            (track_session-frame p.now p.inputs p.decision.state y.0 y.1).0)
