-- ===== src/Controller/Loop/Publish/Due.antt =====
-- controller.go: which commands a tick sends to evcc, and when.
use wallbox_homeautomation_g.Base.{
  ==_iff, List, [], arith, false, refl, true, ◌++◌, ◌↔◌, ◌∷◌, ◌≡◌, ◌≢◌, ◌⊎◌,
}
use wallbox_homeautomation_g.Base.Int.{eq_ℤ_self, eq_ℤ→≡, lt_ℤ_iff, ◌≤ℤ◌}
use wallbox_homeautomation_g.Controller.Loop.{
  Plan, act, forced, limit_stage, mode_stage, remember_link,
}
use wallbox_homeautomation_g.Controller.Loop.Frame.{SameLimit, mode_stage-frame}
use wallbox_homeautomation_g.Controller.Loop.Publish.{publish_limit_soc, publish_mode}
use wallbox_homeautomation_g.Controller.Loop.Struct.{Controller}
use wallbox_homeautomation_g.Controller.Recorder.{
  Command, Commander, Recorder, set_limit_soc, set_mode,
}
use wallbox_homeautomation_g.Go.Float.{Float}
use wallbox_homeautomation_g.Go.Time.{since}

module _ {ℓ} {W : Type ℓ} ⦃f : Float W⦄ where
  -- evcc or the broker has come back since the tick before
  abbrev pub Reconnected : Plan W → Controller W → Type 0
  Reconnected p c =
      ((p.snap.broker_connected ≡ true) × (c.prev_broker_connected ≡ false))
      ⊎ ((p.snap.online.value ≡ true) × (c.prev_online ≡ false))

  -- The mode of the decision is to be sent: it has changed, the link has come back, or the republish
  -- interval has passed.
  abbrev pub IsModeDue : Plan W → Controller W → Type 0
  IsModeDue p c =
      (p.decision.desired_mode ≢ c.last_mode)
      ⊎ Reconnected p c
      ⊎ (c.cfg.republish ≤ℤ since p.now c.last_publish_at)

  -- The limit is to be sent: the broker is connected, and evcc never accepted one, or it has changed,
  -- or the link has come back, or the republish interval has passed.
  abbrev pub IsLimitDue : Plan W → Controller W → Type 0
  IsLimitDue p c =
      (p.snap.broker_connected ≡ true)
      × ((c.limit_soc_set ≡ false)
          ⊎ (p.limit_target ≢ c.last_limit_soc)
          ⊎ Reconnected p c
          ⊎ (c.cfg.republish ≤ℤ since p.now c.last_limit_publish_at))

  forced_iff : (p : Plan W) (c : Controller W) → (forced p c ≡ true) ↔ Reconnected p c
  unfolding forced
  forced_iff p c = ground arith

-- The command alone if P holds, and none if not
abbrev pub SendsIf : Type 0 → Command → List Command → Type 0
SendsIf P x xs = (P × (xs ≡ x ∷ [])) ⊎ ((¬ P) × (xs ≡ []))

module _ {ℓ κ} {W : Type ℓ} {D : Type κ} ⦃f : Float W⦄ ⦃r : Recorder W D⦄ where
  mode_stage-SendsIf :
      (answers : Commander) (p : Plan W) (c : Controller W) (d : D)
      → SendsIf (IsModeDue p c) (set_mode p.decision.desired_mode) (mode_stage answers p c d).2
  unfolding mode_stage publish_mode remember_link
  mode_stage-SendsIf answers p c d = ground (
    arith,
    forced_iff p c,
    ==_iff p.decision.desired_mode c.last_mode,
    lt_ℤ_iff (since p.now c.last_publish_at) c.cfg.republish,
  )

  -- the limit of a controller whose memory of the limit is that of c
  limit_stage-SendsIf :
      (answers : Commander) (p : Plan W) (c c' : Controller W) (d : D)
      → c'.cfg ≡ c.cfg
      → SameLimit c c'
      → SendsIf
          (IsLimitDue p c)
          (set_limit_soc p.limit_target)
          (limit_stage answers p (forced p c) c' d).2
  unfolding limit_stage publish_limit_soc
  limit_stage-SendsIf answers p c c' d cfg (set, last, when) =
      rw (cfg, set, last, when)
        (ground (
          arith,
          forced_iff p c,
          eq_ℤ→≡ p.limit_target c.last_limit_soc,
          eq_ℤ_self c.last_limit_soc,
          lt_ℤ_iff (since p.now c.last_limit_publish_at) c.cfg.republish,
        ))

  -- The commands of a tick are the mode of its decision and then its `LimitSoCTarget`, each at most
  -- once. The mode is sent exactly if it is not the one remembered as published, or the broker or evcc
  -- is connected in the snapshot and was not at the tick before, or the republish interval has passed
  -- since the last publish. The limit is sent exactly if the broker is connected and no limit was
  -- accepted yet, or it is not the one remembered, or one of the two has come back, or its republish
  -- interval has passed.
  pub act-sends :
      (answers : Commander) (p : Plan W) (c : Controller W) (d : D)
      → (modes : List Command) × (limits : List Command) × ((act answers p c d).2 ≡ modes ++ limits)
        × SendsIf (IsModeDue p c) (set_mode p.decision.desired_mode) modes
        × SendsIf (IsLimitDue p c) (set_limit_soc p.limit_target) limits
  unfolding act
  act-sends answers p c d =
      let x = mode_stage answers p c d in
      let frame = mode_stage-frame answers p c d in
      (
        x.2,
        (limit_stage answers p (forced p c) x.0 x.1).2,
        refl,
        mode_stage-SendsIf answers p c d,
        limit_stage-SendsIf answers p c x.0 x.1 frame.0.0 frame.2,
      )
