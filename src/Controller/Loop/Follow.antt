-- ===== src/Controller/Loop/Follow.antt =====
-- controller.go: what evcc was last told by the commands that it accepted, against what the
-- controller remembers of it.
use wallbox_homeautomation_g.Base.{
  ==→≡, Bool, List, Option, String, [], arith, false, if◌then◌else◌, none, refl, some, true, ◌++◌,
  ◌∙◌, ◌∷◌, ◌≡◌, ◌≢◌, ◌⊎◌,
}
use wallbox_homeautomation_g.Base.Int.{eq_ℤ→≡, ℤ}
use wallbox_homeautomation_g.Controller.Loop.{
  Plan, act, forced, limit_stage, mode_stage, record_state_change, remember_link,
}
use wallbox_homeautomation_g.Controller.Loop.Frame.{track_session-frame}
use wallbox_homeautomation_g.Controller.Loop.Publish.{publish_limit_soc, publish_mode}
use wallbox_homeautomation_g.Controller.Loop.Struct.{Controller}
use wallbox_homeautomation_g.Controller.Recorder.{
  Command, Commander, Recorder, set_limit_soc, set_mode,
}
use wallbox_homeautomation_g.Controller.State.{Decision, Inputs}
use wallbox_homeautomation_g.Go.Float.{Float}
use wallbox_homeautomation_g.Go.Time.{Time}

-- The last mode and the last limit that evcc accepted, if there was one.
pub record Told : Type 0 where
  pub mode : Option String
  pub limit : Option ℤ

abbrev pub nothing_told : Told
nothing_told = record { mode = none; limit = none }

abbrev heard : Command → Told → Told
heard (set_mode m) t = record t { mode = some m }
heard (set_limit_soc n) t = record t { limit = some n }

-- what evcc was last told after it was sent these commands
unfoldable pub hear : Commander → List Command → Told → Told
hear answers [] t = t
hear answers (x ∷ xs) t = hear answers xs (if answers x then heard x t else t)

hear-++ :
    (answers : Commander) (xs ys : List Command) (t : Told)
    → hear answers (xs ++ ys) t ≡ hear answers ys (hear answers xs t)
unfolding hear
hear-++ answers [] ys t = refl
hear-++ answers (x ∷ xs) ys t = hear-++ answers xs ys (if answers x then heard x t else t)

module _ {ℓ} {W : Type ℓ} ⦃f : Float W⦄ where
  -- What the controller remembers as published is what evcc was last told.
  pub record Knows (t : Told) (c : Controller W) : Type 0 where
    pub mode : (c.last_mode ≡ "") ⊎ (t.mode ≡ some c.last_mode)
    pub limit : (c.limit_soc_set ≡ false) ⊎ (t.limit ≡ some c.last_limit_soc)

module _ {ℓ κ} {W : Type ℓ} {D : Type κ} ⦃f : Float W⦄ ⦃r : Recorder W D⦄ where
  publish_mode-told :
      (answers : Commander) (now : Time) (dec : Decision) (inp : Inputs W) (s : W) (force : Bool)
      (c : Controller W) (d : D) (t : Told)
      → dec.desired_mode ≢ ""
      → Knows t c
      → let (c', d', sent) = publish_mode answers now dec inp s force c d in
        Knows (hear answers sent t) c'
        × ((hear answers sent t).limit ≡ t.limit)
        × (answers (set_mode dec.desired_mode) ≡ true
            → (hear answers sent t).mode ≡ some dec.desired_mode)
  unfolding publish_mode hear
  publish_mode-told answers now dec inp s force c d t h k =
      ground (arith, ==→≡ dec.desired_mode c.last_mode, k.mode, k.limit)

  publish_limit_soc-told :
      (answers : Commander) (now : Time) (target : ℤ) (inp : Inputs W) (s : W) (broker force : Bool)
      (c : Controller W) (d : D) (t : Told)
      → Knows t c
      → let (c', d', sent) = publish_limit_soc answers now target inp s broker force c d in
        Knows (hear answers sent t) c'
        × ((hear answers sent t).mode ≡ t.mode)
        × (broker ≡ true
            → answers (set_limit_soc target) ≡ true
            → (hear answers sent t).limit ≡ some target)
  unfolding publish_limit_soc hear
  publish_limit_soc-told answers now target inp s broker force c d t k =
      ground (arith, eq_ℤ→≡ target c.last_limit_soc, k.mode, k.limit)

  mode_stage-told :
      (answers : Commander) (p : Plan W) (c : Controller W) (d : D) (t : Told)
      → p.decision.desired_mode ≢ ""
      → Knows t c
      → let (c', d', sent) = mode_stage answers p c d in
        Knows (hear answers sent t) c'
        × ((hear answers sent t).limit ≡ t.limit)
        × (answers (set_mode p.decision.desired_mode) ≡ true
            → (hear answers sent t).mode ≡ some p.decision.desired_mode)
  unfolding mode_stage remember_link
  mode_stage-told answers p c d t h k =
      publish_mode-told answers p.now p.decision p.inputs p.surplus_w (forced p c)
        (remember_link p c) (record_state_change p d) t h
        (record { mode = k.mode; limit = k.limit })

  limit_stage-told :
      (answers : Commander) (p : Plan W) (force : Bool) (c : Controller W) (d : D) (t : Told)
      → Knows t c
      → let (c', d', sent) = limit_stage answers p force c d in
        Knows (hear answers sent t) c'
        × ((hear answers sent t).mode ≡ t.mode)
        × (p.snap.broker_connected ≡ true
            → answers (set_limit_soc p.limit_target) ≡ true
            → (hear answers sent t).limit ≡ some p.limit_target)
  unfolding limit_stage
  limit_stage-told answers p force c d t k =
      publish_limit_soc-told answers p.now p.limit_target p.inputs p.surplus_w
        p.snap.broker_connected force c d t k

  pub act-told :
      (answers : Commander) (p : Plan W) (c : Controller W) (d : D) (t : Told)
      → p.decision.desired_mode ≢ ""
      → Knows t c
      → let (c', d', sent) = act answers p c d in
        let t' = hear answers sent t in
        Knows t' c'
        × (answers (set_mode p.decision.desired_mode) ≡ true
            → t'.mode ≡ some p.decision.desired_mode)
        × (p.snap.broker_connected ≡ true
            → answers (set_limit_soc p.limit_target) ≡ true
            → t'.limit ≡ some p.limit_target)
  unfolding act
  act-told answers p c d t h k =
      let x = mode_stage answers p c d in
      let y = limit_stage answers p (forced p c) x.0 x.1 in
      let first = mode_stage-told answers p c d t h k in
      let t₁ = hear answers x.2 t in
      let second = limit_stage-told answers p (forced p c) x.0 x.1 t₁ first.0 in
      let same = track_session-frame p.now p.inputs p.decision.state y.0 y.1 in
      rw (hear-++ answers x.2 y.2 t) (
        record {
          mode = rw (same.1.0) second.0.mode;
          limit = rw (same.2.0, same.2.1) second.0.limit;
        },
        λ accepts. second.1 ∙ first.2 accepts,
        second.2,
      )
