-- ===== src/Controller/Policy/History.antt =====
-- Sequences of control ticks: how `tick` of controller.go threads state and timers through `Decide`.
use wallbox_homeautomation_g.Base.{List, [], arith, false, if◌then◌else◌, true, ◌∷◌, ◌≡◌, ◌⊎◌}
use wallbox_homeautomation_g.Config.{Control}
use wallbox_homeautomation_g.Controller.Policy.{
  decide, effective_profile, effective_start_threshold, is_latch, latch_trigger, override_active,
  reset_timers, surplus,
}
use wallbox_homeautomation_g.Controller.Policy.Diagram.{IsTimed, decide-IsTimed, decide-⟶, ◌⟶◌}
use wallbox_homeautomation_g.Controller.Policy.Safety.{MayCharge}
use wallbox_homeautomation_g.Controller.State.{Inputs, State, Timers, idle}
use wallbox_homeautomation_g.Go.Float.{Float}
use wallbox_homeautomation_g.Go.Time.{Time, is_zero, zero_time-is_zero}

pub record Tick {ℓ} (W : Type ℓ) : Type ℓ where
  pub now : Time
  pub inputs : Inputs W

pub record Position : Type 0 where
  pub state : State
  pub timers : Timers

abbrev pub initial : Position
initial = record { state = idle; timers = reset_timers }

module _ {ℓ} {W : Type ℓ} ⦃f : Float W⦄ where
  unfoldable pub advance : Control W → Tick W → Position → Position
  advance cfg t p =
      let d = decide t.now t.inputs p.state p.timers cfg in
      record { state = d.state; timers = d.timers }

  -- newest tick first
  unfoldable pub run : Control W → List (Tick W) → Position
  run cfg [] = initial
  run cfg (t ∷ ts) = advance cfg t (run cfg ts)

  -- No tick is at the zero time.
  abbrev pub Clocked : List (Tick W) → Type 0
  Clocked [] = Unit {0}
  Clocked (t ∷ ts) = (is_zero t.now ≡ false) × Clocked ts

  pub run-IsTimed :
      (cfg : Control W) (ts : List (Tick W))
      → Clocked ts
      → IsTimed (run cfg ts).state (run cfg ts).timers
  unfolding run advance
  run-IsTimed cfg [] h = ground (arith, zero_time-is_zero)
  run-IsTimed cfg (t ∷ ts) h =
      decide-IsTimed t.now t.inputs (run cfg ts).state (run cfg ts).timers cfg h.0

  -- From start-up, after any ticks none of which was at the zero time, a tick without an active
  -- override takes the controller along an edge of the state diagram: in particular charging begins
  -- only out of surplus-pending, and is left to stop-pending only while enabled.
  pub run-⟶ :
      (cfg : Control W) (t : Tick W) (ts : List (Tick W))
      → Clocked ts
      → override_active t.now t.inputs ≡ false
      → (run cfg ts).state ⟶ (run cfg (t ∷ ts)).state
  unfolding run advance
  run-⟶ cfg t ts h a =
      decide-⟶ t.now t.inputs (run cfg ts).state (run cfg ts).timers cfg (run-IsTimed cfg ts h) a

  -- The trigger of the active profile reaches its start threshold, on an input that automatic
  -- control may act on.
  pub record IsAbove (cfg : Control W) (t : Tick W) : Type 0 where
    pub fresh : t.inputs.stale ≡ false
    pub unforced : override_active t.now t.inputs ≡ false
    pub may : MayCharge t.inputs cfg
    pub above :
        (if is_latch t.inputs cfg
          then f.le
              (effective_start_threshold t.inputs cfg)
              (latch_trigger t.inputs (effective_profile t.inputs cfg))
          else f.le cfg.start_threshold_w (surplus t.inputs))
        ≡ true

  pub record IsLow (cfg : Control W) (t : Tick W) : Type 0 where
    pub unforced : override_active t.now t.inputs ≡ false
    pub low : f.lt (surplus t.inputs) cfg.stop_threshold_w ≡ true

  -- P has held at every tick of the history back to one at time s.
  abbrev pub HeldSince : (Tick W → Type 0) → Time → List (Tick W) → Type 0
  HeldSince P s [] = ⊥
  HeldSince P s (t ∷ ts) = P t × ((t.now ≡ s) ⊎ HeldSince P s ts)
  -- A rising marker in the next position is the time of this tick, or was there before; either
  -- way the trigger is above its threshold now.
