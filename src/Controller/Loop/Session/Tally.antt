-- ===== src/Controller/Loop/Session/Tally.antt =====
-- What a charge session of controller.go adds up, as folds over the samples of its ticks.
use wallbox_homeautomation_g.Base.{
  List, [], ap, arith, foldl, foldl-append, if◌then◌else◌, length, true, ℕ, ◌++◌, ◌+◌, ◌<◌, ◌^◌,
  ◌∙◌, ◌∷◌, ◌≡◌,
}
use wallbox_homeautomation_g.Base.Int.{int64_of_IsInt64, pos, ◌+ℤ◌}
use wallbox_homeautomation_g.Controller.Loop.Session.{accumulate, track_session}
use wallbox_homeautomation_g.Controller.Loop.Struct.{Controller}
use wallbox_homeautomation_g.Controller.Recorder.{Recorder}
use wallbox_homeautomation_g.Controller.State.{Inputs, State}
use wallbox_homeautomation_g.Go.Float.{Float}
use wallbox_homeautomation_g.Go.Time.{Time}

-- a tick as the session sees it
pub record Moment {ℓ} (W : Type ℓ) : Type ℓ where
  pub now : Time
  pub inputs : Inputs W
  pub state : State

module _ {ℓ} {W : Type ℓ} where
  -- The charge power at each tick that is not stale.
  unfoldable pub samples : List (Moment W) → List W
  samples [] = []
  samples (m ∷ ms) =
      let rest = samples ms in if m.inputs.stale then rest else m.inputs.charge_w ∷ rest

  pub samples-++ :
      (m : Moment W) (ms : List (Moment W)) → samples (m ∷ ms) ≡ samples (m ∷ []) ++ samples ms
  unfolding samples
  samples-++ m ms = ground arith

  abbrev pub AllCharging : List (Moment W) → Type 0
  AllCharging [] = Unit {0}
  AllCharging (m ∷ ms) = (m.inputs.is_charging ≡ true) × AllCharging ms

length-++ {ℓ} : {A : Type ℓ} (xs ys : List A) → length (xs ++ ys) ≡ length xs + length ys
length-++ [] ys = omega arith
length-++ (x ∷ xs) ys = omega (arith, length-++ xs ys)

module _ {ℓ} {W : Type ℓ} ⦃f : Float W⦄ where
  -- The running totals, from those at the start on.
  pub record IsTotalOf (dt : W) (ws : List W) (c c' : Controller W) : Type ℓ where
    pub energy : c'.session_en_wh ≡ foldl (λ e w. f.add e (f.mul w dt)) c.session_en_wh ws
    pub sum : c'.session_sum_w ≡ foldl f.add c.session_sum_w ws
    pub peak : c'.session_peak_w ≡ foldl (λ m w. if f.lt m w then w else m) c.session_peak_w ws
    pub ticks :
        (n : ℕ)
        → c.session_ticks ≡ pos n
        → n + length ws < 2 ^ 63
        → c'.session_ticks ≡ pos (n + length ws)

  pub IsTotalOf-trans :
      (dt : W) (ws vs : List W) (a b c : Controller W)
      → IsTotalOf dt ws a b
      → IsTotalOf dt vs b c
      → IsTotalOf dt (ws ++ vs) a c
  IsTotalOf-trans dt ws vs a b c h k = record {
    energy = rw (foldl-append, ← h.energy) k.energy;
    sum = rw (foldl-append, ← h.sum) k.sum;
    peak = rw (foldl-append, ← h.peak) k.peak;
    ticks = λ n e small.
        k.ticks (n + length ws) (h.ticks n e (omega (arith, length-++ ws vs)))
          (omega (arith, length-++ ws vs))
        ∙ ap pos (omega (arith, length-++ ws vs));
  }

  pub accumulate-ticks :
      (inp : Inputs W) (c : Controller W) (n : ℕ)
      → c.session_ticks ≡ pos n
      → n + 1 < 2 ^ 63
      → (accumulate inp c).session_ticks ≡ pos (n + 1)
  unfolding accumulate ◌+ℤ◌
  accumulate-ticks inp c n e h = ground (arith, int64_of_IsInt64 (pos (n + 1)))

module _ {ℓ κ} {W : Type ℓ} {D : Type κ} ⦃f : Float W⦄ ⦃r : Recorder W D⦄ where
  unfoldable pub track_all : List (Moment W) → Controller W → D → Controller W × D
  track_all [] c d = (c, d)
  track_all (m ∷ ms) c d =
      let (c', d') = track_session m.now m.inputs m.state c d in track_all ms c' d'
