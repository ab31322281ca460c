-- ===== src/Controller/Policy/Begin.antt =====
-- The start dwell of policy.go over whole histories: charging does start on sustained surplus.
use wallbox_homeautomation_g.Base.{
  Bool-absurd, Bool-cases, List, [], arith, false, inl, inr, true, ◌++◌, ◌∷◌, ◌≡◌, ◌⊎◌,
}
use wallbox_homeautomation_g.Base.Int.{
  >→le_ℤ, eq_ℤ, eq_ℤ→≡, int_laws, le_ℤ, negsuc, pos, ℤ, ≤→le_ℤ, ◌-ℤ◌, ◌<ℤ◌, ◌≤ℤ◌,
}
use wallbox_homeautomation_g.Config.{Control}
use wallbox_homeautomation_g.Controller.Policy.{
  decide, decide_auto, decide_from_charging, decide_from_idle, decide_latch, decide_profile,
  is_enabled, resume_below, soc_target, surplus,
}
use wallbox_homeautomation_g.Controller.Policy.History.{IsAbove, Position, Tick, advance, run}
use wallbox_homeautomation_g.Controller.Policy.Stable.{not_both}
use wallbox_homeautomation_g.Controller.Policy.Sustain.{advance-rising}
use wallbox_homeautomation_g.Controller.State.{eq_state}
use wallbox_homeautomation_g.Go.Float.{Float, IsOrdered}
use wallbox_homeautomation_g.Go.Time.{Time, is_zero, saturate, since, zero_time}

-- A later mark gives a shorter duration, saturation included.
saturate_mono : (a b : ℤ) → a ≤ℤ b → saturate a ≤ℤ saturate b
unfolding saturate
saturate_mono (pos m) (pos n) h = ground arith
saturate_mono (pos m) (negsuc n) h = ground arith
saturate_mono (negsuc m) (pos n) h = ground arith
saturate_mono (negsuc m) (negsuc n) h = ground arith

since_antitone : (now m s : Time) → m ≤ℤ s → since now s ≤ℤ since now m
unfolding since
since_antitone now m s h = saturate_mono (now -ℤ s) (now -ℤ m) (omega int_laws)

after_zero : (t : Time) → pos 0 <ℤ t → is_zero t ≡ false
unfolding is_zero eq_ℤ
after_zero t h = ground arith

-- charging, or waiting for it with a mark that is at s or before it
abbrev Waits : Time → Position → Type 0
Waits s p =
    (is_enabled p.state ≡ true)
    ⊎ ((is_zero p.timers.crossed_up_at ≡ false) × (p.timers.crossed_up_at ≤ℤ s))

module _ {ℓ} {W : Type ℓ} ⦃f : Float W⦄ where
  -- The trigger is at its threshold, and the vehicle is below the boundary of the SoC latch.
  pub record IsEager (cfg : Control W) (t : Tick W) : Type 0 where
    pub above : IsAbove cfg t
    pub low : t.inputs.vehicle_soc <ℤ resume_below t.inputs cfg

  abbrev pub AllEager : Control W → List (Tick W) → Type 0
  AllEager cfg [] = Unit {0}
  AllEager cfg (t ∷ ts) = IsEager cfg t × AllEager cfg ts

  -- Every tick of the history is at s or before it.
  abbrev pub NotAfter : Time → List (Tick W) → Type 0
  NotAfter s [] = Unit {0}
  NotAfter s (t ∷ ts) = (t.now ≤ℤ s) × NotAfter s ts

  decide-eager :
      (cfg : Control W) (t : Tick W) (p : Position)
      → IsEager cfg t
      → decide t.now t.inputs p.state p.timers cfg
        ≡ decide_profile t.now t.inputs p.state p.timers cfg
  unfolding decide decide_auto
  decide-eager cfg t p v = ground (
    arith,
    >→le_ℤ (soc_target t.inputs cfg) t.inputs.vehicle_soc,
    >→le_ℤ (resume_below t.inputs cfg) t.inputs.vehicle_soc,
  )

module _ {ℓ} {W : Type ℓ} ⦃f : Float W⦄ (o : IsOrdered W) (cfg : Control W)
    (ordered : f.lt cfg.stop_threshold_w cfg.start_threshold_w ≡ true) where
  -- what a tick with the trigger at its threshold makes of the mark
  abbrev Marks : Tick W → Position → Position → Type 0
  Marks t p q =
      (is_enabled q.state ≡ true)
      ⊎ ((is_zero p.timers.crossed_up_at ≡ true) × (q.timers.crossed_up_at ≡ t.now))
      ⊎ ((is_zero p.timers.crossed_up_at ≡ false)
          × (le_ℤ cfg.start_dwell (since t.now p.timers.crossed_up_at) ≡ false)
          × (q.timers.crossed_up_at ≡ p.timers.crossed_up_at))

  profile-Marks :
      (t : Tick W) (p : Position)
      → IsAbove cfg t
      → let d = decide_profile t.now t.inputs p.state p.timers cfg in
        Marks t p (record { state = d.state; timers = d.timers })
  unfolding decide_profile decide_latch decide_from_idle decide_from_charging eq_state
  profile-Marks t p v =
      ground
        (arith, not_both o cfg.stop_threshold_w cfg.start_threshold_w (surplus t.inputs) ordered)

  advance-Marks : (t : Tick W) (p : Position) → IsEager cfg t → Marks t p (advance cfg t p)
  unfolding advance
  advance-Marks t p v = rw (decide-eager cfg t p v) (profile-Marks t p v.above)

  profile-enabled :
      (t : Tick W) (p : Position)
      → IsAbove cfg t
      → is_enabled p.state ≡ true
      → is_enabled (decide_profile t.now t.inputs p.state p.timers cfg).state ≡ true
  unfolding decide_profile decide_latch decide_from_charging eq_state
  profile-enabled t p v on =
      ground
        (arith, not_both o cfg.stop_threshold_w cfg.start_threshold_w (surplus t.inputs) ordered)

  advance-enabled :
      (t : Tick W) (p : Position)
      → IsEager cfg t
      → is_enabled p.state ≡ true
      → is_enabled (advance cfg t p).state ≡ true
  unfolding advance
  advance-enabled t p v on = rw (decide-eager cfg t p v) (profile-enabled t p v.above on)

  -- The first such tick sets the mark, if none is set.
  advance-first :
      (t : Tick W) (p : Position)
      → IsEager cfg t
      → is_zero t.now ≡ false
      → p.timers.crossed_up_at ≤ℤ t.now
      → Waits t.now (advance cfg t p)
  advance-first t p v clocked old = elim (advance-Marks t p v) [
    | inl on ↦ inl on
    | inr (inl (unset, e)) ↦ inr (rw e clocked, rw e (omega arith))
    | inr (inr (set, short, e)) ↦ inr (rw e set, rw e old)
  ]

  -- The next ones keep it.
  advance-Waits :
      (s : Time) (t : Tick W) (p : Position) → IsEager cfg t → Waits s p → Waits s (advance cfg t p)
  advance-Waits s t p v (inl on) = inl (advance-enabled t p v on)
  advance-Waits s t p v (inr (set, old)) = elim (advance-Marks t p v) [
    | inl on ↦ inl on
    | inr (inl (unset, e)) ↦ Bool-absurd unset set
    | inr (inr (set', short, e)) ↦ inr (rw e set, rw e old)
  ]

  run-Waits :
      (us ts : List (Tick W)) (first : Tick W)
      → AllEager cfg us
      → IsEager cfg first
      → is_zero first.now ≡ false
      → (run cfg ts).timers.crossed_up_at ≤ℤ first.now
      → Waits first.now (run cfg (us ++ first ∷ ts))
  unfolding run
  run-Waits [] ts first h v clocked old = advance-first first (run cfg ts) v clocked old
  run-Waits (u ∷ us) ts first h v clocked old =
      advance-Waits first.now u (run cfg (us ++ first ∷ ts)) h.0
        (run-Waits us ts first h.1 v clocked old)

  is_zero→≡ : (t : Time) → is_zero t ≡ true → t ≡ zero_time
  unfolding is_zero
  is_zero→≡ t h = eq_ℤ→≡ t zero_time h

  run_mark :
      (s : Time) (ts : List (Tick W))
      → pos 0 ≤ℤ s
      → NotAfter s ts
      → (run cfg ts).timers.crossed_up_at ≤ℤ s
  unfolding run
  run_mark s [] h b = h
  run_mark s (t ∷ ts) h b = elim (Bool-cases (is_zero (run cfg (t ∷ ts)).timers.crossed_up_at)) [
    | inl unset ↦ rw (is_zero→≡ _ unset) h
    | inr set ↦ elim (advance-rising cfg t (run cfg ts) set).1 [
      | inl now ↦ rw (← now) b.0
      | inr (same, _) ↦ rw (← same) (run_mark s ts h b.1)
    ]
  ]

  -- With IsOrdered comparisons and the stop threshold below the start threshold, from start-up: take
  -- a first tick at a time after the zero time, whatever ticks came before it, none at a later time
  -- than it. If from this tick to a later one every tick finds the data fresh and complete, the vehicle connected,
  -- below its target and below the boundary of the SoC latch, no override active and the active
  -- profile's trigger at or above its start threshold, and the later one is at least the start dwell
  -- after the first, then the later one leaves the controller charging.
  pub sustained_trigger_charges :
      (t first : Tick W) (us ts : List (Tick W))
      → AllEager cfg (t ∷ us)
      → IsEager cfg first
      → pos 0 <ℤ first.now
      → NotAfter first.now ts
      → cfg.start_dwell ≤ℤ since t.now first.now
      → is_enabled (run cfg (t ∷ (us ++ first ∷ ts))).state ≡ true
  unfolding run
  sustained_trigger_charges t first us ts h v positive past waited =
      let p = run cfg (us ++ first ∷ ts) in
      let clocked : is_zero first.now ≡ false = after_zero first.now positive in
      let waits = run-Waits us ts first h.1 v clocked (run_mark first.now ts (omega arith) past) in
      elim waits [
        | inl on ↦ advance-enabled t p h.0 on
        | inr (set, old) ↦ elim (advance-Marks t p h.0) [
          | inl on ↦ on
          | inr (inl (unset, e)) ↦ Bool-absurd unset set
          | inr (inr (set', short, e)) ↦
              let longer = since_antitone t.now p.timers.crossed_up_at first.now old in
              Bool-absurd
                (≤→le_ℤ cfg.start_dwell (since t.now p.timers.crossed_up_at) (omega arith)) short
        ]
      ]
