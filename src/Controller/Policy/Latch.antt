-- ===== src/Controller/Policy/Latch.antt =====
-- The state-of-charge latch of policy.go: at the target charging stops, and it stays off down to
-- the resume boundary, a band as wide as the configured one.
use wallbox_homeautomation_g.Base.{List, [], arith, false, inr, true, ◌++◌, ◌↔◌, ◌∷◌, ◌≡◌, ◌≢◌, ◌⊎◌}
use wallbox_homeautomation_g.Base.Int.{
  int64_of_IsInt64, int_laws, le_ℤ_iff, pos, ℤ, ◌-ℤ◌, ◌<ℤ◌, ◌≤ℤ◌,
}
use wallbox_homeautomation_g.Config.{Control}
use wallbox_homeautomation_g.Controller.Policy.{
  decide, decide_auto, decide_from_charging, decide_from_idle, decide_latch, decide_profile,
  effective_target_soc, override_active, resume_below, soc_target,
}
use wallbox_homeautomation_g.Controller.Policy.History.{Tick, advance, run}
use wallbox_homeautomation_g.Controller.State.{
  Inputs, State, Timers, eq_state, mode_off, soc_reached,
}
use wallbox_homeautomation_g.Go.Float.{Float}
use wallbox_homeautomation_g.Go.Time.{Time}

module _ {ℓ} {W : Type ℓ} ⦃f : Float W⦄ where
  -- Percentages, so that none of the code's integer operations wraps.
  pub record IsPercent (inp : Inputs W) (cfg : Control W) : Type 0 where
    pub cap_from : pos 0 ≤ℤ cfg.soc_cap
    pub cap_to : cfg.soc_cap ≤ℤ pos 100
    pub resume_from : pos 0 ≤ℤ cfg.soc_resume_below
    pub resume : cfg.soc_resume_below <ℤ cfg.soc_cap
    pub target_from : pos 0 ≤ℤ inp.target_soc
    pub target_to : inp.target_soc ≤ℤ pos 100

  -- the width of the latch band
  abbrev pub band : Control W → ℤ
  band cfg = cfg.soc_cap -ℤ cfg.soc_resume_below

  soc_target-range :
      (inp : Inputs W) (cfg : Control W)
      → IsPercent inp cfg
      → (pos 0 ≤ℤ soc_target inp cfg) × (soc_target inp cfg ≤ℤ pos 100)
  unfolding soc_target effective_target_soc
  soc_target-range inp cfg p = ground arith

  pub resume_below-exact :
      (inp : Inputs W) (cfg : Control W)
      → IsPercent inp cfg
      → resume_below inp cfg ≡ soc_target inp cfg -ℤ band cfg
  unfolding resume_below
  resume_below-exact inp cfg p =
      let (low, high) = soc_target-range inp cfg p in
      rw (int64_of_IsInt64 (cfg.soc_cap -ℤ cfg.soc_resume_below) (omega int_laws, omega int_laws)) (
        int64_of_IsInt64 (soc_target inp cfg -ℤ (cfg.soc_cap -ℤ cfg.soc_resume_below))
          (omega int_laws, omega int_laws))

  profile-ne-soc_reached :
      (now : Time) (inp : Inputs W) (st : State) (tm : Timers) (cfg : Control W)
      → (decide_profile now inp st tm cfg).state ≢ soc_reached
  unfolding decide_profile decide_latch decide_from_idle decide_from_charging
  profile-ne-soc_reached now inp st tm cfg h = ground arith

  -- With percentages for the cap, the boundary below it and the target, and under automatic control
  -- on fresh and complete data with a vehicle connected, the next state is soc-reached exactly when
  -- the vehicle is at or above the target, or the state was soc-reached and the vehicle is not
  -- yet below the target less the configured band; then the command is "off".
  pub soc_reached_iff :
      (now : Time) (inp : Inputs W) (st : State) (tm : Timers) (cfg : Control W)
      → IsPercent inp cfg
      → inp.stale ≡ false
      → override_active now inp ≡ false
      → inp.ready ≡ true
      → inp.is_connected ≡ true
      → (((decide now inp st tm cfg).state ≡ soc_reached) ↔ (
          (soc_target inp cfg ≤ℤ inp.vehicle_soc)
          ⊎ ((st ≡ soc_reached) × (soc_target inp cfg -ℤ band cfg ≤ℤ inp.vehicle_soc))))
        × ((decide now inp st tm cfg).state ≡ soc_reached
            → (decide now inp st tm cfg).desired_mode ≡ mode_off)
  unfolding decide decide_auto eq_state
  soc_reached_iff now inp st tm cfg p a b c d = ground (
    arith,
    resume_below-exact inp cfg p,
    le_ℤ_iff (soc_target inp cfg) inp.vehicle_soc,
    le_ℤ_iff (resume_below inp cfg) inp.vehicle_soc,
    profile-ne-soc_reached now inp st tm cfg,
  )

  -- A tick under automatic control whose vehicle is not yet below the resume boundary.
  pub record IsCapped (cfg : Control W) (t : Tick W) : Type 0 where
    pub percent : IsPercent t.inputs cfg
    pub fresh : t.inputs.stale ≡ false
    pub unforced : override_active t.now t.inputs ≡ false
    pub ready : t.inputs.ready ≡ true
    pub connected : t.inputs.is_connected ≡ true
    pub held : soc_target t.inputs cfg -ℤ band cfg ≤ℤ t.inputs.vehicle_soc

  abbrev pub AllCapped : Control W → List (Tick W) → Type 0
  AllCapped cfg [] = Unit {0}
  AllCapped cfg (t ∷ ts) = IsCapped cfg t × AllCapped cfg ts

  -- Once the state is soc-reached, any number of ticks without an active override, on fresh and
  -- complete data and percentages, that find a vehicle connected and at or above the resume
  -- boundary leave it soc-reached: charging does not come back in between.
  pub latch_holds :
      (cfg : Control W) (ts later : List (Tick W))
      → (run cfg ts).state ≡ soc_reached
      → AllCapped cfg later
      → (run cfg (later ++ ts)).state ≡ soc_reached
  unfolding run advance
  latch_holds cfg ts [] h all = h
  latch_holds cfg ts (t ∷ later) h (c, all) =
      (soc_reached_iff t.now t.inputs (run cfg (later ++ ts)).state (run cfg (later ++ ts)).timers
          cfg c.percent c.fresh c.unforced c.ready c.connected).0.1
        (inr (latch_holds cfg ts later h all, c.held))
