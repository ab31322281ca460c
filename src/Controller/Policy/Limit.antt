-- ===== src/Controller/Policy/Limit.antt =====
-- policy.go's `LimitSoCTarget`, the limit that evcc enforces even if wha dies, against the bound
-- that `Decide` itself charges by.
use wallbox_homeautomation_g.Base.{arith, false, true, ◌≡◌, ◌≢◌, ◌⊎◌}
use wallbox_homeautomation_g.Base.Int.{
  +ℤ_parts, eq_ℤ_self, int64, int64_of_IsInt64, int_laws, lt_ℤ, pos, ℤ, ◌+ℤ◌, ◌<ℤ◌, ◌≤ℤ◌,
}
use wallbox_homeautomation_g.Config.{Control}
use wallbox_homeautomation_g.Config.Valid.{IsValidControl}
use wallbox_homeautomation_g.Controller.Policy.{
  clamp_bypass, decide, effective_target_soc, limit_soc_target, override_active, soc_target,
}
use wallbox_homeautomation_g.Controller.Policy.Safety.{decide-enabled_needs}
use wallbox_homeautomation_g.Controller.State.{
  Inputs, State, Timers, eq_override, force_on, mode_off,
}
use wallbox_homeautomation_g.Go.Float.{Float}
use wallbox_homeautomation_g.Go.Time.{Time}

module _ {ℓ} {W : Type ℓ} ⦃f : Float W⦄ where
  effective_target_soc-range :
      (inp : Inputs W) (cfg : Control W)
      → IsValidControl cfg
      → (inp.target_soc ≡ pos 0) ⊎ ((pos 1 ≤ℤ inp.target_soc) × (inp.target_soc ≤ℤ pos 100))
      → (pos 1 ≤ℤ effective_target_soc inp cfg) × (effective_target_soc inp cfg ≤ℤ pos 100)
  unfolding effective_target_soc
  effective_target_soc-range inp cfg v t = ground (arith, eq_ℤ_self (pos 0))

  lowest-exact :
      (cfg : Control W) → IsValidControl cfg → int64 (cfg.soc_cap +ℤ pos 1) ≡ cfg.soc_cap +ℤ pos 1
  lowest-exact cfg v = int64_of_IsInt64 (cfg.soc_cap +ℤ pos 1) (omega int_laws, omega int_laws)

  pub clamp_bypass-range :
      (target : ℤ) (cfg : Control W)
      → IsValidControl cfg
      → (cfg.soc_cap <ℤ clamp_bypass target cfg) × (clamp_bypass target cfg ≤ℤ cfg.soc_max)
  unfolding clamp_bypass lt_ℤ
  clamp_bypass-range target cfg v = ground (arith, lowest-exact cfg v, +ℤ_parts cfg.soc_cap (pos 1))

  -- A target above the cap and within the maximum is kept.
  pub clamp_bypass-kept :
      (target : ℤ) (cfg : Control W)
      → IsValidControl cfg
      → cfg.soc_cap <ℤ target
      → target ≤ℤ cfg.soc_max
      → clamp_bypass target cfg ≡ target
  unfolding clamp_bypass lt_ℤ
  clamp_bypass-kept target cfg v above within =
      ground (arith, lowest-exact cfg v, +ℤ_parts cfg.soc_cap (pos 1))

  abbrev pub Bypasses : Time → Inputs W → Type 0
  Bypasses now inp =
      (inp.override ≡ force_on)
      × (inp.override_cap_bypass ≡ true)
      × (override_active now inp ≡ true)

  -- For a valid configuration and a target override of 0 or 1..100, the limit asked of evcc is a
  -- percentage from 1 to 100; an active force-on with cap bypass puts it above the cap and at most
  -- at the maximum, and without one it is the bound that `Decide` stops at.
  pub limit_soc_target-range :
      (now : Time) (inp : Inputs W) (cfg : Control W)
      → IsValidControl cfg
      → (inp.target_soc ≡ pos 0) ⊎ ((pos 1 ≤ℤ inp.target_soc) × (inp.target_soc ≤ℤ pos 100))
      → (pos 1 ≤ℤ limit_soc_target now inp cfg)
        × (limit_soc_target now inp cfg ≤ℤ pos 100)
        × (Bypasses now inp
            → (cfg.soc_cap <ℤ limit_soc_target now inp cfg)
              × (limit_soc_target now inp cfg ≤ℤ cfg.soc_max))
        × (¬ Bypasses now inp → limit_soc_target now inp cfg ≡ soc_target inp cfg)
  unfolding limit_soc_target soc_target eq_override
  limit_soc_target-range now inp cfg v t = ground (
    arith,
    effective_target_soc-range inp cfg v t,
    clamp_bypass-range inp.override_cap_bypass_soc cfg v,
  )

  -- Whenever `Decide` charges without an active override, the vehicle is below `LimitSoCTarget` of the
  -- same inputs.
  pub charging-lt-limit_soc_target :
      (now : Time) (inp : Inputs W) (st : State) (tm : Timers) (cfg : Control W)
      → override_active now inp ≡ false
      → (decide now inp st tm cfg).desired_mode ≢ mode_off
      → inp.vehicle_soc <ℤ limit_soc_target now inp cfg
  unfolding limit_soc_target soc_target
  charging-lt-limit_soc_target now inp st tm cfg a h =
      ground (arith, decide-enabled_needs now inp st tm cfg h)
