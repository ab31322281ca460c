-- ===== src/Controller/Loop/Race.antt =====
-- A setting that the web layer changes between the two locked sections of a tick of controller.go.
use wallbox_homeautomation_g.Base.{Bool, arith, false, ◌↔◌, ◌≡◌, ◌⊎◌}
use wallbox_homeautomation_g.Base.Int.{eq_ℤ_self, eq_ℤ→≡, pos}
use wallbox_homeautomation_g.Controller.Inputs.{inputs_from_snapshot}
use wallbox_homeautomation_g.Controller.Loop.{commit, expire, plan}
use wallbox_homeautomation_g.Controller.Loop.Struct.{Controller, eq_bool, no_inputs}
use wallbox_homeautomation_g.Controller.Policy.{override_active}
use wallbox_homeautomation_g.Controller.State.{ControlState, auto, eq_override}
use wallbox_homeautomation_g.Evcc.Store.{Snapshot}
use wallbox_homeautomation_g.Go.Float.{Float}
use wallbox_homeautomation_g.Go.Time.{Time, zero_time}

module _ {ℓ} {W : Type ℓ} ⦃f : Float W⦄ where
  -- Whether the override of some settings is in force at a time.
  abbrev pub in_force : Time → ControlState W → Bool
  in_force now s =
      override_active now
        (record (no_inputs {W = W}) { override = s.override; override_until = s.override_until })

  -- Whatever settings the second locked section of a tick finds, it leaves them as they are, or
  -- puts the override back to automatic with no bypass and keeps the rest; and it does the latter
  -- only if what it found was itself no longer in force at the time of the tick. So an override
  -- that races in is never discarded while it is in force.
  pub commit_keeps_in_force :
      (now : Time) (snap : Snapshot W) (c₁ c₂ : Controller W)
      → let found = c₂.ctrl in
        let left = (commit (plan now snap c₁) c₂).ctrl in
        (left ≡ found)
        ⊎ ((in_force now found ≡ false)
            × (left ≡ record found {
              override = auto;
              override_until = zero_time;
              cap_bypass = false;
              cap_bypass_soc = pos 0;
            }))
  unfolding commit expire plan inputs_from_snapshot override_active eq_override
  commit_keeps_in_force now snap c₁ c₂ =
      ground (arith, eq_ℤ→≡ c₂.ctrl.override_until c₁.ctrl.override_until)

  -- Without a change in between, a tick drops an override that has expired and no other, and in
  -- either case leaves the charge power, the profile and the latch settings alone.
  pub commit_expires_iff :
      (now : Time) (snap : Snapshot W) (c : Controller W)
      → let left = (commit (plan now snap c) c).ctrl in
        ((left.override ≡ auto) ↔ (in_force now c.ctrl ≡ false))
        × (left.charge_power ≡ c.ctrl.charge_power)
        × (left.auto_profile ≡ c.ctrl.auto_profile)
        × (left.start_threshold_w ≡ c.ctrl.start_threshold_w)
        × (left.target_soc ≡ c.ctrl.target_soc)
  unfolding commit expire plan inputs_from_snapshot override_active eq_override eq_bool
  commit_expires_iff now snap c = ground (arith, eq_ℤ_self c.ctrl.override_until)
