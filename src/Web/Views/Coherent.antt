-- ===== src/Web/Views/Coherent.antt =====
-- dto.go: the status page of a controller that runs.
use wallbox_homeautomation_g.Base.{
  Bool-cases, String, arith, false, if◌then◌else◌, inl, inr, not, refl, sym, true, ◌&&◌, ◌==◌, ◌||◌,
  ◌↔◌, ◌≡◌, ◌⊎◌,
}
use wallbox_homeautomation_g.Base.Int.{eq_ℤ_self, eq_ℤ→≡, lt_ℤ, lt_ℤ→<, lt_ℤ→≥, pos, ℤ, ◌<ℤ◌, ◌≤ℤ◌}
use wallbox_homeautomation_g.Config.{
  Control, auto_profile_power_latch, auto_profile_surplus, auto_profile_surplus_latch,
  enable_mode_now, enable_mode_pv,
}
use wallbox_homeautomation_g.Config.Valid.{IsValidControl, is_enable_mode_iff, is_profile_iff}
use wallbox_homeautomation_g.Config.Validate.{is_enable_mode, is_profile}
use wallbox_homeautomation_g.Controller.Inputs.{inputs_from_snapshot}
use wallbox_homeautomation_g.Controller.Loop.Struct.{Controller}
use wallbox_homeautomation_g.Controller.Policy.{
  clamp_bypass, effective_profile, effective_target_soc, limit_soc_target, override_active,
}
use wallbox_homeautomation_g.Controller.Policy.Limit.{clamp_bypass-kept, clamp_bypass-range}
use wallbox_homeautomation_g.Controller.Recorder.{Recorder}
use wallbox_homeautomation_g.Controller.Settings.Status.{view}
use wallbox_homeautomation_g.Controller.Settings.Valid.{IsSound}
use wallbox_homeautomation_g.Controller.State.{
  Inputs, eq_override, force_on, latch_overrides, override_name,
}
use wallbox_homeautomation_g.Controller.System.{Reachable, System}
use wallbox_homeautomation_g.Controller.System.Commands.{target-range}
use wallbox_homeautomation_g.Controller.System.Sound.{Reachable-IsSafe}
use wallbox_homeautomation_g.Evcc.Store.{Snapshot}
use wallbox_homeautomation_g.Go.Float.{Float}
use wallbox_homeautomation_g.Go.Time.{Time}
use wallbox_homeautomation_g.Web.Views.{StatusVm, cap_bypass_target, new_status_vm}

-- What the page's flags say of one another and of the texts beside them.
pub record IsCoherent (vm : StatusVm) : Type 0 where
  pub latch :
      vm.auto_profile_is_latch ≡ (vm.auto_profile_power_latch || vm.auto_profile_surplus_latch)
  pub one_latch : (vm.auto_profile_power_latch && vm.auto_profile_surplus_latch) ≡ false
  pub power : vm.charge_power_now ≡ not (vm.charge_power == enable_mode_pv)
  pub bypass :
      ((vm.cap_bypass ≡ false) × (vm.cap_bypass_soc ≡ pos 0) × (vm.cap_bypass_target ≡ vm.soc_max))
      ⊎ ((vm.cap_bypass ≡ true) × (vm.override ≡ "on") × (vm.override_active ≡ true))
  pub target : (pos 1 ≤ℤ vm.target_soc) × (vm.target_soc ≤ℤ pos 100)

profile_flags :
    (p : String)
    → is_profile p ≡ true
    → (not (p == auto_profile_surplus)
        ≡ (p == auto_profile_power_latch || p == auto_profile_surplus_latch))
      × ((p == auto_profile_power_latch && p == auto_profile_surplus_latch) ≡ false)
unfolding ◌==◌
profile_flags p h = elim ((is_profile_iff p).0 h) [
  | inl e ↦ rw e (refl, refl)
  | inr (inl e) ↦ rw e (refl, refl)
  | inr (inr e) ↦ rw e (refl, refl)
]

power_flag :
    (m : String) → is_enable_mode m ≡ true → (m == enable_mode_now) ≡ not (m == enable_mode_pv)
unfolding ◌==◌
power_flag m h = elim ((is_enable_mode_iff m).0 h) [ inl e ↦ rw e refl | inr e ↦ rw e refl ]

module _ {ℓ} {W : Type ℓ} ⦃f : Float W⦄ where
  profile_shown : (c : Controller W) → IsSound c → is_profile (view c).auto_profile ≡ true
  unfolding view effective_profile
  profile_shown c v = ground (arith, (is_profile_iff c.cfg.auto_profile).1 v.config.profile)

  power_shown : (c : Controller W) → IsSound c → is_enable_mode (view c).charge_power ≡ true
  unfolding view
  power_shown c v = v.settings.power

  bypass_shown :
      (rfc3339 : Time → String) (now : Time) (c : Controller W)
      → IsSound c
      → let vm = new_status_vm rfc3339 now (view c) in
        ((vm.cap_bypass ≡ false)
          × (vm.cap_bypass_soc ≡ pos 0)
          × (vm.cap_bypass_target ≡ vm.soc_max))
        ⊎ ((vm.cap_bypass ≡ true) × (vm.override ≡ "on") × (vm.override_active ≡ true))
  unfolding new_status_vm cap_bypass_target view lt_ℤ override_name eq_override
  bypass_shown rfc3339 now c v = elim (Bool-cases c.ctrl.cap_bypass) [
    | inr off ↦ inl (off, v.settings.no_bypass off, rw (v.settings.no_bypass off) refl)
    | inl on ↦ inr (on, rw (v.settings.bypass on) refl, rw (v.settings.bypass on) refl)
  ]

  target_shown :
      (c : Controller W)
      → IsSound c
      → (pos 1 ≤ℤ (view c).target_soc) × ((view c).target_soc ≤ℤ pos 100)
  unfolding view effective_target_soc
  target_shown c v =
      let range = target-range c.cfg c.ctrl v.settings in
      ground (arith, eq_ℤ→≡ (latch_overrides c.ctrl c.cfg).1 (pos 0), eq_ℤ_self (pos 0))

  IsSound-IsCoherent :
      (rfc3339 : Time → String) (now : Time) (c : Controller W)
      → IsSound c
      → IsCoherent (new_status_vm rfc3339 now (view c))
  unfolding new_status_vm
  IsSound-IsCoherent rfc3339 now c v = record {
    latch = (profile_flags (view c).auto_profile (profile_shown c v)).0;
    one_latch = (profile_flags (view c).auto_profile (profile_shown c v)).1;
    power = power_flag (view c).charge_power (power_shown c v);
    bypass = bypass_shown rfc3339 now c v;
    target = target_shown c v;
  }

  kept_if :
      (asked : ℤ) (cfg : Control W)
      → IsValidControl cfg
      → lt_ℤ (pos 0) asked ≡ true
      → (asked ≤ℤ pos 0) ⊎ ((cfg.soc_cap <ℤ asked) × (asked ≤ℤ cfg.soc_max))
      → asked ≡ clamp_bypass asked cfg
  kept_if asked cfg v on (inl off) = let above = lt_ℤ→< (pos 0) asked on in absurd (omega arith)
  kept_if asked cfg v on (inr (above, within)) = sym (clamp_bypass-kept asked cfg v above within)

  bypassing :
      (now : Time) (inp : Inputs W) (cfg : Control W)
      → inp.override ≡ force_on
      → inp.override_cap_bypass ≡ true
      → override_active now inp ≡ true
      → limit_soc_target now inp cfg ≡ (
          if lt_ℤ (pos 0) inp.override_cap_bypass_soc
          then clamp_bypass inp.override_cap_bypass_soc cfg
          else cfg.soc_max)
  unfolding limit_soc_target eq_override
  bypassing now inp cfg force on active = rw (active, force, on) refl

  bypass_limit :
      (c : Controller W) (now : Time) (snap : Snapshot W)
      → let inp = inputs_from_snapshot now snap c.cfg c.ctrl in
        IsSound c
        → c.ctrl.cap_bypass ≡ true
        → override_active now inp ≡ true
        → limit_soc_target now inp c.cfg ≡ (
            if lt_ℤ (pos 0) c.ctrl.cap_bypass_soc
            then clamp_bypass c.ctrl.cap_bypass_soc c.cfg
            else c.cfg.soc_max)
  unfolding inputs_from_snapshot
  bypass_limit c now snap v on active =
      bypassing now (inputs_from_snapshot now snap c.cfg c.ctrl) c.cfg (v.settings.bypass on) on
        active

  -- With a valid configuration and settings within bounds, while a cap bypass is in force: the badge
  -- of the status page shows the limit that the controller computes for evcc on any snapshot,
  -- `LimitSoCTarget`, exactly for an asked target above the cap and not above the maximum, or for
  -- none: other targets are clamped there, and shown as they were asked for.
  pub cap_bypass_target-clamped_iff :
      (c : Controller W) (now : Time) (snap : Snapshot W)
      → let inp = inputs_from_snapshot now snap c.cfg c.ctrl in
        let asked = c.ctrl.cap_bypass_soc in
        IsSound c
        → c.ctrl.cap_bypass ≡ true
        → override_active now inp ≡ true
        → (cap_bypass_target (view c) ≡ limit_soc_target now inp c.cfg)
          ↔ ((asked ≤ℤ pos 0) ⊎ ((c.cfg.soc_cap <ℤ asked) × (asked ≤ℤ c.cfg.soc_max)))
  unfolding cap_bypass_target view
  cap_bypass_target-clamped_iff c now snap v bypass active =
      let asked = c.ctrl.cap_bypass_soc in
      rw (bypass_limit c now snap v bypass active) (elim (Bool-cases (lt_ℤ (pos 0) asked)) [
        | inr off ↦ rw off ((λ e. inl (lt_ℤ→≥ (pos 0) asked off)), (λ h. refl))
        | inl on ↦ rw on (
          (λ e. inr (rw (← e) at (clamp_bypass-range asked c.cfg v.config))),
          (λ h. kept_if asked c.cfg v.config on h),
        )
      ])

module _ {ℓ κ} {W : Type ℓ} {D : Type κ} ⦃f : Float W⦄ ⦃r : Recorder W D⦄ where
  -- With a valid configuration, in every reachable state the status page is coherent: the profile
  -- flags name one profile at most and agree with the latch flag, the charge power is one of two, a
  -- cap bypass is shown only with an active override "on", and the target is from 1 to 100 percent.
  pub Reachable-IsCoherent :
      (cfg : Control W) (Start : D → Type 0) (s : System W D) (rfc3339 : Time → String) (now : Time)
      → IsValidControl cfg
      → Reachable cfg Start s
      → IsCoherent (new_status_vm rfc3339 now (view s.control))
  Reachable-IsCoherent cfg Start s rfc3339 now v h =
      IsSound-IsCoherent rfc3339 now s.control (Reachable-IsSafe cfg Start s v h).sound
