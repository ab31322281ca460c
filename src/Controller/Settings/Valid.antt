-- ===== src/Controller/Settings/Valid.antt =====
-- The operator's settings stay within bounds, through every setter, every load and every tick of
-- controller.go.
use wallbox_homeautomation_g.Base.{
  ==_self, Bool, List, String, [], arith, false, subst, sym, true, ◌∷◌, ◌≡◌,
}
use wallbox_homeautomation_g.Base.Dict.{Entries, insert-Entries}
use wallbox_homeautomation_g.Base.Int.{pos, ℤ}
use wallbox_homeautomation_g.Config.{Control, auto_profile_power_latch, auto_profile_surplus_latch}
use wallbox_homeautomation_g.Config.Valid.{IsValidControl, is_enable_mode_iff, is_profile_iff}
use wallbox_homeautomation_g.Config.Validate.{is_enable_mode, is_profile}
use wallbox_homeautomation_g.Controller.Loop.{Plan, act, commit, expire}
use wallbox_homeautomation_g.Controller.Loop.Frame.{act-frame}
use wallbox_homeautomation_g.Controller.Loop.Struct.{Controller, new}
use wallbox_homeautomation_g.Controller.Recorder.{Commander, Recorder}
use wallbox_homeautomation_g.Controller.Settings.{
  active_profile, is_latch_profile, is_start_threshold, is_target_soc, latch_profiles,
  set_auto_profile, set_charge_power, set_override, set_start_threshold, set_target_soc,
}
use wallbox_homeautomation_g.Controller.Settings.Startup.{
  load_auto_profile, load_charge_power, load_start_threshold, load_start_thresholds,
  load_target_soc, load_target_socs, recover_dangling_session, start_up, stored_target,
  stored_threshold,
}
use wallbox_homeautomation_g.Controller.State.{ControlState, Override, eq_override, force_on}
use wallbox_homeautomation_g.Go.Float.{Float}
use wallbox_homeautomation_g.Go.Time.{Time}

module _ {ℓ} {W : Type ℓ} ⦃f : Float W⦄ where
  abbrev pub IsThresholdEntry : Control W → String → W → Type 0
  IsThresholdEntry cfg k w = (is_latch_profile k ≡ true) × (is_start_threshold cfg w ≡ true)

abbrev pub IsTargetEntry : String → ℤ → Type 0
IsTargetEntry k pct = (is_latch_profile k ≡ true) × (is_target_soc pct ≡ true)

abbrev AllLatch : List String → Type 0
AllLatch [] = Unit {0}
AllLatch (p ∷ ps) = (is_latch_profile p ≡ true) × AllLatch ps

latch_profiles-AllLatch : AllLatch latch_profiles
unfolding is_latch_profile
latch_profiles-AllLatch =
    ground (arith, ==_self auto_profile_power_latch, ==_self auto_profile_surplus_latch)

module _ {ℓ} {W : Type ℓ} ⦃f : Float W⦄ where
  pub record IsValidSettings (cfg : Control W) (s : ControlState W) : Type 0 where
    pub bypass : s.cap_bypass ≡ true → s.override ≡ force_on
    pub no_bypass : s.cap_bypass ≡ false → s.cap_bypass_soc ≡ pos 0
    pub power : is_enable_mode s.charge_power ≡ true
    pub profile : is_profile s.auto_profile ≡ true
    pub thresholds : Entries (IsThresholdEntry cfg) s.start_threshold_w
    pub targets : Entries IsTargetEntry s.target_soc

  pub record IsSound (c : Controller W) : Type 0 where
    pub config : IsValidControl c.cfg
    pub settings : IsValidSettings c.cfg c.ctrl

  pub new-IsSound : (cfg : Control W) → IsValidControl cfg → IsSound (new cfg)
  unfolding new
  new-IsSound cfg v =
      ground (arith, is_enable_mode_iff cfg.enable_mode, is_profile_iff cfg.auto_profile)

  IsSound-same : (a b : Controller W) → b.cfg ≡ a.cfg → b.ctrl ≡ a.ctrl → IsSound a → IsSound b
  IsSound-same a b h k v = record {
    config = subst (λ g. IsValidControl g) (sym h) v.config;
    settings = rw (h, k) v.settings;
  }

  expire-IsValidSettings :
      (p : Plan W) (cfg : Control W) (s : ControlState W)
      → IsValidSettings cfg s
      → IsValidSettings cfg (expire p s)
  unfolding expire
  expire-IsValidSettings p cfg s v = ground arith

  pub commit-IsSound : (p : Plan W) (c : Controller W) → IsSound c → IsSound (commit p c)
  unfolding commit
  commit-IsSound p c v = record {
    config = v.config;
    settings = expire-IsValidSettings p c.cfg c.ctrl v.settings;
  }

  module _ {κ} {D : Type κ} ⦃r : Recorder W D⦄ where
    pub set_override-IsSound :
        (now : Time) (mode : Override) (until : Time) (bypass : Bool) (soc : ℤ) (c : Controller W)
        (d : D)
        → IsSound c
        → IsSound (set_override now mode until bypass soc c d).0
    unfolding set_override eq_override
    set_override-IsSound now mode until bypass soc c d v = ground arith

    pub set_charge_power-IsSound :
        (now : Time) (mode : String) (c : Controller W) (d : D)
        → IsSound c
        → IsSound (set_charge_power now mode c d).0
    unfolding set_charge_power
    set_charge_power-IsSound now mode c d v = ground arith

    pub set_auto_profile-IsSound :
        (now : Time) (profile : String) (c : Controller W) (d : D)
        → IsSound c
        → IsSound (set_auto_profile now profile c d).0
    unfolding set_auto_profile
    set_auto_profile-IsSound now profile c d v = ground arith

    pub set_start_threshold-IsSound :
        (now : Time) (w : W) (c : Controller W) (d : D)
        → IsSound c
        → IsSound (set_start_threshold now w c d).0
    unfolding set_start_threshold
    set_start_threshold-IsSound now w c d v = ground (
      arith,
      insert-Entries (IsThresholdEntry c.cfg) (active_profile c) w c.ctrl.start_threshold_w,
    )

    pub set_target_soc-IsSound :
        (now : Time) (pct : ℤ) (c : Controller W) (d : D)
        → IsSound c
        → IsSound (set_target_soc now pct c d).0
    unfolding set_target_soc
    set_target_soc-IsSound now pct c d v =
        ground (arith, insert-Entries IsTargetEntry (active_profile c) pct c.ctrl.target_soc)

    pub act-IsSound :
        (answers : Commander) (p : Plan W) (c : Controller W) (d : D)
        → IsSound c
        → IsSound (act answers p c d).0
    act-IsSound answers p c d v =
        let same = act-frame answers p c d in IsSound-same c (act answers p c d).0 same.0 same.1 v

    load_charge_power-IsSound :
        (d : D) (c : Controller W) → IsSound c → IsSound (load_charge_power d c)
    unfolding load_charge_power
    load_charge_power-IsSound d c v = ground arith

    load_auto_profile-IsSound :
        (d : D) (c : Controller W) → IsSound c → IsSound (load_auto_profile d c)
    unfolding load_auto_profile
    load_auto_profile-IsSound d c v = ground arith

    load_start_threshold-IsSound :
        (p : String) (d : D) (c : Controller W)
        → is_latch_profile p ≡ true
        → IsSound c
        → IsSound (load_start_threshold p d c)
    unfolding load_start_threshold stored_threshold
    load_start_threshold-IsSound p d c a v = grind (arith, insert-Entries (IsThresholdEntry c.cfg))

    load_start_thresholds-IsSound :
        (ps : List String) (d : D) (c : Controller W)
        → AllLatch ps
        → IsSound c
        → IsSound (load_start_thresholds ps d c)
    unfolding load_start_thresholds
    load_start_thresholds-IsSound [] d c a v = v
    load_start_thresholds-IsSound (p ∷ ps) d c a v =
        load_start_thresholds-IsSound ps d (load_start_threshold p d c) a.1
          (load_start_threshold-IsSound p d c a.0 v)

    load_target_soc-IsSound :
        (p : String) (d : D) (c : Controller W)
        → is_latch_profile p ≡ true
        → IsSound c
        → IsSound (load_target_soc p d c)
    unfolding load_target_soc stored_target
    load_target_soc-IsSound p d c a v = grind (arith, insert-Entries IsTargetEntry)

    load_target_socs-IsSound :
        (ps : List String) (d : D) (c : Controller W)
        → AllLatch ps
        → IsSound c
        → IsSound (load_target_socs ps d c)
    unfolding load_target_socs
    load_target_socs-IsSound [] d c a v = v
    load_target_socs-IsSound (p ∷ ps) d c a v =
        load_target_socs-IsSound ps d (load_target_soc p d c) a.1
          (load_target_soc-IsSound p d c a.0 v)

    pub start_up-IsSound :
        (now : Time) (c : Controller W) (d : D) → IsSound c → IsSound (start_up now c d).0
    unfolding start_up
    start_up-IsSound now c d v =
        let d₁ = recover_dangling_session W now d in
        let c₁ = load_auto_profile d₁ (load_charge_power d₁ c) in
        load_target_socs-IsSound latch_profiles d₁ (load_start_thresholds latch_profiles d₁ c₁)
          latch_profiles-AllLatch
          (load_start_thresholds-IsSound latch_profiles d₁ c₁ latch_profiles-AllLatch (
            load_auto_profile-IsSound d₁ (load_charge_power d₁ c)
              (load_charge_power-IsSound d₁ c v)))

    pub start_up-cfg : (now : Time) (c : Controller W) (d : D) → (start_up now c d).0.cfg ≡ c.cfg
    unfolding start_up load_charge_power load_auto_profile load_start_thresholds
        load_start_threshold load_target_socs load_target_soc
    start_up-cfg now c d = ground arith
