-- ===== src/Controller/System/Commands.antt =====
-- What the running controller of controller.go ever publishes to evcc.
use wallbox_homeautomation_g.Base.{
  Bool, List, Option-cases, String, [], arith, if◌then◌else◌, inl, inr, refl, true, ◌++◌, ◌==◌, ◌∷◌,
  ◌≡◌, ◌⊎◌,
}
use wallbox_homeautomation_g.Base.Dict.{Dict, Entries, lookup, lookup-Entries, or_zero}
use wallbox_homeautomation_g.Base.Int.{lt_ℤ_iff, pos, ℤ, ◌≤ℤ◌}
use wallbox_homeautomation_g.Config.{Control, enable_mode_now}
use wallbox_homeautomation_g.Config.Valid.{IsValidControl, is_enable_mode_iff}
use wallbox_homeautomation_g.Config.Validate.{is_enable_mode}
use wallbox_homeautomation_g.Controller.Inputs.{inputs_from_snapshot}
use wallbox_homeautomation_g.Controller.Loop.{Plan, act, forced, limit_stage, mode_stage, plan}
use wallbox_homeautomation_g.Controller.Loop.Publish.{publish_limit_soc, publish_mode}
use wallbox_homeautomation_g.Controller.Loop.Struct.{Controller}
use wallbox_homeautomation_g.Controller.Policy.{
  decide, decide_auto, decide_from_charging, decide_from_idle, decide_latch, decide_profile,
  effective_mode,
}
use wallbox_homeautomation_g.Controller.Policy.Limit.{limit_soc_target-range}
use wallbox_homeautomation_g.Controller.Recorder.{
  Command, Commander, Recorder, set_limit_soc, set_mode,
}
use wallbox_homeautomation_g.Controller.Settings.{is_target_soc}
use wallbox_homeautomation_g.Controller.Settings.Valid.{IsSound, IsTargetEntry, IsValidSettings}
use wallbox_homeautomation_g.Controller.State.{
  ControlState, Inputs, State, Timers, latch_overrides, mode_off,
}
use wallbox_homeautomation_g.Controller.System.{
  Phase, Reachable, System, boot, booted, committed, finish, planned, prepare, request, settle,
  step, sweep, waiting, ◌⇒◌,
}
use wallbox_homeautomation_g.Controller.System.Sound.{Reachable-IsSafe}
use wallbox_homeautomation_g.Evcc.Store.{Snapshot}
use wallbox_homeautomation_g.Go.Float.{Float}
use wallbox_homeautomation_g.Go.Time.{Time}

-- A charge mode that evcc is to be told, and a limit that is a percentage.
abbrev pub IsCommand : Command → Type 0
IsCommand (set_mode m) = (m ≡ mode_off) ⊎ (is_enable_mode m ≡ true)
IsCommand (set_limit_soc n) = (pos 1 ≤ℤ n) × (n ≤ℤ pos 100)

abbrev pub AllCommands : List Command → Type 0
AllCommands [] = Unit {0}
AllCommands (x ∷ xs) = IsCommand x × AllCommands xs

AllCommands-++ : (xs ys : List Command) → AllCommands xs → AllCommands ys → AllCommands (xs ++ ys)
AllCommands-++ [] ys h k = k
AllCommands-++ (x ∷ xs) ys h k = (h.0, AllCommands-++ xs ys h.1 k)

now-IsCommand : is_enable_mode enable_mode_now ≡ true
now-IsCommand = (is_enable_mode_iff enable_mode_now).1 (inr refl)

target_soc-range : (pct : ℤ) → is_target_soc pct ≡ true → (pos 1 ≤ℤ pct) × (pct ≤ℤ pos 100)
unfolding is_target_soc
target_soc-range pct h = ground (arith, lt_ℤ_iff pct (pos 50), lt_ℤ_iff (pos 100) pct)

lookup-range :
    (k : String) (m : Dict ℤ)
    → Entries IsTargetEntry m
    → (or_zero (pos 0) (lookup k m) ≡ pos 0)
      ⊎ ((pos 1 ≤ℤ or_zero (pos 0) (lookup k m)) × (or_zero (pos 0) (lookup k m) ≤ℤ pos 100))
lookup-range k m h = elim (Option-cases (lookup k m)) [
  | inl none_ ↦ rw none_ (inl refl)
  | inr (v, e) ↦ rw e (inr (target_soc-range v (lookup-Entries IsTargetEntry k v m h e).1))
]

module _ {ℓ} {W : Type ℓ} ⦃f : Float W⦄ where
  -- the commands that a plan may send
  pub record IsSendable (p : Plan W) : Type 0 where
    pub mode : IsCommand (set_mode p.decision.desired_mode)
    pub limit : IsCommand (set_limit_soc p.limit_target)

  effective_mode-IsCommand :
      (inp : Inputs W) (cfg : Control W)
      → is_enable_mode inp.charge_power ≡ true
      → IsValidControl cfg
      → is_enable_mode (effective_mode inp cfg) ≡ true
  unfolding effective_mode
  effective_mode-IsCommand inp cfg h v = ground (arith, is_enable_mode_iff cfg.enable_mode)

  decide_auto-IsCommand :
      (now : Time) (inp : Inputs W) (st : State) (tm : Timers) (cfg : Control W)
      → is_enable_mode (effective_mode inp cfg) ≡ true
      → IsCommand (set_mode (decide_auto now inp st tm cfg).desired_mode)
  unfolding decide_auto decide_profile decide_latch decide_from_idle decide_from_charging
  decide_auto-IsCommand now inp st tm cfg h = ground (arith, now-IsCommand)

  decide-IsCommand :
      (now : Time) (inp : Inputs W) (st : State) (tm : Timers) (cfg : Control W)
      → is_enable_mode (effective_mode inp cfg) ≡ true
      → IsCommand (set_mode (decide now inp st tm cfg).desired_mode)
  unfolding decide
  decide-IsCommand now inp st tm cfg h = ground (arith, decide_auto-IsCommand now inp st tm cfg h)

  pub target-range :
      (cfg : Control W) (s : ControlState W)
      → IsValidSettings cfg s
      → let t = (latch_overrides s cfg).1 in (t ≡ pos 0) ⊎ ((pos 1 ≤ℤ t) × (t ≤ℤ pos 100))
  unfolding latch_overrides
  target-range cfg s v =
      lookup-range (if s.auto_profile == "" then cfg.auto_profile else s.auto_profile) s.target_soc
        v.targets

  plan-IsSendable :
      (now : Time) (snap : Snapshot W) (c : Controller W) → IsSound c → IsSendable (plan now snap c)
  unfolding plan inputs_from_snapshot
  plan-IsSendable now snap c v = record {
    mode =
        decide-IsCommand now (inputs_from_snapshot now snap c.cfg c.ctrl) c.state c.timers c.cfg (
          effective_mode-IsCommand (inputs_from_snapshot now snap c.cfg c.ctrl) c.cfg
            v.settings.power v.config);
    limit =
        let range =
          limit_soc_target-range now (inputs_from_snapshot now snap c.cfg c.ctrl) c.cfg v.config
            (target-range c.cfg c.ctrl v.settings) in
        (range.0, range.1);
  }

  -- the commands that the tick in progress may still send
  abbrev pub IsGuarded : Phase W → Type 0
  IsGuarded waiting = Unit
  IsGuarded (planned p) = IsSendable p
  IsGuarded (committed p) = IsSendable p

module _ {ℓ κ} {W : Type ℓ} {D : Type κ} ⦃f : Float W⦄ ⦃r : Recorder W D⦄ where
  mode_stage-AllCommands :
      (answers : Commander) (p : Plan W) (c : Controller W) (d : D)
      → IsSendable p
      → AllCommands (mode_stage answers p c d).2
  unfolding mode_stage publish_mode
  mode_stage-AllCommands answers p c d h = ground (arith, h.mode)

  limit_stage-AllCommands :
      (answers : Commander) (p : Plan W) (force : Bool) (c : Controller W) (d : D)
      → IsSendable p
      → AllCommands (limit_stage answers p force c d).2
  unfolding limit_stage publish_limit_soc
  limit_stage-AllCommands answers p force c d h = ground (arith, h.limit)

  act-AllCommands :
      (answers : Commander) (p : Plan W) (c : Controller W) (d : D)
      → IsSendable p
      → AllCommands (act answers p c d).2
  unfolding act
  act-AllCommands answers p c d h =
      let x = mode_stage answers p c d in
      AllCommands-++ x.2 (limit_stage answers p (forced p c) x.0 x.1).2
        (mode_stage-AllCommands answers p c d h)
        (limit_stage-AllCommands answers p (forced p c) x.0 x.1 h)

  step-IsGuarded :
      (s t : System W D) → s ⇒ t → IsSound s.control → IsGuarded s.phase → IsGuarded t.phase
  step-IsGuarded s t (prepare now snap c d) v h = plan-IsSendable now snap c v
  step-IsGuarded s t (settle p c d) v h = h
  step-IsGuarded s t (finish answers p c d) v h = tt
  step-IsGuarded s t (request now q _) v h = h
  step-IsGuarded s t (sweep now _) v h = h

  pub Reachable-IsGuarded :
      (cfg : Control W) (Start : D → Type 0) (s : System W D)
      → IsValidControl cfg
      → Reachable cfg Start s
      → IsGuarded s.phase
  unfolding booted
  Reachable-IsGuarded cfg Start s v (boot now d _) = tt
  Reachable-IsGuarded cfg Start _ v (step {s} {t} h e) =
      step-IsGuarded s t e (Reachable-IsSafe cfg Start s v h).sound
        (Reachable-IsGuarded cfg Start s v h)

  -- For a valid configuration, every command that the loop sends in a reachable state sets the mode
  -- "off", "pv" or "now", or a limit from 1 to 100 percent, whatever evcc, the database and the
  -- web layer did before.
  pub Reachable-AllCommands :
      (cfg : Control W) (Start : D → Type 0) (p : Plan W) (c : Controller W) (d : D)
      (answers : Commander)
      → IsValidControl cfg
      → Reachable cfg Start (record { control = c; database = d; phase = committed p })
      → AllCommands (act answers p c d).2
  Reachable-AllCommands cfg Start p c d answers v h = act-AllCommands answers p c d (
      Reachable-IsGuarded cfg Start (record { control = c; database = d; phase = committed p }) v h)
