-- ===== src/Controller/System/Told.antt =====
-- controller.go: what evcc was last told in the course of a run, with every command of every tick
-- that it accepted.
pub mod Charging
mod Tests
use wallbox_homeautomation_g.Base.{
  ==_of_≡, Bool-absurd, String, arith, inl, inr, refl, some, true, ◌==◌, ◌≡◌, ◌≢◌,
}
use wallbox_homeautomation_g.Config.{Control}
use wallbox_homeautomation_g.Config.Valid.{IsValidControl}
use wallbox_homeautomation_g.Config.Validate.{is_enable_mode}
use wallbox_homeautomation_g.Controller.Loop.{Plan, act, commit, plan}
use wallbox_homeautomation_g.Controller.Loop.Follow.{Knows, Told, act-told, hear, nothing_told}
use wallbox_homeautomation_g.Controller.Loop.Struct.{Controller, new}
use wallbox_homeautomation_g.Controller.Recorder.{Commander, Recorder, set_limit_soc, set_mode}
use wallbox_homeautomation_g.Controller.Settings.{
  set_auto_profile, set_charge_power, set_override, set_start_threshold, set_target_soc,
}
use wallbox_homeautomation_g.Controller.Settings.Startup.{
  load_auto_profile, load_charge_power, load_start_threshold, load_start_thresholds,
  load_target_soc, load_target_socs, start_up,
}
use wallbox_homeautomation_g.Controller.State.{mode_off}
use wallbox_homeautomation_g.Controller.System.{
  Phase, Reachable, Request, System, ask_override, ask_power, ask_profile, ask_target,
  ask_threshold, boot, booted, committed, finish, planned, prepare, request, serve, settle, step,
  sweep, waiting, ◌⇒◌,
}
use wallbox_homeautomation_g.Controller.System.Commands.{IsCommand, IsGuarded, Reachable-IsGuarded}
use wallbox_homeautomation_g.Evcc.Store.{Snapshot}
use wallbox_homeautomation_g.Go.Float.{Float}
use wallbox_homeautomation_g.Go.Time.{Time}

empty_mode : ¬ IsCommand (set_mode "")
unfolding is_enable_mode ◌==◌
empty_mode (inl e) = Bool-absurd (==_of_≡ "" mode_off e) refl
empty_mode (inr h) = Bool-absurd h refl

set_mode-ne : (m : String) → IsCommand (set_mode m) → m ≢ ""
set_mode-ne m h e = empty_mode (rw e at h)

module _ {ℓ} {W : Type ℓ} ⦃f : Float W⦄ where
  -- the same memory of what was published
  abbrev SameMemory : Controller W → Controller W → Type 0
  SameMemory c c' =
      (c'.last_mode ≡ c.last_mode)
      × (c'.limit_soc_set ≡ c.limit_soc_set)
      × (c'.last_limit_soc ≡ c.last_limit_soc)

  SameMemory-Knows : (t : Told) (c c' : Controller W) → SameMemory c c' → Knows t c → Knows t c'
  SameMemory-Knows t c c' same k = record {
    mode = rw (same.0) k.mode;
    limit = rw (same.1, same.2) k.limit;
  }

  -- A tick in progress was planned on some snapshot.
  abbrev pub IsPlan : Plan W → Type ℓ
  IsPlan p = (now : Time) × (snap : Snapshot W) × (c : Controller W) × (p ≡ plan now snap c)

  abbrev HasPlan : Phase W → Type ℓ
  HasPlan waiting = Unit
  HasPlan (planned p) = IsPlan p
  HasPlan (committed p) = IsPlan p

module _ {ℓ κ} {W : Type ℓ} {D : Type κ} ⦃f : Float W⦄ ⦃r : Recorder W D⦄ where
  -- What evcc was last told after a step: only the end of a tick sends commands.
  abbrev pub told_by : (s t : System W D) → s ⇒ t → Told → Told
  told_by s t (prepare now snap c d) told = told
  told_by s t (settle p c d) told = told
  told_by s t (finish answers p c d) told = hear answers (act answers p c d).2 told
  told_by s t (request now q _) told = told
  told_by s t (sweep now _) told = told

  -- A run of the controller from its start, with what evcc was last told in it.
  pub data Ran (cfg : Control W) (Start : D → Type 0) : Told → System W D → Type (ℓ ⊔ κ) where
    begin : (now : Time) (d : D) → Start d → Ran cfg Start nothing_told (booted cfg now d)
    go_on :
        {told : Told} {s t : System W D}
        → Ran cfg Start told s
        → (e : s ⇒ t) → Ran cfg Start (told_by s t e told) t

  Ran-Reachable :
      (cfg : Control W) (Start : D → Type 0) (told : Told) (s : System W D)
      → Ran cfg Start told s
      → Reachable cfg Start s
  Ran-Reachable cfg Start told s (begin now d h) = boot now d h
  Ran-Reachable cfg Start _ t (go_on {told} {s} h e) = step (Ran-Reachable cfg Start told s h) e

  serve-SameMemory :
      (now : Time) (q : Request W) (c : Controller W) (d : D) → SameMemory c (serve now q c d).0
  unfolding serve set_override set_charge_power set_auto_profile set_start_threshold set_target_soc
  serve-SameMemory now (ask_override mode until bypass soc) c d = ground arith
  serve-SameMemory now (ask_power mode) c d = ground arith
  serve-SameMemory now (ask_profile name) c d = ground arith
  serve-SameMemory now (ask_threshold w) c d = ground arith
  serve-SameMemory now (ask_target pct) c d = ground arith

  start_up-SameMemory : (now : Time) (c : Controller W) (d : D) → SameMemory c (start_up now c d).0
  unfolding start_up load_charge_power load_auto_profile load_start_thresholds load_start_threshold
      load_target_socs load_target_soc
  start_up-SameMemory now c d = ground arith

  step-HasPlan : (s t : System W D) → s ⇒ t → HasPlan s.phase → HasPlan t.phase
  step-HasPlan s t (prepare now snap c d) h = (now, snap, c, refl)
  step-HasPlan s t (settle p c d) h = h
  step-HasPlan s t (finish answers p c d) h = tt
  step-HasPlan s t (request now q _) h = h
  step-HasPlan s t (sweep now _) h = h

  Ran-HasPlan :
      (cfg : Control W) (Start : D → Type 0) (told : Told) (s : System W D)
      → Ran cfg Start told s
      → HasPlan s.phase
  unfolding booted
  Ran-HasPlan cfg Start told s (begin now d h) = tt
  Ran-HasPlan cfg Start _ t (go_on {told} {s} h e) =
      step-HasPlan s t e (Ran-HasPlan cfg Start told s h)

  step-Knows :
      (s t : System W D) (e : s ⇒ t) (told : Told)
      → IsGuarded s.phase
      → Knows told s.control
      → Knows (told_by s t e told) t.control
  unfolding commit
  step-Knows s t (prepare now snap c d) told g k = k
  step-Knows s t (settle p c d) told g k = record { mode = k.mode; limit = k.limit }
  step-Knows s t (finish answers p c d) told g k =
      (act-told answers p c d told (set_mode-ne p.decision.desired_mode g.mode) k).0
  step-Knows s t (request now q _) told g k =
      SameMemory-Knows told s.control t.control (serve-SameMemory now q s.control s.database) k
  step-Knows s t (sweep now _) told g k = k

  booted-Knows :
      (cfg : Control W) (now : Time) (d : D) → Knows nothing_told (booted cfg now d).control
  unfolding booted new
  booted-Knows cfg now d =
      SameMemory-Knows nothing_told (new cfg) (start_up now (new cfg) d).0
        (start_up-SameMemory now (new cfg) d) (record { mode = inl refl; limit = inl refl })

  Ran-Knows :
      (cfg : Control W) (Start : D → Type 0) (told : Told) (s : System W D)
      → IsValidControl cfg
      → Ran cfg Start told s
      → Knows told s.control
  Ran-Knows cfg Start told s v (begin now d h) = booted-Knows cfg now d
  Ran-Knows cfg Start _ t v (go_on {told} {s} h e) =
      step-Knows s t e told (Reachable-IsGuarded cfg Start s v (Ran-Reachable cfg Start told s h))
        (Ran-Knows cfg Start told s v h)

  -- In every run of the controller with a valid configuration, whatever evcc refused before: a tick
  -- that comes to its end was planned on some snapshot, and after it what the controller remembers as
  -- published is what evcc was last told by the commands of the whole run that it accepted. If
  -- publishing the mode of the tick's decision reports no error, that mode is the last one told; and
  -- if publishing the tick's `LimitSoCTarget` reports none and the broker was connected in its
  -- snapshot, that limit is the last one told.
  pub act-follows :
      (cfg : Control W) (Start : D → Type 0) (told : Told) (p : Plan W) (c : Controller W) (d : D)
      (answers : Commander)
      → IsValidControl cfg
      → Ran cfg Start told (record { control = c; database = d; phase = committed p })
      → let (c', d', sent) = act answers p c d in
        let told' = hear answers sent told in
        IsPlan p
        × Knows told' c'
        × (answers (set_mode p.decision.desired_mode) ≡ true
            → told'.mode ≡ some p.decision.desired_mode)
        × (p.snap.broker_connected ≡ true
            → answers (set_limit_soc p.limit_target) ≡ true
            → told'.limit ≡ some p.limit_target)
  act-follows cfg Start told p c d answers v h =
      let s : System W D = record { control = c; database = d; phase = committed p } in
      let sendable = Reachable-IsGuarded cfg Start s v (Ran-Reachable cfg Start told s h) in
      let (knows, mode, limit) =
        act-told answers p c d told (set_mode-ne p.decision.desired_mode sendable.mode)
          (Ran-Knows cfg Start told s v h) in
      (Ran-HasPlan cfg Start told s h, knows, mode, limit)
