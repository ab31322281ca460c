-- ===== src/Store/Tables/Prune.antt =====
-- What the janitor of controller.go leaves of the tables of samples.go and events.go.
use wallbox_homeautomation_g.Base.{
  Bool, Bool-discrete, List, Option, String, [], ap, arith, false, filter, inr, length, refl, ◌+◌,
  ◌-◌, ◌∷◌, ◌≡◌,
}
use wallbox_homeautomation_g.Base.Dict.{lookup-insert_ne, lookup-insert_self}
use wallbox_homeautomation_g.Base.Int.{pos, ℤ, ◌-ℤ◌}
use wallbox_homeautomation_g.Controller.Loop.Struct.{Controller}
use wallbox_homeautomation_g.Controller.Recorder.{KeepsSettings}
use wallbox_homeautomation_g.Controller.Settings.Startup.{prune}
use wallbox_homeautomation_g.Go.Float.{Float}
use wallbox_homeautomation_g.Go.Result.{ok}
use wallbox_homeautomation_g.Go.Time.{Time, add, before}
use wallbox_homeautomation_g.Store.{Sample}
use wallbox_homeautomation_g.Store.Tables.{
  Tables, delete_where, end_session, get_setting, insert_event, prune_events, prune_samples,
  set_setting, tables,
}

module _ {ℓ} {A : Type ℓ} where
  pub delete_where-filter :
      (at : A → Bool) (xs : List A)
      → (delete_where at xs).0 ≡ filter (λ x. Bool-discrete (at x) false) xs
  unfolding delete_where
  delete_where-filter at [] = refl
  delete_where-filter at (x ∷ xs) = ground (arith, delete_where-filter at xs)

  pub delete_where-length :
      (at : A → Bool) (xs : List A)
      → length xs ≡ length (delete_where at xs).0 + (delete_where at xs).1
  unfolding delete_where
  delete_where-length at [] = omega arith
  delete_where-length at (x ∷ xs) = ground (arith, delete_where-length at xs)

module _ {ℓ} {W : Type ℓ} ⦃f : Float W⦄ where
  -- Pruning leaves exactly the samples and events that are not older than the retention window, in
  -- their order, with the sessions and the settings as they were, and `PruneSamples` reports as many
  -- rows as went away.
  pub prune-keeps :
      (now : Time) (c : Controller W) (t : Tables W)
      → let oldest = add now (pos 0 -ℤ c.cfg.retention_window) in
        let t' = prune ⦃r = tables⦄ now c t in
        (t'.samples ≡ filter (λ s. Bool-discrete (before s.ts oldest) false) t.samples)
        × (t'.events ≡ filter (λ e. Bool-discrete (before e.ts oldest) false) t.events)
        × (t'.sessions ≡ t.sessions)
        × (t'.settings ≡ t.settings)
        × ((prune_samples oldest t).1 ≡ ok (pos (length t.samples - length t'.samples)))
  unfolding prune prune_samples prune_events
  prune-keeps now c t =
      let oldest = add now (pos 0 -ℤ c.cfg.retention_window) in
      let old : Sample W → Bool = λ s. before s.ts oldest in
      (
        delete_where-filter old t.samples,
        delete_where-filter (λ e. before e.ts oldest) t.events,
        refl,
        refl,
        ap (λ n. ok (pos n)) (omega (arith, delete_where-length old t.samples)),
      )

  end_session-settings :
      (k : String) (id : ℤ) (at : Time) (reason : String) (soc : Option ℤ) (energy mean peak : W)
      (t : Tables W)
      → get_setting k (end_session id at reason soc energy mean peak t).0 ≡ get_setting k t
  unfolding end_session get_setting
  end_session-settings k id at reason soc energy mean peak t = ground arith

  -- The tables fulfil what the loop relies on: a setting that is written is read back, and neither
  -- another setting nor an event nor the end of a session changes it.
  pub tables-KeepsSettings : KeepsSettings W (Tables W) ⦃r = tables⦄
  unfolding get_setting set_setting insert_event
  tables-KeepsSettings = record {
    get-set_self = λ k v t written. inr (ap ok (lookup-insert_self k v t.settings));
    get-set_ne = λ j k v t other. inr (ap ok (lookup-insert_ne j k v t.settings other));
    get-insert_event = λ k e t. inr refl;
    get-end_session = λ k id at reason soc energy mean peak t.
        inr (end_session-settings k id at reason soc energy mean peak t);
  }
