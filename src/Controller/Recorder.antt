-- ===== src/Controller/Recorder.antt =====
-- The interface `Recorder` of internal/controller/controller.go: what the loop asks of the
-- database, over any type D of database states. An error leaves no value but may change the state.
use wallbox_homeautomation_g.Base.{Bool, Option, String, false, some, true, ◌==◌, ◌≡◌, ◌⊎◌}
use wallbox_homeautomation_g.Base.Int.{ℤ}
use wallbox_homeautomation_g.Go.Result.{Done, Result, err, is_ok, ok}
use wallbox_homeautomation_g.Go.Time.{Time}
use wallbox_homeautomation_g.Store.{Event, Sample, Session}

pub record Recorder {ℓ κ} (W : Type ℓ) (D : Type κ) : Type (ℓ ⊔ κ) where
  pub insert_event : Event W → D → D × Done
  pub insert_sample : Sample W → D → D × Done
  pub start_session : Time → String → Option ℤ → D → D × Result ℤ
  pub update_session_metrics : ℤ → W → W → W → D → D × Done
  pub end_session : ℤ → Time → String → Option ℤ → W → W → W → D → D × Done
  pub open_session : D → Result (Option (Session W))
  pub prune_samples : Time → D → D × Result ℤ
  pub prune_events : Time → D → D × Result ℤ
  pub get_setting : String → D → Result (Option String)
  pub set_setting : String → String → D → D × Done

-- What the loop's settings rely on: a write that reports success is read back, unless the read
-- fails, and no other statement touches the settings.
pub record KeepsSettings {ℓ κ} (W : Type ℓ) (D : Type κ) ⦃r : Recorder W D⦄ : Type (ℓ ⊔ κ) where
  pub get-set_self :
      (k v : String) (d : D)
      → is_ok (r.set_setting k v d).1 ≡ true
      → (r.get_setting k (r.set_setting k v d).0 ≡ err)
        ⊎ (r.get_setting k (r.set_setting k v d).0 ≡ ok (some v))
  pub get-set_ne :
      (j k v : String) (d : D)
      → (j == k) ≡ false
      → (r.get_setting j (r.set_setting k v d).0 ≡ err)
        ⊎ (r.get_setting j (r.set_setting k v d).0 ≡ r.get_setting j d)
  pub get-insert_event :
      (k : String) (e : Event W) (d : D)
      → (r.get_setting k (r.insert_event e d).0 ≡ err)
        ⊎ (r.get_setting k (r.insert_event e d).0 ≡ r.get_setting k d)
  pub get-end_session :
      (k : String) (id : ℤ) (at : Time) (reason : String) (soc : Option ℤ) (en avg peak : W) (d : D)
      → (r.get_setting k (r.end_session id at reason soc en avg peak d).0 ≡ err)
        ⊎ (r.get_setting k (r.end_session id at reason soc en avg peak d).0 ≡ r.get_setting k d)

-- The interface `Commander`: what is published to evcc, and whether that reported no error.
pub data Command : Type 0 where
  set_mode : String → Command
  set_limit_soc : ℤ → Command

abbrev pub Commander : Type 0
Commander = Command → Bool
