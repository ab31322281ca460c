-- ===== src/Store/Tables.antt =====
-- internal/store: sessions.go, events.go, samples.go and settings.go over tables that are lists of
-- rows, in the order of their ids. A statement fails only where the code makes an error of what it
-- affected; failures of the driver are behind the interface of Controller.Recorder. Timestamps are
-- compared as times, which the fixed-width text of db.go makes the order of the texts.
pub mod Open
pub mod Track
pub mod Prune
use wallbox_homeautomation_g.Base.{
  Bool, List, Option, String, [], eqb, false, if◌then◌else◌, none, some, true, ℕ, ◌&&◌, ◌++◌, ◌+◌,
  ◌||◌, ◌∷◌,
}
use wallbox_homeautomation_g.Base.Dict.{Dict, insert, lookup}
use wallbox_homeautomation_g.Base.Int.{eq_ℤ, lt_ℤ, pos, ℤ, ◌+ℤ◌}
use wallbox_homeautomation_g.Controller.Recorder.{Recorder}
use wallbox_homeautomation_g.Go.Float.{Float, nought}
use wallbox_homeautomation_g.Go.Result.{Done, Result, err, ok}
use wallbox_homeautomation_g.Go.Time.{Time, before, equal}
use wallbox_homeautomation_g.Store.{Event, Sample, Session}

pub record Tables {ℓ} (W : Type ℓ) : Type ℓ where
  pub sessions : List (Session W)
  -- the id that the next session gets
  pub next_id : ℤ
  pub events : List (Event W)
  pub samples : List (Sample W)
  pub settings : Dict String

module _ {ℓ} {A : Type ℓ} where
  -- `UPDATE … SET … WHERE …`, with the number of rows affected
  unfoldable pub update_where : (A → Bool) → (A → A) → List A → List A × ℕ
  update_where at change [] = ([], 0)
  update_where at change (x ∷ xs) =
      let (ys, n) = update_where at change xs in
      if at x then (change x ∷ ys, n + 1) else (x ∷ ys, n)

  -- `DELETE FROM … WHERE …`
  unfoldable pub delete_where : (A → Bool) → List A → List A × ℕ
  delete_where at [] = ([], 0)
  delete_where at (x ∷ xs) =
      let (ys, n) = delete_where at xs in if at x then (ys, n + 1) else (x ∷ ys, n)

module _ {ℓ} {W : Type ℓ} where
  unfoldable pub is_open : Session W → Bool
  is_open s = elim s.ended_at [ none ↦ true | some t ↦ false ]

  -- `ORDER BY started_at DESC, id DESC`: whether a comes before b
  unfoldable pub is_newer : Session W → Session W → Bool
  is_newer a b =
      before b.started_at a.started_at || (equal a.started_at b.started_at && lt_ℤ b.id a.id)

  -- the open session that comes first
  unfoldable pub newest_open : List (Session W) → Option (Session W)
  newest_open [] = none
  newest_open (s ∷ ss) =
      let rest = newest_open ss in
      if is_open s
      then elim rest [ none ↦ some s | some o ↦ if is_newer s o then some s else some o ]
      else rest

  abbrev pub with_sessions : Tables W → List (Session W) → Tables W
  with_sessions t ss = record t { sessions = ss }

  -- `sql.ErrNoRows` where an update affected no row
  abbrev pub affected : Tables W → List (Session W) × ℕ → Tables W × Done
  affected t (ss, n) = if eqb n 0 then (with_sessions t ss, err) else (with_sessions t ss, ok tt)

  unfoldable pub update_session_metrics : ℤ → W → W → W → Tables W → Tables W × Done
  update_session_metrics id energy average peak t = affected t (
      update_where (λ s. eq_ℤ s.id id && is_open s)
        (λ s. record s { energy_wh = energy; avg_charge_w = average; peak_charge_w = peak })
        t.sessions)

  unfoldable pub ended : Time → String → Option ℤ → W → W → W → Session W → Session W
  ended at reason soc energy average peak s = record s {
    ended_at = some at;
    stop_reason = reason;
    end_vehicle_soc = soc;
    energy_wh = energy;
    avg_charge_w = average;
    peak_charge_w = peak;
  }

  unfoldable pub end_session : ℤ → Time → String → Option ℤ → W → W → W → Tables W → Tables W × Done
  end_session id at reason soc energy average peak t =
      affected t
        (update_where (λ s. eq_ℤ s.id id) (ended at reason soc energy average peak) t.sessions)

  unfoldable pub insert_event : Event W → Tables W → Tables W × Done
  insert_event e t = (record t { events = t.events ++ (e ∷ []) }, ok tt)

  unfoldable pub insert_sample : Sample W → Tables W → Tables W × Done
  insert_sample s t = (record t { samples = t.samples ++ (s ∷ []) }, ok tt)

  unfoldable pub prune_samples : Time → Tables W → Tables W × Result ℤ
  prune_samples oldest t =
      let (rows, n) = delete_where (λ s. before s.ts oldest) t.samples in
      (record t { samples = rows }, ok (pos n))

  unfoldable pub prune_events : Time → Tables W → Tables W × Result ℤ
  prune_events oldest t =
      let (rows, n) = delete_where (λ e. before e.ts oldest) t.events in
      (record t { events = rows }, ok (pos n))

  unfoldable pub get_setting : String → Tables W → Result (Option String)
  get_setting k t = ok (lookup k t.settings)

  unfoldable pub set_setting : String → String → Tables W → Tables W × Done
  set_setting k v t = (record t { settings = insert k v t.settings }, ok tt)

module _ {ℓ} {W : Type ℓ} ⦃f : Float W⦄ where
  unfoldable pub start_session : Time → String → Option ℤ → Tables W → Tables W × Result ℤ
  start_session at reason soc t =
      let row : Session W = record {
        id = t.next_id;
        started_at = at;
        ended_at = none;
        start_reason = reason;
        stop_reason = "";
        start_vehicle_soc = soc;
        end_vehicle_soc = none;
        energy_wh = nought;
        avg_charge_w = nought;
        peak_charge_w = nought;
      } in
      (record t { sessions = t.sessions ++ (row ∷ []); next_id = t.next_id +ℤ pos 1 }, ok t.next_id)

  instance abbrev pub tables : Recorder W (Tables W)
  tables = record {
    insert_event = insert_event;
    insert_sample = insert_sample;
    start_session = start_session;
    update_session_metrics = update_session_metrics;
    end_session = end_session;
    open_session = λ t. ok (newest_open t.sessions);
    prune_samples = prune_samples;
    prune_events = prune_events;
    get_setting = get_setting;
    set_setting = set_setting;
  }
