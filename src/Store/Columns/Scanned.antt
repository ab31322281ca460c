-- ===== src/Store/Columns/Scanned.antt =====
-- sessions.go: the statements over columns do what those over scanned sessions do.
use wallbox_homeautomation_g.Base.{
  Bool, Bool-cases, List, Option, String, [], ap, arith, eqb, false, if◌then◌else◌, inl, inr, none,
  refl, some, true, ℕ, ◌&&◌, ◌++◌, ◌+◌, ◌∷◌, ◌≡◌,
}
use wallbox_homeautomation_g.Base.Dict.{or_zero}
use wallbox_homeautomation_g.Base.Int.{eq_ℤ, ℤ}
use wallbox_homeautomation_g.Go.Float.{Float, nought}
use wallbox_homeautomation_g.Go.Result.{Done, bind-ok, err, of_option, of_option-ok, ok}
use wallbox_homeautomation_g.Go.Time.{Time}
use wallbox_homeautomation_g.Store.{Session}
use wallbox_homeautomation_g.Store.Columns.{
  SessionRow, end_session_rows, ended_row, is_open_row, measured_row, parse_null, scan_session,
  started_row, update_metrics_rows,
}
use wallbox_homeautomation_g.Store.Tables.{
  Tables, affected, end_session, ended, is_open, start_session, update_session_metrics,
  update_where,
}
use wallbox_homeautomation_g.Updater.Examples.{started}
use wallbox_homeautomation_g.Web.I18n.{format}

-- the result of a statement by the number of rows that it affected
abbrev pub outcome_of : ℕ → Done
outcome_of n = if eqb n 0 then err else ok tt

parse_null-is_open :
    (parse : String → Option Time) (text : Option String) (o : Option Time)
    → parse_null parse text ≡ ok o
    → (elim text as (λ t. Bool) [ none ↦ true | some t ↦ false ])
      ≡ (elim o as (λ t. Bool) [ none ↦ true | some t ↦ false ])
parse_null-is_open parse none none h = refl
parse_null-is_open parse none (some t) h = absurd (cc)
parse_null-is_open parse (some text) o h = ground arith

module _ {ℓ} {W : Type ℓ} (parse : String → Option Time) where
  -- row by row, the sessions are what a scan reads
  pub data Scans : List (SessionRow W) → List (Session W) → Type ℓ where
    no_rows : Scans [] []
    next_row :
        {x : SessionRow W} {s : Session W} {xs : List (SessionRow W)} {ss : List (Session W)}
        → scan_session parse x ≡ ok s
        → Scans xs ss
        → Scans (x ∷ xs) (s ∷ ss)

  update_where-Scans :
      (at : SessionRow W → Bool) (at' : Session W → Bool) (change : SessionRow W → SessionRow W)
      (change' : Session W → Session W)
      → ((x : SessionRow W) (s : Session W) → scan_session parse x ≡ ok s → at x ≡ at' s)
      → ((x : SessionRow W) (s : Session W)
          → scan_session parse x ≡ ok s
          → scan_session parse (change x) ≡ ok (change' s))
      → (xs : List (SessionRow W)) (ss : List (Session W)) → Scans xs ss
      → Scans (update_where at change xs).0 (update_where at' change' ss).0
        × ((update_where at change xs).1 ≡ (update_where at' change' ss).1)
  unfolding update_where
  update_where-Scans at at' change change' same commutes [] [] no_rows = (no_rows, refl)
  update_where-Scans at at' change change' same commutes [] (s ∷ ss) h = elim h [ ]
  update_where-Scans at at' change change' same commutes (x ∷ xs) [] h = elim h [ ]
  update_where-Scans at at' change change' same commutes (x ∷ xs) (s ∷ ss) (next_row e h) =
      let (rest, counts) = update_where-Scans at at' change change' same commutes xs ss h in
      elim (Bool-cases (at' s)) [
        | inl hit ↦ rw (same x s e, hit) (next_row (commutes x s e) rest, ap (λ n. n + 1) counts)
        | inr miss ↦ rw (same x s e, miss) (next_row e rest, counts)
      ]

  append-Scans :
      (xs : List (SessionRow W)) (ss : List (Session W)) (x : SessionRow W) (s : Session W)
      → Scans xs ss
      → scan_session parse x ≡ ok s
      → Scans (xs ++ x ∷ []) (ss ++ s ∷ [])
  append-Scans [] [] x s no_rows e = next_row e no_rows
  append-Scans [] (t ∷ ts) x s h e = elim h [ ]
  append-Scans (y ∷ ys) [] x s h e = elim h [ ]
  append-Scans (y ∷ ys) (t ∷ ts) x s (next_row e' h) e = next_row e' (append-Scans ys ts x s h e)

  -- what a scanned session has of its row
  abbrev session_of : SessionRow W → Time → Option Time → Session W
  session_of x started ended = record {
    id = x.id;
    started_at = started;
    ended_at = ended;
    start_reason = x.start_reason;
    stop_reason = or_zero "" x.stop_reason;
    start_vehicle_soc = x.start_vehicle_soc;
    end_vehicle_soc = x.end_vehicle_soc;
    energy_wh = x.energy_wh;
    avg_charge_w = x.avg_charge_w;
    peak_charge_w = x.peak_charge_w;
  }

  scan-parts :
      (x : SessionRow W) (s : Session W)
      → scan_session parse x ≡ ok s
      → (t : Time) × (o : Option Time) × (parse x.started_at ≡ some t)
        × (parse_null parse x.ended_at ≡ ok o)
        × (s ≡ session_of x t o)
  unfolding scan_session
  scan-parts x s e =
      let (t, started, e₁) = bind-ok (of_option (parse x.started_at)) _ s e in
      let (o, ended, e₂) = bind-ok (parse_null parse x.ended_at) _ s e₁ in
      (t, o, of_option-ok (parse x.started_at) t started, ended, cc)

  scan-fields :
      (x : SessionRow W) (s : Session W)
      → scan_session parse x ≡ ok s
      → (x.id ≡ s.id) × (is_open_row x ≡ is_open s)
  unfolding is_open
  scan-fields x s e =
      let (t, o, started, ended, same) = scan-parts x s e in
      rw same (refl, parse_null-is_open parse x.ended_at o ended)

  scan-ended :
      (format : Time → String) (at : Time) (reason : String) (soc : Option ℤ) (en av pk : W)
      → parse (format at) ≡ some at
      → (x : SessionRow W) (s : Session W) → scan_session parse x ≡ ok s
      → scan_session parse (ended_row format at reason soc en av pk x)
        ≡ ok (ended at reason soc en av pk s)
  unfolding scan_session ended_row ended
  scan-ended format at reason soc en av pk reads x s e =
      let (t, o, started, was, same) = scan-parts x s e in rw (started, reads, same) refl

  scan-measured :
      (en av pk : W) (x : SessionRow W) (s : Session W)
      → scan_session parse x ≡ ok s
      → scan_session parse (measured_row en av pk x)
        ≡ ok (record s { energy_wh = en; avg_charge_w = av; peak_charge_w = pk })
  unfolding scan_session
  scan-measured en av pk x s e =
      let (t, o, started, was, same) = scan-parts x s e in rw (started, was, same) refl

  abbrev pub FollowedBy : List (SessionRow W) × ℕ → Tables W × Done → Type ℓ
  FollowedBy (xs, n) (t, answer) = Scans xs t.sessions × (answer ≡ outcome_of n)

  affected-FollowedBy :
      (t : Tables W) (r : List (SessionRow W) × ℕ) (r' : List (Session W) × ℕ)
      → Scans r.0 r'.0 × (r.1 ≡ r'.1)
      → FollowedBy r (affected t r')
  affected-FollowedBy t r r' (h, e) = elim (Bool-cases (eqb r'.1 0)) [
    | inl zero_rows ↦ rw (e, zero_rows) (h, refl)
    | inr some_rows ↦ rw (e, some_rows) (h, refl)
  ]

module _ {ℓ} {W : Type ℓ} ⦃f : Float W⦄ where
  started_lem :
      (format : Time → String) (parse : String → Option Time) (id : ℤ) (at : Time) (reason : String)
      (soc : Option ℤ)
      → parse (format at) ≡ some at
      → scan_session parse (started_row format id at reason soc)
        ≡ ok (record {
          id = id;
          started_at = at;
          ended_at = none;
          start_reason = reason;
          stop_reason = "";
          start_vehicle_soc = soc;
          end_vehicle_soc = none;
          energy_wh = nought {W = W};
          avg_charge_w = nought {W = W};
          peak_charge_w = nought {W = W};
        })
  unfolding scan_session started_row
  started_lem format parse id at reason soc reads = rw reads refl

  same_test :
      (id : ℤ) (x : SessionRow W) (s : Session W)
      → (x.id ≡ s.id) × (is_open_row x ≡ is_open s)
      → (eq_ℤ x.id id && is_open_row x) ≡ (eq_ℤ s.id id && is_open s)
  same_test id x s (e, o) = rw (e, o) refl

  -- The statements on charge_sessions, over columns with texts of times and NULLs, do what the tables
  -- of sessions do, as `scanSession` reads the columns, if the time that is written reads as itself:
  -- an inserted row, an end and an update of the metrics, with the errors for no row affected.
  pub session_rows-Scans :
      (format : Time → String) (parse : String → Option Time) (xs : List (SessionRow W))
      (t : Tables W) (id : ℤ) (at : Time) (reason : String) (soc : Option ℤ) (en av pk : W)
      → Scans parse xs t.sessions
      → parse (format at) ≡ some at
      → Scans parse
          (xs ++ started_row format t.next_id at reason soc ∷ [])
          (start_session at reason soc t).0.sessions
        × FollowedBy parse
            (end_session_rows format id at reason soc en av pk xs)
            (end_session id at reason soc en av pk t)
        × FollowedBy parse
            (update_metrics_rows id en av pk xs)
            (update_session_metrics id en av pk t)
  unfolding start_session end_session update_session_metrics end_session_rows update_metrics_rows
  session_rows-Scans format parse xs t id at reason soc en av pk h reads = (
    append-Scans parse xs t.sessions (started_row format t.next_id at reason soc) _ h
        (started_lem format parse t.next_id at reason soc reads),
    affected-FollowedBy parse t _ _ (
        update_where-Scans parse (λ x. eq_ℤ x.id id) (λ s. eq_ℤ s.id id)
          (ended_row format at reason soc en av pk) (ended at reason soc en av pk)
          (λ x s e. ap (λ n. eq_ℤ n id) (scan-fields parse x s e).0)
          (scan-ended parse format at reason soc en av pk reads) xs t.sessions h),
    affected-FollowedBy parse t _ _ (
        update_where-Scans parse (λ x. eq_ℤ x.id id && is_open_row x)
          (λ s. eq_ℤ s.id id && is_open s) (measured_row en av pk)
          (λ s. record s { energy_wh = en; avg_charge_w = av; peak_charge_w = pk })
          (λ x s e. same_test id x s (scan-fields parse x s e)) (scan-measured parse en av pk) xs
          t.sessions h),
  )
