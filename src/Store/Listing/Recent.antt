-- ===== src/Store/Listing/Recent.antt =====
-- internal/store: what RecentSessions, RecentEvents and Samples return.
use wallbox_homeautomation_g.Base.{
  Bool-cases, List, [], arith, false, inl, inr, true, ℕ, ◌∷◌, ◌≡◌, ◌⊎◌,
}
use wallbox_homeautomation_g.Base.Int.{eq_of_parts, eq_ℤ, eq_ℤ→≡, lt_ℤ, lt_ℤ_iff, pos, ◌<ℤ◌, ◌≤ℤ◌}
use wallbox_homeautomation_g.Go.Time.{Time}
use wallbox_homeautomation_g.Store.{Event, Sample, Session}
use wallbox_homeautomation_g.Store.Listing.{
  in_range, is_earlier, is_later, max_history_rows, recent_events, recent_sessions, samples_between,
  where_rows,
}
use wallbox_homeautomation_g.Store.Listing.Order.{All, All-limit_to, IsOrder, IsTop, limit_to-IsTop}
use wallbox_homeautomation_g.Store.Tables.{Tables, is_newer}

module _ {ℓ} {W : Type ℓ} where
  -- a started after b, or with it under an id that is not less
  abbrev pub NewestFirst : Session W → Session W → Type 0
  NewestFirst a b =
      (b.started_at <ℤ a.started_at) ⊎ ((a.started_at ≡ b.started_at) × (b.id ≤ℤ a.id))

  abbrev pub LatestFirst : Event W → Event W → Type 0
  LatestFirst a b = b.ts ≤ℤ a.ts

  abbrev pub OldestFirst : Sample W → Sample W → Type 0
  OldestFirst a b = a.ts ≤ℤ b.ts

  is_newer-true : (a b : Session W) → is_newer a b ≡ true → NewestFirst a b
  unfolding is_newer lt_ℤ
  is_newer-true a b h = ground (arith, eq_ℤ→≡ a.started_at b.started_at)

  is_newer-false : (a b : Session W) → is_newer a b ≡ false → NewestFirst b a
  unfolding is_newer lt_ℤ eq_ℤ
  is_newer-false a b h = ground (arith, eq_of_parts b.started_at a.started_at)

  is_newer-IsOrder : IsOrder is_newer NewestFirst
  is_newer-IsOrder = record {
    holds = is_newer-true;
    fails = is_newer-false;
    trans = λ x y z h k. ground arith;
  }

  is_later-IsOrder : IsOrder is_later LatestFirst
  is_later-IsOrder = record {
    holds = λ x y h. ground (arith, lt_ℤ_iff x.ts y.ts);
    fails = λ x y h. ground (arith, lt_ℤ_iff x.ts y.ts);
    trans = λ x y z h k. omega arith;
  }

  is_earlier-IsOrder : IsOrder is_earlier OldestFirst
  is_earlier-IsOrder = record {
    holds = λ x y h. ground (arith, lt_ℤ_iff x.ts y.ts);
    fails = λ x y h. ground (arith, lt_ℤ_iff x.ts y.ts);
    trans = λ x y z h k. omega arith;
  }

  -- `RecentSessions` lists the newest sessions, newest first, at most `limit` of them and all if
  -- there are fewer; sessions that start together stand by id, the greatest first.
  pub recent_sessions-IsTop :
      (limit : ℕ) (t : Tables W)
      → IsTop NewestFirst limit (recent_sessions (pos limit) t) t.sessions
  unfolding recent_sessions
  recent_sessions-IsTop limit t =
      limit_to-IsTop NewestFirst is_newer is_newer-IsOrder limit t.sessions

  -- `RecentEvents` lists the latest events, latest first, at most `limit` of them and all if there
  -- are fewer.
  pub recent_events-IsTop :
      (limit : ℕ) (t : Tables W) → IsTop LatestFirst limit (recent_events (pos limit) t) t.events
  unfolding recent_events
  recent_events-IsTop limit t = limit_to-IsTop LatestFirst is_later is_later-IsOrder limit t.events

  where_rows-in_range :
      (from to : Time) (rows : List (Sample W))
      → All (λ s. (from ≤ℤ s.ts) × (s.ts ≤ℤ to)) (where_rows (in_range from to) rows)
  unfolding where_rows
  where_rows-in_range from to [] = tt
  where_rows-in_range from to (s ∷ rows) = elim (Bool-cases (in_range from to s)) [
    | inl inside ↦ rw inside (
      (ground (arith, lt_ℤ_iff s.ts from), ground (arith, lt_ℤ_iff to s.ts)),
      where_rows-in_range from to rows,
    )
    | inr outside ↦ rw outside (where_rows-in_range from to rows)
  ]

  -- `Samples` lists the oldest of the samples in the range, oldest first, at most 50000 of them and
  -- all if there are fewer.
  pub samples_between-IsTop :
      (from to : Time) (t : Tables W)
      → IsTop OldestFirst max_history_rows
          (samples_between from to t)
          (where_rows (in_range from to) t.samples)
        × All (λ s. (from ≤ℤ s.ts) × (s.ts ≤ℤ to)) (samples_between from to t)
  unfolding samples_between
  samples_between-IsTop from to t =
      let rows = where_rows (in_range from to) t.samples in
      (
        limit_to-IsTop OldestFirst is_earlier is_earlier-IsOrder max_history_rows rows,
        All-limit_to OldestFirst is_earlier is_earlier-IsOrder (λ s. (from ≤ℤ s.ts) × (s.ts ≤ℤ to))
            max_history_rows rows (where_rows-in_range from to t.samples),
      )
