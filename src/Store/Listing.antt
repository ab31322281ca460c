-- ===== src/Store/Listing.antt =====
-- internal/store: the queries that list rows, RecentSessions, RecentEvents and Samples. The rows of
-- a table stand in the order of their ids; how a row is scanned is in Store.Columns for sessions.
pub mod Order
pub mod Recent
use wallbox_homeautomation_g.Base.{Bool, List, [], if◌then◌else◌, not, suc, zero, ℕ, ◌&&◌, ◌∷◌}
use wallbox_homeautomation_g.Base.Int.{negsuc, pos, ℤ}
use wallbox_homeautomation_g.Go.Time.{Time, before}
use wallbox_homeautomation_g.Store.{Event, Sample, Session}
use wallbox_homeautomation_g.Store.Tables.{Tables, is_newer}

module _ {ℓ} {A : Type ℓ} where
  -- `ORDER BY`: a row that comes in front of the listed ones unless one of them is to come before it
  unfoldable pub insert_by : (A → A → Bool) → A → List A → List A
  insert_by first x [] = x ∷ []
  insert_by first x (y ∷ ys) = if first y x then y ∷ insert_by first x ys else x ∷ y ∷ ys

  unfoldable pub order_by : (A → A → Bool) → List A → List A
  order_by first [] = []
  order_by first (x ∷ xs) = insert_by first x (order_by first xs)

  abbrev pub take : ℕ → List A → List A
  take zero xs = []
  take (suc n) [] = []
  take (suc n) (x ∷ xs) = x ∷ take n xs

  -- `LIMIT`: a negative one is none.
  unfoldable pub limit_to : ℤ → List A → List A
  limit_to (pos n) xs = take n xs
  limit_to (negsuc n) xs = xs

  unfoldable pub where_rows : (A → Bool) → List A → List A
  where_rows test [] = []
  where_rows test (x ∷ xs) = if test x then x ∷ where_rows test xs else where_rows test xs

abbrev pub max_history_rows : ℕ
max_history_rows = 50000

module _ {ℓ} {W : Type ℓ} where
  unfoldable pub recent_sessions : ℤ → Tables W → List (Session W)
  recent_sessions limit t = limit_to limit (order_by is_newer t.sessions)

  -- `ts DESC, id DESC`: of two rows at the same time, the later one in the table is first.
  abbrev pub is_later : Event W → Event W → Bool
  is_later a b = not (before a.ts b.ts)

  unfoldable pub recent_events : ℤ → Tables W → List (Event W)
  recent_events limit t = limit_to limit (order_by is_later t.events)

  -- `ts ASC, id ASC`
  abbrev pub is_earlier : Sample W → Sample W → Bool
  is_earlier a b = before a.ts b.ts

  abbrev pub in_range : Time → Time → Sample W → Bool
  in_range from to s = not (before s.ts from) && not (before to s.ts)

  unfoldable pub samples_between : Time → Time → Tables W → List (Sample W)
  samples_between from to t =
      limit_to (pos max_history_rows)
        (order_by is_earlier (where_rows (in_range from to) t.samples))
