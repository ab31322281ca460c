-- ===== src/Web/History/Window.antt =====
-- handlers.go, samples.go: which samples GET /api/history returns.
use wallbox_homeautomation_g.Base.{
  Bool-cases, List, Option, String, arith, inl, inr, refl, some, sym, ℕ, ◌-◌, ◌<◌, ◌^◌, ◌∙◌, ◌≡◌,
  ◌⊎◌,
}
use wallbox_homeautomation_g.Base.Int.{
  int_laws, lt_ℤ, lt_ℤ→<, lt_ℤ→≥, negsuc, pos, ℤ, ≥→lt_ℤ, ◌-ℤ◌, ◌<ℤ◌, ◌≤ℤ◌,
}
use wallbox_homeautomation_g.Go.Time.{Time, add, saturate, since}
use wallbox_homeautomation_g.Store.{Sample}
use wallbox_homeautomation_g.Store.Listing.{in_range, max_history_rows, samples_between, where_rows}
use wallbox_homeautomation_g.Store.Listing.Order.{All, IsTop}
use wallbox_homeautomation_g.Store.Listing.Recent.{OldestFirst, samples_between-IsTop}
use wallbox_homeautomation_g.Store.Tables.{Tables}
use wallbox_homeautomation_g.Web.History.{
  bound_of, clamp_window, default_from, handle_api_history, history_window, max_history_window,
}
use wallbox_homeautomation_g.Web.Reply.{json_samples, tables_listings}

-- A saturated duration compares with one of less than 292 years as the exact one does.
lt-saturate : (k : ℕ) (d : ℤ) → k < 2 ^ 63 - 1 → lt_ℤ (pos k) (saturate d) ≡ lt_ℤ (pos k) d
unfolding saturate lt_ℤ
lt-saturate k (pos n) h = ground arith
lt-saturate k (negsuc n) h = ground arith

is_longer :
    (from to : Time)
    → lt_ℤ (pos max_history_window) (since to from) ≡ lt_ℤ (pos max_history_window) (to -ℤ from)
unfolding since
is_longer from to = lt-saturate max_history_window (to -ℤ from) (omega arith)

back : (to : Time) → add to (pos 0 -ℤ pos max_history_window) ≡ (to -ℤ pos max_history_window)
unfolding add
back to = omega int_laws

-- The start of the window: the asked one if it is at most a week before the end, else a week before
-- the end.
abbrev StartsAt : Time → Time → Time → Type 0
StartsAt from to a =
    (((to -ℤ from) ≤ℤ pos max_history_window) × (a ≡ from))
    ⊎ ((pos max_history_window <ℤ (to -ℤ from)) × (a ≡ (to -ℤ pos max_history_window)))

clamp_window_lem :
    (from to : Time)
    → from ≤ℤ to
    → (a : Time) × (clamp_window from to ≡ some (a, to)) × StartsAt from to a
unfolding clamp_window add
clamp_window_lem from to h = elim (Bool-cases (lt_ℤ (pos max_history_window) (since to from))) [
  | inl long ↦ (
    add to (pos 0 -ℤ pos max_history_window),
    rw (long, ≥→lt_ℤ to from h) refl,
    inr (lt_ℤ→< (pos max_history_window) (to -ℤ from) (sym (is_longer from to) ∙ long), back to),
  )
  | inr short ↦ (
    from,
    rw (short, ≥→lt_ℤ to from h) refl,
    inl (lt_ℤ→≥ (pos max_history_window) (to -ℤ from) (sym (is_longer from to) ∙ short), refl),
  )
]

history_window_lem :
    (parse : String → Option Time) (now : Time) (from_text to_text : String) (from to : Time)
    → bound_of parse from_text (default_from now) ≡ some from
    → bound_of parse to_text now ≡ some to
    → history_window parse now from_text to_text ≡ clamp_window from to
unfolding history_window
history_window_lem parse now from_text to_text from to reads ends = rw (reads, ends) refl

module _ {ℓ} {W : Type ℓ} where
  -- For bounds that read, the first not after the second, the answer lists samples of a window that
  -- ends at the second bound and starts at the first, or seven days before the end if the first is
  -- further from it: the oldest in it, oldest first, all of them if they are fewer than 50000.
  pub handle_api_history-lists :
      (parse : String → Option Time) (now : Time) (from_text to_text : String) (from to : Time)
      (t : Tables W)
      → bound_of parse from_text (default_from now) ≡ some from
      → bound_of parse to_text now ≡ some to
      → from ≤ℤ to
      → (listed : List (Sample W)) × (a : Time) × (handle_api_history ⦃l = tables_listings⦄ parse
            now from_text to_text t
          ≡ json_samples listed)
        × ((((to -ℤ from) ≤ℤ pos max_history_window) × (a ≡ from))
            ⊎ ((pos max_history_window <ℤ (to -ℤ from)) × (a ≡ (to -ℤ pos max_history_window))))
        × IsTop OldestFirst max_history_rows listed (where_rows (in_range a to) t.samples)
        × All (λ s. (a ≤ℤ s.ts) × (s.ts ≤ℤ to)) listed
  unfolding handle_api_history
  handle_api_history-lists parse now from_text to_text from to t reads ends order =
      let (a, clamped, start) = clamp_window_lem from to order in
      let (top, inside) = samples_between-IsTop a to t in
      (
        samples_between a to t,
        a,
        rw (history_window_lem parse now from_text to_text from to reads ends, clamped) refl,
        start,
        top,
        inside,
      )
