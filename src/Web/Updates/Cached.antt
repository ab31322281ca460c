-- ===== src/Web/Updates/Cached.antt =====
-- handlers.go, updater.go: POST /api/update/check while the answer of an earlier check is kept.
use wallbox_homeautomation_g.Base.{List, String, [], arith, false, refl, true, ◌∷◌, ◌≡◌}
use wallbox_homeautomation_g.Base.Int.{lt_ℤ_iff, pos, ◌<ℤ◌}
use wallbox_homeautomation_g.Go.Float.{Float}
use wallbox_homeautomation_g.Go.Result.{ok}
use wallbox_homeautomation_g.Go.Time.{Time, is_zero, since}
use wallbox_homeautomation_g.Updater.{Updater, check, is_cached}
use wallbox_homeautomation_g.Updater.Files.{Files}
use wallbox_homeautomation_g.Updater.Registry.{Http, latest_semver}
use wallbox_homeautomation_g.Updater.Whole.{Sidecar, check_registry, info_of}
use wallbox_homeautomation_g.Web.Reply.{Context}
use wallbox_homeautomation_g.Web.Updates.{handle_update_check}

-- A request for a check: when it comes and ends, and what the registry would answer at that time.
pub record Asked : Type 0 where
  pub context : Context
  pub at : Time
  pub done : Time
  pub http : Http
  pub files : Files

abbrev pub with_http : Http → Sidecar → Sidecar
with_http http side = record side { http = http }

-- Each of these requests comes within the time to live of the check that ended at `checked`.
abbrev pub Within : Updater → Time → List Asked → Type 0
Within u checked [] = Unit {0}
Within u checked (q ∷ qs) = (since q.at checked <ℤ u.cfg.check_ttl) × Within u checked qs

is_kept :
    (t : Time) (u : Updater)
    → is_zero u.checked ≡ false
    → pos 0 <ℤ u.cfg.check_ttl
    → since t u.checked <ℤ u.cfg.check_ttl
    → is_cached t u ≡ true
unfolding is_cached
is_kept t u set keeps soon =
    ground (arith, lt_ℤ_iff (pos 0) u.cfg.check_ttl, lt_ℤ_iff (since t u.checked) u.cfg.check_ttl)

module _ {ℓ} (W : Type ℓ) ⦃f : Float W⦄ (side : Sidecar) (base : String) where
  -- the updater after requests for a check, one after the other
  unfoldable pub check_all : List Asked → Updater → Updater
  check_all [] u = u
  check_all (q ∷ qs) u =
      check_all qs
        (handle_update_check {W = W} q.context (with_http q.http side) base q.at q.done q.files u).0

  -- the last check of a registry that answered, and what it leaves
  check_handled :
      (x : Context) (now done : Time) (latest : String) (files : Files) (u : Updater)
      → latest_semver side.http base u.cfg.repository ≡ ok latest
      → is_cached now u ≡ false
      → (handle_update_check {W = W} x side base now done files u).0
        ≡ record u { latest = latest; checked = done }
  unfolding handle_update_check check_registry check
  check_handled x now done latest files u answers due = rw (answers, due) refl

  kept_handled :
      (q : Asked) (u : Updater)
      → is_cached q.at u ≡ true
      → (handle_update_check {W = W} q.context (with_http q.http side) base q.at q.done q.files u).0
        ≡ u
  unfolding handle_update_check check_registry check
  kept_handled q u kept = rw kept refl

  same_answer :
      (q : Asked) (other : Http) (u : Updater)
      → is_cached q.at u ≡ true
      → handle_update_check {W = W} q.context (with_http q.http side) base q.at q.done q.files u
        ≡ handle_update_check {W = W} q.context (with_http other side) base q.at q.done q.files u
  unfolding handle_update_check check_registry check info_of
  same_answer q other u kept = rw kept refl

  check_all-kept :
      (u : Updater) (qs : List Asked)
      → is_zero u.checked ≡ false
      → pos 0 <ℤ u.cfg.check_ttl
      → Within u u.checked qs
      → check_all qs u ≡ u
  unfolding check_all
  check_all-kept u [] set keeps within = refl
  check_all-kept u (q ∷ qs) set keeps (soon, within) =
      rw (kept_handled q u (is_kept q.at u set keeps soon)) (check_all-kept u qs set keeps within)

  -- After a request for a check that read the registry and ended at a time other than the zero time,
  -- with a positive time to live, no request for a check that comes before this time to live has
  -- passed asks the registry again: after any number of them the updater still has the version and
  -- the time of the first, and the answer to one more is the same whatever the registry would say by
  -- then.
  pub handle_update_check-kept :
      (x : Context) (now done : Time) (latest : String) (files : Files) (u : Updater)
      (qs : List Asked) (q : Asked) (other : Http)
      → latest_semver side.http base u.cfg.repository ≡ ok latest
      → is_cached now u ≡ false
      → is_zero done ≡ false
      → pos 0 <ℤ u.cfg.check_ttl
      → Within u done qs
      → since q.at done <ℤ u.cfg.check_ttl
      → let u' = (handle_update_check {W = W} x side base now done files u).0 in
        let v = check_all qs u' in
        (u' ≡ record u { latest = latest; checked = done })
        × (v ≡ u')
        × (handle_update_check {W = W} q.context (with_http q.http side) base q.at q.done q.files v
            ≡ handle_update_check {W = W} q.context
                (with_http other side)
                base
                q.at
                q.done
                q.files
                v)
        × ((handle_update_check {W = W} q.context
              (with_http q.http side)
              base
              q.at
              q.done
              q.files
              v).0
            ≡ u')
  handle_update_check-kept x now done latest files u qs q other answers due set keeps within soon =
      let u' = record u { latest = latest; checked = done } in
      let first = check_handled x now done latest files u answers due in
      let all = check_all-kept u' qs set keeps within in
      let kept = is_kept q.at u' set keeps soon in
      rw (first, all) (refl, refl, same_answer q other u' kept, kept_handled q u' kept)
