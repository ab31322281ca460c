-- ===== src/Updater/Check.antt =====
-- What updater.go shows and asks for.
use wallbox_homeautomation_g.Base.{==_iff, ==→≡, Bool, Option, String, arith, true, ◌↔◌, ◌≡◌, ◌≢◌}
use wallbox_homeautomation_g.Go.Time.{Time}
use wallbox_homeautomation_g.Updater.{Status, UpdateRequest, Updater, info, requested, trigger}
use wallbox_homeautomation_g.Updater.Newest.{newer_irreflexive, newer_known}
use wallbox_homeautomation_g.Updater.Version.{is_semver}

-- A version that `Info` offers as an update can be asked for: if updates are enabled and the
-- request file can be written, `Trigger` of it asks for exactly that version.
pub update_available-requested :
    (writes : UpdateRequest → Bool) (now : Time) (status : Option Status) (u : Updater)
    → (info status u).update_available ≡ true
    → u.cfg.enabled ≡ true
    → ((q : UpdateRequest) → writes q ≡ true)
    → trigger writes now u.latest u
      ≡ requested (record { target_version = u.latest; requested_at = now })
unfolding info trigger
update_available-requested writes now status u h e w = ground (
  arith,
  newer_known u.current u.latest h,
  newer_irreflexive u.current,
  ==→≡ u.latest u.current,
  w (record { target_version = u.latest; requested_at = now }),
)

-- `Trigger` writes a request only if updates are enabled and the target is a version other than the
-- one that runs, and the request is for that target.
pub trigger-requested_iff :
    (writes : UpdateRequest → Bool) (now : Time) (version : String) (u : Updater)
    → (q : UpdateRequest)
    → (trigger writes now version u ≡ requested q) ↔ (
        (u.cfg.enabled ≡ true)
        × (is_semver version ≡ true)
        × (version ≢ u.current)
        × (writes q ≡ true)
        × (q ≡ record { target_version = version; requested_at = now }))
unfolding trigger
trigger-requested_iff writes now version u q = ground (arith, ==_iff version u.current)
