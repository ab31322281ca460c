-- ===== src/Updater.antt =====
-- internal/updater/updater.go: the check for updates, its cache, and the request of one. The children
-- give the registry's answer, the files that are shared with the sidecar, and the whole operations.
pub mod Examples
pub mod Version
pub mod Newest
pub mod Registry
pub mod Files
pub mod Whole
pub mod Check
mod Tests
use wallbox_homeautomation_g.Base.{
  Bool, Option, String, false, if◌then◌else◌, none, not, some, true, ◌&&◌, ◌==◌,
}
use wallbox_homeautomation_g.Base.Int.{lt_ℤ, pos}
use wallbox_homeautomation_g.Config.{Update}
use wallbox_homeautomation_g.Go.Result.{Result, err, ok}
use wallbox_homeautomation_g.Go.Time.{Time, is_zero, since, zero_time}
use wallbox_homeautomation_g.Updater.Version.{is_semver, newer}

pub record Updater : Type 0 where
  pub cfg : Update
  pub current : String
  pub latest : String
  pub checked : Time

-- the sidecar's message
pub record Status : Type 0 where
  pub state : String
  pub target_version : String
  pub message : String
  pub updated_at : Time

pub record Info : Type 0 where
  pub enabled : Bool
  pub current : String
  pub latest : String
  pub update_available : Bool
  pub checked_at : Time
  pub state : String
  pub message : String
  pub target_version : String

pub record UpdateRequest : Type 0 where
  pub target_version : String
  pub requested_at : Time

pub data Triggered : Type 0 where
  requested : UpdateRequest → Triggered
  updates_disabled target_invalid already_running not_written : Triggered

abbrev pub is_requested : Triggered → Bool
is_requested (requested q) = true
is_requested _ = false

unfoldable pub new_updater : Update → String → Updater
new_updater cfg current = record { cfg = cfg; current = current; latest = ""; checked = zero_time }

unfoldable pub info : Option Status → Updater → Info
info status u = record {
  enabled = u.cfg.enabled;
  current = u.current;
  latest = u.latest;
  update_available = newer u.current u.latest;
  checked_at = u.checked;
  state = elim status [ none ↦ "" | some s ↦ s.state ];
  message = elim status [ none ↦ "" | some s ↦ s.message ];
  target_version = elim status [ none ↦ "" | some s ↦ s.target_version ];
}

-- whether the cached answer still stands
unfoldable pub is_cached : Time → Updater → Bool
is_cached now u =
    not (is_zero u.checked)
    && lt_ℤ (pos 0) u.cfg.check_ttl
    && lt_ℤ (since now u.checked) u.cfg.check_ttl

-- The clock is read once for the cache, and again when the registry has answered.
unfoldable pub check : Time → Time → Result String → Updater → Updater × Bool
check now done answer u = if is_cached now u then (u, true) else elim answer [
  | err ↦ (u, false)
  | ok latest ↦ (record u { latest = latest; checked = done }, true)
]

-- `writes` tells whether the request file can be written.
unfoldable pub trigger : (UpdateRequest → Bool) → Time → String → Updater → Triggered
trigger writes now version u =
    let asked : UpdateRequest = record { target_version = version; requested_at = now } in
    if not u.cfg.enabled
    then updates_disabled
    else if not (is_semver version)
    then target_invalid
    else if version == u.current
    then already_running
    else if writes asked
    then requested asked
    else not_written
