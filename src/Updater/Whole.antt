-- ===== src/Updater/Whole.antt =====
-- updater.go: Info, Check and Trigger with the registry and the files behind them.
use wallbox_homeautomation_g.Base.{
  ==_of_≡, Bool, Bool-absurd, Bool-cases, Option, Option-cases, String, false, if◌then◌else◌, inl,
  inr, none, not, refl, true, ◌==◌, ◌≡◌, ◌≢◌, ◌⊎◌,
}
use wallbox_homeautomation_g.Go.Time.{Time}
use wallbox_homeautomation_g.Updater.{
  Info, Status, Triggered, UpdateRequest, Updater, already_running, check, info, is_requested,
  not_written, requested, target_invalid, trigger, updates_disabled,
}
use wallbox_homeautomation_g.Updater.Files.{
  Calls, Files, Run, join, read_status, request_file, write, write_request,
}
use wallbox_homeautomation_g.Updater.Files.Atomic.{write_file_atomic-cases}
use wallbox_homeautomation_g.Updater.Registry.{Http, latest_semver}
use wallbox_homeautomation_g.Updater.Version.{is_semver}

-- what the updater is given: its HTTP client, the decoding of the sidecar's status and the encoding
-- of a request
pub record Sidecar : Type 0 where
  pub http : Http
  pub decode_status : String → Option Status
  pub encode_request : UpdateRequest → Option String

abbrev pub default_base_url : String
default_base_url = "https://ghcr.io"

unfoldable pub info_of : Sidecar → Files → Updater → Info
info_of side files u = info (read_status side.decode_status u.cfg files) u

-- `Check` returns `Info` on each of its paths, beside the error.
unfoldable pub check_registry :
    Sidecar → String → Time → Time → Files → Updater → Updater × Info × Bool
check_registry side base now done files u =
    let (u', fine) = check now done (latest_semver side.http base u.cfg.repository) u in
    (u', info_of side files u', fine)

abbrev outcome : Triggered → Run → Files → Triggered × Files
outcome (requested q) run files = (requested q, run.files)
outcome not_written run files = (not_written, run.files)
outcome updates_disabled run files = (updates_disabled, files)
outcome target_invalid run files = (target_invalid, files)
outcome already_running run files = (already_running, files)

abbrev pub asks : String → Time → UpdateRequest
asks version now = record { target_version = version; requested_at = now }

-- `Trigger` over the files
unfoldable pub trigger_files : Sidecar → Calls → Time → String → Updater → Files → Triggered × Files
trigger_files side calls now version u files =
    let run = λ (r : UpdateRequest). write_request side.encode_request calls u.cfg r files in
    outcome (trigger (λ r. (run r).done) now version u) (run (asks version now)) files

-- The request's path
abbrev pub request_path : Updater → String
request_path u = join u.cfg.request_dir request_file

module _ (side : Sidecar) (calls : Calls) (u : Updater) (files : Files) (q : UpdateRequest)
    (p : String) where
  -- `write_request` replaces the request file as a whole, or reports an error.
  write_request-cases :
      request_path u ≢ calls.temp
      → files calls.temp ≡ none
      → (calls.removes ≡ true) ⊎ (p ≢ calls.temp)
      → let r = write_request side.encode_request calls u.cfg q files in
        ((r.done ≡ true) × (r.files p ≡ write (request_path u) (side.encode_request q) files p))
        ⊎ ((r.done ≡ false) × (r.files p ≡ files p))
  unfolding write_request
  write_request-cases other fresh gone = elim (Bool-cases calls.makes_dir) [
    | inr none_made ↦ rw none_made (inr (refl, refl))
    | inl made ↦ rw made (elim (Option-cases (side.encode_request q)) [
      | inl bad ↦ rw bad (inr (refl, refl))
      | inr (body, e) ↦
          rw e
            (write_file_atomic-cases calls (request_path u) body files (request_path u) p other
              other fresh gone).2
    ])
  ]

-- What becomes of a run's files, by the guards before it.
outcome-cases :
    (enabled bare runs : Bool) (q : UpdateRequest) (run : Run) (files : Files) (p : String)
    (content : Option String)
    → ((run.done ≡ true) × (run.files p ≡ content)) ⊎ ((run.done ≡ false) × (run.files p ≡ files p))
    → let r =
        outcome
          (if not enabled
            then updates_disabled
            else if not bare
            then target_invalid
            else if runs
            then already_running
            else if run.done
            then requested q
            else not_written)
          run
          files in
      ((r.0 ≡ requested q) × (enabled ≡ true) × (bare ≡ true) × (runs ≡ false) × (r.1 p ≡ content))
      ⊎ ((is_requested r.0 ≡ false) × (r.1 p ≡ files p))
outcome-cases false bare runs q run files p content h = inr (refl, refl)
outcome-cases true false runs q run files p content h = inr (refl, refl)
outcome-cases true true true q run files p content h = inr (refl, refl)
outcome-cases true true false q run files p content (inl (d, e)) =
    rw d (inl (refl, refl, refl, refl, e))
outcome-cases true true false q run files p content (inr (d, e)) = rw d (inr (refl, e))

-- `Trigger` reports success exactly when it has asked for the version: updates are enabled, the
-- version is a bare X.Y.Z other than the running one, and the request file holds the whole encoded
-- request, no other file having changed. On every error each file is as it was, except that a
-- temporary one may be left if it cannot be removed.
pub trigger_files-cases :
    (side : Sidecar) (calls : Calls) (now : Time) (version : String) (u : Updater) (files : Files)
    (p : String)
    → request_path u ≢ calls.temp
    → files calls.temp ≡ none
    → (calls.removes ≡ true) ⊎ (p ≢ calls.temp)
    → let q = asks version now in
      let (answer, files') = trigger_files side calls now version u files in
      ((answer ≡ requested q)
        × (u.cfg.enabled ≡ true)
        × (is_semver version ≡ true)
        × (version ≢ u.current)
        × (files' p ≡ write (request_path u) (side.encode_request q) files p))
      ⊎ ((is_requested answer ≡ false) × (files' p ≡ files p))
unfolding trigger_files trigger
trigger_files-cases side calls now version u files p other fresh gone =
    elim (outcome-cases u.cfg.enabled (is_semver version) (version == u.current) (asks version now)
      (write_request side.encode_request calls u.cfg (asks version now) files) files p
      (write (request_path u) (side.encode_request (asks version now)) files p)
      (write_request-cases side calls u files (asks version now) p other fresh gone)) [
        | inl (answer, on, bare, apart, e) ↦
            inl (answer, on, bare, (λ same. Bool-absurd (==_of_≡ version u.current same) apart), e)
        | inr rest ↦ inr rest
      ]
