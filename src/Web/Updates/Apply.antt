-- ===== src/Web/Updates/Apply.antt =====
-- handlers.go, updater.go: what POST /api/update/apply does.
use wallbox_homeautomation_g.Base.{
  ==→≡, Bool, String, arith, false, if_intro, if◌then◌else◌, inl, inr, none, not, refl, some, true,
  ◌==◌, ◌||◌, ◌≡◌, ◌≢◌, ◌⊎◌,
}
use wallbox_homeautomation_g.Go.Float.{Float}
use wallbox_homeautomation_g.Go.Time.{Time}
use wallbox_homeautomation_g.Updater.{
  Info, Triggered, UpdateRequest, Updater, already_running, info, is_requested, not_written,
  requested, target_invalid, updates_disabled,
}
use wallbox_homeautomation_g.Updater.Files.{Calls, Files, write}
use wallbox_homeautomation_g.Updater.Version.{is_semver}
use wallbox_homeautomation_g.Updater.Whole.{
  Sidecar, asks, info_of, request_path, trigger_files, trigger_files-cases,
}
use wallbox_homeautomation_g.Web.Commands.{bad_request}
use wallbox_homeautomation_g.Web.Reply.{Context, Reply, error_handler, status_of}
use wallbox_homeautomation_g.Web.Updates.{answered, handle_update_apply}

requested_200 {ℓ} :
    (W : Type ℓ) ⦃f : Float W⦄ (x : Context) (i : Info) (q : UpdateRequest)
    → status_of (answered {W = W} x i (requested q)) ≡ 200
unfolding status_of
requested_200 W x i q = if_intro (λ (reply : Reply W). status_of reply ≡ 200) x.is_htmx refl refl

answered-refused {ℓ} :
    (W : Type ℓ) ⦃f : Float W⦄ (x : Context) (i : Info) (a : Triggered)
    → is_requested a ≡ false
    → status_of (answered {W = W} x i a) ≡ 400
unfolding status_of error_handler
answered-refused W x i (requested q) h = absurd (cc)
answered-refused W x i updates_disabled h = refl
answered-refused W x i target_invalid h = refl
answered-refused W x i already_running h = refl
answered-refused W x i not_written h = refl

module _ {ℓ} (W : Type ℓ) ⦃f : Float W⦄ (x : Context) (side : Sidecar) (calls : Calls) (now : Time)
    (u : Updater) (files : Files) (version p : String) where
  -- what the answer to a request for the version says of the file at `p`
  abbrev pub Applies : Files → Reply W → Type 0
  Applies files' reply =
      ((status_of reply ≡ 200)
        × (u.cfg.enabled ≡ true)
        × (version ≡ u.latest)
        × (is_semver version ≡ true)
        × (version ≢ u.current)
        × (files' p ≡ write (request_path u) (side.encode_request (asks version now)) files p))
      ⊎ ((status_of reply ≡ 400) × (files' p ≡ files p))

  refused_400 : Applies files bad_request
  unfolding status_of error_handler
  refused_400 = inr (refl, refl)

  info_of_lem :
      ((info_of side files u).enabled ≡ u.cfg.enabled) × ((info_of side files u).latest ≡ u.latest)
  unfolding info_of info
  info_of_lem = (refl, refl)

  guarded :
      (enabled wrong : Bool) (t : Files × Reply W)
      → (enabled ≡ true → wrong ≡ false → Applies t.0 t.1)
      → let r =
          if not enabled then (files, bad_request) else if wrong then (files, bad_request) else t in
        Applies r.0 r.1
  guarded false wrong t h = refused_400
  guarded true true t h = refused_400
  guarded true false t h = h refl refl

  is_latest : (version == "" || not (version == u.latest)) ≡ false → version ≡ u.latest
  is_latest h = ground (arith, ==→≡ version u.latest)

  -- `POST /api/update/apply` answers 200 only for the version that the updater offers as the latest,
  -- if updates are enabled and it is a bare X.Y.Z other than the running one, and then the request
  -- file holds the whole request for it and no other file has changed. Every other answer is a 400,
  -- and each file is as it was, except that a temporary one may be left if it cannot be removed.
  pub handle_update_apply-Applies :
      request_path u ≢ calls.temp
      → files calls.temp ≡ none
      → (calls.removes ≡ true) ⊎ (p ≢ calls.temp)
      → let t = handle_update_apply {W = W} x side calls now u files (some version) in
        Applies t.0 t.1
  unfolding handle_update_apply
  handle_update_apply-Applies other fresh gone =
      let (answer, files') = trigger_files side calls now version u files in
      guarded (info_of side files u).enabled
        (version == "" || not (version == (info_of side files u).latest))
        (files', answered x (info_of side files' u) answer)
        λ on offered. elim (trigger_files-cases side calls now version u files p other fresh gone) [
          | inl (e, switched_on, bare, apart, content) ↦ inl (
            rw e (requested_200 W x (info_of side files' u) (asks version now)),
            switched_on,
            is_latest (rw (info_of_lem.1) at offered),
            bare,
            apart,
            content,
          )
          | inr (e, same) ↦ inr (answered-refused W x (info_of side files' u) answer e, same)
        ]
