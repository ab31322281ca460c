-- ===== src/Web/Commands/Effect.antt =====
-- handlers.go: what a POST request does to the running controller.
use wallbox_homeautomation_g.Base.{
  ==→≡, Option, String, ap, arith, if_intro, inl, inr, none, refl, some, subst, sym, ◌&&◌, ◌==◌,
  ◌↔◌, ◌∙◌, ◌≡◌, ◌⊎◌,
}
use wallbox_homeautomation_g.Config.{Control}
use wallbox_homeautomation_g.Controller.Loop.Struct.{Controller}
use wallbox_homeautomation_g.Controller.Recorder.{Recorder}
use wallbox_homeautomation_g.Controller.Settings.{Refusal, invalid, not_persisted}
use wallbox_homeautomation_g.Controller.State.{
  Override, auto, eq_override, force_off, force_on, override_name,
}
use wallbox_homeautomation_g.Controller.System.{
  Reachable, Request, System, ask_override, ask_power, ask_profile, ask_target, ask_threshold,
  request, serve, step,
}
use wallbox_homeautomation_g.Controller.System.Persist.{refused-unchanged}
use wallbox_homeautomation_g.Go.Float.{Float}
use wallbox_homeautomation_g.Go.Time.{Time}
use wallbox_homeautomation_g.Web.Commands.{
  OverrideBody, Post, accepted, bad_request, expiry, handle_api_override, handle_auto_profile,
  handle_charge_power, handle_post, handle_start_threshold, handle_target_soc, parse_override,
  post_auto_profile, post_charge_power, post_override, post_start_threshold, post_target_soc,
  put_setting, refusal_reply, with_mode,
}
use wallbox_homeautomation_g.Web.Pages.{Texts, render_partial}
use wallbox_homeautomation_g.Web.Reply.{Context, Reply, error_handler, status_of}

parse_override-override_name : (mode : Override) → parse_override (override_name mode) ≡ some mode
unfolding parse_override override_name ◌==◌
parse_override-override_name auto = refl
parse_override-override_name force_on = refl
parse_override-override_name force_off = refl

-- A mode is accepted exactly under the name that the status page shows for it.
pub parse_override_iff :
    (s : String) (mode : Override) → (parse_override s ≡ some mode) ↔ (s ≡ override_name mode)
unfolding parse_override
parse_override_iff s mode = (
  λ e. ground (
    arith,
    ==→≡ s (override_name auto),
    ==→≡ s (override_name force_on),
    ==→≡ s (override_name force_off),
  ),
  λ e. rw e (parse_override-override_name mode),
)

accepted-200 {ℓ} :
    {W : Type ℓ} ⦃f : Float W⦄ (texts : Texts) (x : Context) (partial : String) (c : Controller W)
    → status_of (accepted texts x partial c) ≡ 200
unfolding accepted render_partial status_of
accepted-200 {W} texts x partial c =
    if_intro (λ (reply : Reply W). status_of reply ≡ 200) x.is_htmx refl refl

module _ {ℓ κ} {W : Type ℓ} {D : Type κ} ⦃f : Float W⦄ ⦃r : Recorder W D⦄ where
  -- The three outcomes of a request: the call of a setter that accepts, a client's mistake that
  -- changes nothing, a failed write that leaves the controller.
  abbrev pub Answers : Time → Controller W → D → Controller W × D × Reply W → Type (ℓ ⊔ κ)
  Answers clock c d (c', d', reply) =
      ((status_of reply ≡ 200) × ((q : Request W) × (serve clock q c d ≡ (c', d', none))))
      ⊎ ((status_of reply ≡ 400) × (c' ≡ c) × (d' ≡ d))
      ⊎ ((status_of reply ≡ 500)
          × ((q : Request W) × (serve clock q c d ≡ (c', d', some not_persisted)))
          × (c' ≡ c))

  refused :
      (clock : Time) (q : Request W) (c c' : Controller W) (d d' : D) (why : Refusal)
      → serve clock q c d ≡ (c', d', some why)
      → (c' ≡ c) × (why ≡ invalid → d' ≡ d)
  refused clock q c c' d d' why e =
      let outcome : (serve clock q c d).2 ≡ some why =
        ap (λ (t : Controller W × D × Option Refusal). t.2) e in
      let kept = refused-unchanged clock q c d (λ h. cc) in
      (
        ap (λ (t : Controller W × D × Option Refusal). t.0) (sym e) ∙ kept.0,
        λ w. ap (λ (t : Controller W × D × Option Refusal). t.1) (sym e) ∙ kept.1 (cc),
      )

  served-Answers :
      (texts : Texts) (x : Context) (clock : Time) (partial : String) (q : Request W)
      (c c' : Controller W) (d d' : D) (refusal : Option Refusal)
      → serve clock q c d ≡ (c', d', refusal)
      → Answers clock c d (c', d', refusal_reply refusal (accepted texts x partial c'))
  unfolding status_of error_handler
  served-Answers texts x clock partial q c c' d d' none e =
      inl (accepted-200 texts x partial c', (q, e))
  served-Answers texts x clock partial q c c' d d' (some invalid) e =
      let kept = refused clock q c c' d d' invalid e in inr (inl (refl, kept.0, kept.1 refl))
  served-Answers texts x clock partial q c c' d d' (some not_persisted) e =
      inr (inr (refl, (q, e), (refused clock q c c' d d' not_persisted e).0))

  put_setting-Answers :
      (texts : Texts) (x : Context) (clock : Time) (partial : String) (q : Request W)
      (c : Controller W) (d : D)
      → Answers clock c d (put_setting texts x clock partial q c d)
  unfolding put_setting
  put_setting-Answers texts x clock partial q c d =
      let (c', d', refusal) = serve clock q c d in
      served-Answers texts x clock partial q c c' d d' refusal refl

  bad_request-Answers :
      (clock : Time) (c : Controller W) (d : D) → Answers clock c d (c, d, bad_request)
  unfolding status_of error_handler
  bad_request-Answers clock c d = inr (inl (refl, refl, refl))

  with_mode-Answers :
      (texts : Texts) (x : Context) (clock : Time) (req : OverrideBody W) (o : Option Override)
      (c : Controller W) (d : D)
      → Answers clock c d (with_mode texts x clock req o c d)
  with_mode-Answers texts x clock req none c d = bad_request-Answers clock c d
  with_mode-Answers texts x clock req (some mode) c d =
      put_setting-Answers texts x clock "partials/controls"
        (ask_override mode (expiry x.now req.hours) (req.cap_bypass && eq_override mode force_on)
          req.cap_bypass_soc)
        c d

  -- Every POST request of the five routes is answered in one of three ways: with 200 if a setter of
  -- the controller was called and accepted, with 400 if neither the controller nor the database has
  -- changed, or with 500 if the controller has not changed.
  pub handle_post-Answers :
      (texts : Texts) (x : Context) (clock : Time) (p : Post W) (c : Controller W) (d : D)
      → Answers clock c d (handle_post texts x clock p c d)
  unfolding handle_post handle_api_override handle_charge_power handle_auto_profile
      handle_start_threshold handle_target_soc
  handle_post-Answers texts x clock (post_override none) c d = bad_request-Answers clock c d
  handle_post-Answers texts x clock (post_override (some req)) c d =
      with_mode-Answers texts x clock req (parse_override req.mode) c d
  handle_post-Answers texts x clock (post_charge_power none) c d = bad_request-Answers clock c d
  handle_post-Answers texts x clock (post_charge_power (some m)) c d =
      put_setting-Answers texts x clock "partials/controls" (ask_power m) c d
  handle_post-Answers texts x clock (post_auto_profile none) c d = bad_request-Answers clock c d
  handle_post-Answers texts x clock (post_auto_profile (some p)) c d =
      put_setting-Answers texts x clock "partials/settings" (ask_profile p) c d
  handle_post-Answers texts x clock (post_start_threshold none) c d = bad_request-Answers clock c d
  handle_post-Answers texts x clock (post_start_threshold (some w)) c d =
      put_setting-Answers texts x clock "partials/settings" (ask_threshold w) c d
  handle_post-Answers texts x clock (post_target_soc none) c d = bad_request-Answers clock c d
  handle_post-Answers texts x clock (post_target_soc (some pct)) c d =
      put_setting-Answers texts x clock "partials/settings" (ask_target pct) c d

  serve-Reachable :
      (cfg : Control W) (Start : D → Type 0) (clock : Time) (q : Request W) (s : System W D)
      (c' : Controller W) (d' : D) (refusal : Option Refusal)
      → serve clock q s.control s.database ≡ (c', d', refusal)
      → Reachable cfg Start s
      → Reachable cfg Start (record s { control = c'; database = d' })
  serve-Reachable cfg Start clock q s c' d' refusal e h =
      subst
        (λ (t : Controller W × D × Option Refusal).
          Reachable cfg Start (record s { control = t.0; database = t.1 }))
        e (step h (request clock q s))

  Answers-Reachable :
      (cfg : Control W) (Start : D → Type 0) (clock : Time) (s : System W D)
      (t : Controller W × D × Reply W)
      → Answers clock s.control s.database t
      → Reachable cfg Start s
      → Reachable cfg Start (record s { control = t.0; database = t.1 })
  Answers-Reachable cfg Start clock s (c', d', reply) (inl (code, (q, e))) h =
      serve-Reachable cfg Start clock q s c' d' none e h
  Answers-Reachable cfg Start clock s (c', d', reply) (inr (inl (code, e, e'))) h =
      subst (λ c. Reachable cfg Start (record s { control = c; database = d' })) (sym e)
        (subst (λ d. Reachable cfg Start (record s { database = d })) (sym e') h)
  Answers-Reachable cfg Start clock s (c', d', reply) (inr (inr (code, (q, e), same))) h =
      serve-Reachable cfg Start clock q s c' d' (some not_persisted) e h

  -- A POST request, whatever its body, takes the running controller from a reachable state to a
  -- reachable one, so that whatever holds of the reachable states holds with the web layer in front.
  pub handle_post-Reachable :
      (cfg : Control W) (Start : D → Type 0) (texts : Texts) (x : Context) (clock : Time)
      (p : Post W) (s : System W D)
      → Reachable cfg Start s
      → let t = handle_post texts x clock p s.control s.database in
        Reachable cfg Start (record s { control = t.0; database = t.1 })
  handle_post-Reachable cfg Start texts x clock p s h =
      let t = handle_post texts x clock p s.control s.database in
      Answers-Reachable cfg Start clock s t
        (handle_post-Answers texts x clock p s.control s.database) h
