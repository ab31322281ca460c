-- ===== src/Web/Language/Redirect.antt =====
-- handlers.go: what a language switch leads to.
use wallbox_homeautomation_g.Base.{
  ==_false, ==_self, ==→≡, Bool, Bool-absurd, Bool-cases, Option, String, ap, false, inl, inr, none,
  refl, some, true, ◌==◌, ◌≡◌, ◌≢◌, ◌⊎◌,
}
use wallbox_homeautomation_g.Go.Float.{Float}
use wallbox_homeautomation_g.Go.Strings.{◌+s◌}
use wallbox_homeautomation_g.Web.I18n.{is_supported, resolve_lang}
use wallbox_homeautomation_g.Web.Language.{Url, handle_set_lang, path_of, same_origin_path}
use wallbox_homeautomation_g.Web.Reply.{Context, Reply, failed, fiber_error, lang_of, redirected}

-- A switch to a supported language sets the cookie that makes it the language of every later request
-- that carries it, whatever the browser accepts. A switch to any other sets none.
pub handle_set_lang-kept {ℓ} :
    (W : Type ℓ) ⦃f : Float W⦄ (parse : String → Option Url) (code referer host : String)
    (x : Context)
    → let reply : Reply W = handle_set_lang parse code referer host in
      ((is_supported code ≡ true)
        × (reply ≡ redirected (some code) (same_origin_path parse referer host))
        × (lang_of W (record x { cookie = code }) ≡ code))
      ⊎ ((is_supported code ≡ false) × (reply ≡ failed (fiber_error 400)))
unfolding handle_set_lang lang_of resolve_lang
handle_set_lang-kept W parse code referer host x = elim (Bool-cases (is_supported code)) [
  | inl listed ↦ rw listed (inl (refl, refl, refl))
  | inr other ↦ rw other (inr (refl, refl))
]

-- The redirect is to "/", or to the path of the referer's URL, and then only if its host is that of
-- the request.
pub same_origin_path-cases :
    (parse : String → Option Url) (referer host : String)
    → (same_origin_path parse referer host ≡ "/")
      ⊎ ((u : Url) × (parse referer ≡ some u)
          × (u.host ≡ host)
          × (same_origin_path parse referer host ≡ u.request_uri))
unfolding same_origin_path
same_origin_path-cases parse referer host = elim (Bool-cases (referer == "")) [
  | inl missing ↦ rw missing (inl refl)
  | inr given ↦ rw given (by_url (parse referer) refl)
]
  where
    by_url :
        (o : Option Url)
        → parse referer ≡ o
        → (path_of host o ≡ "/")
          ⊎ ((u : Url) × (parse referer ≡ some u)
              × (u.host ≡ host)
              × (path_of host o ≡ u.request_uri))
    by_url none e = inl refl
    by_url (some u) e = elim (Bool-cases (u.host == host)) [
      | inr other ↦ rw other (inl refl)
      | inl same ↦ rw same (elim (Bool-cases (u.request_uri == "")) [
        | inl no_path ↦ rw no_path (inl refl)
        | inr path ↦ rw path (inr (u, e, ==→≡ u.host host same, refl))
      ])
    ]

starts : String → Bool
starts String.[] = false
starts (String.◌∷◌ c s) = true

slashes-ne-empty : (rest : String) → (("//" +s rest) == "") ≡ false
unfolding ◌+s◌ starts
slashes-ne-empty rest = ==_false ("//" +s rest) "" (λ e. Bool-absurd refl (ap starts e))

-- A referer of the request's own host whose path begins with two slashes is redirected to as it
-- stands, and a browser reads such a target as another host.
pub same_origin_path-double_slash :
    (parse : String → Option Url) (referer host rest : String)
    → referer ≢ ""
    → parse referer ≡ some (record { host = host; request_uri = "//" +s rest })
    → same_origin_path parse referer host ≡ "//" +s rest
unfolding same_origin_path
same_origin_path-double_slash parse referer host rest given e =
    rw (==_false referer "" given, e, ==_self host, slashes-ne-empty rest) refl
