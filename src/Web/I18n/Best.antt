-- ===== src/Web/I18n/Best.antt =====
-- bundle.go: which language Match and Resolve pick.
use wallbox_homeautomation_g.Base.{
  ==_iff, ==→≡, Bool, Bool-absurd, Bool-cases, List, Option, String, [], ap, arith, false, foldl,
  if◌then◌else◌, inl, inr, none, refl, some, subst, true, ◌++◌, ◌==◌, ◌↔◌, ◌∷◌, ◌≡◌, ◌⊎◌,
}
use wallbox_homeautomation_g.Go.Float.{Float, IsOrdered, nought}
use wallbox_homeautomation_g.Go.Strings.Parts.{split_on}
use wallbox_homeautomation_g.Updater.Version.{best}
use wallbox_homeautomation_g.Web.I18n.{
  Choice, consider, default_lang, entry, is_supported, match_lang, no_choice, prefer, resolve_lang,
  supported,
}

not_both : (tag : String) → (tag == "de") ≡ true → (tag == "en") ≡ false
unfolding ◌==◌
not_both tag h = rw (==→≡ tag "de" h)

-- The two languages.
pub is_supported_iff :
    (lang : String) → (is_supported lang ≡ true) ↔ ((lang ≡ "de") ⊎ (lang ≡ "en"))
unfolding is_supported
is_supported_iff lang = ground (arith, ==_iff lang "de", ==_iff lang "en")

supported-ne-empty : (lang : String) → is_supported lang ≡ true → (lang == "") ≡ false
unfolding ◌==◌
supported-ne-empty lang h = elim ((is_supported_iff lang).0 h) [ inl de ↦ rw de | inr en ↦ rw en ]

module _ {ℓ} {W : Type ℓ} ⦃f : Float W⦄ where
  -- An entry of the header that names a supported language.
  abbrev named : Option (String × W) → Option (String × W)
  named none = none
  named (some (tag, q)) = if is_supported tag then some (tag, q) else none

  unfoldable pub offer : String → Option (String × W)
  offer part = named (entry part)

  pub offer_lem : (part : String) → offer part ≡ named (entry part)
  unfolding offer
  offer_lem part = refl

  -- Every supported entry has a weight q' with this relation to q.
  abbrev Weighs : (W → Bool) → Option (String × W) → Type 0
  Weighs test none = Unit {0}
  Weighs test (some (tag, q)) = test q ≡ false

  -- No supported entry weighs more than q.
  abbrev pub NoneAbove : W → List String → Type 0
  NoneAbove q [] = Unit {0}
  NoneAbove q (p ∷ ps) = Weighs (f.lt q) (offer p) × NoneAbove q ps

  -- No supported entry weighs q or more.
  abbrev pub NoneReaches : W → List String → Type 0
  NoneReaches q [] = Unit {0}
  NoneReaches q (p ∷ ps) = Weighs (f.le q) (offer p) × NoneReaches q ps

  abbrev chosen : Choice W → Option (String × W) → Choice W
  chosen best none = best
  chosen best (some (tag, q)) =
      if f.lt best.weight q then record { lang = tag; weight = q } else best

  abbrev looped : Choice W → Option (String × W) → Choice W
  looped best none = best
  looped best (some (tag, q)) = foldl (prefer tag q) best supported

  looped_lem : (best : Choice W) (o : Option (String × W)) → looped best o ≡ chosen best (named o)
  unfolding is_supported
  looped_lem best none = refl
  looped_lem best (some (tag, q)) = elim (Bool-cases (tag == "de")) [
    | inl de ↦ rw (de, not_both tag de) (ground (arith, ==→≡ tag "de"))
    | inr other ↦ rw other (ground (arith, ==→≡ tag "en"))
  ]

  consider_lem : (best : Choice W) (part : String) → consider best part ≡ chosen best (offer part)
  unfolding consider offer
  consider_lem best part = looped_lem best (entry part)

  -- How the loop over the parts ends, from a choice that it starts with.
  abbrev Ends : Choice W → List String → Choice W → Type ℓ
  Ends start parts best =
      (NoneAbove start.weight parts × (best ≡ start))
      ⊎ ((before : List String) × (part : String) × (after : List String) × (parts
            ≡ before ++ part ∷ after)
          × (offer part ≡ some (best.lang, best.weight))
          × (f.lt start.weight best.weight ≡ true)
          × NoneReaches best.weight before
          × NoneAbove best.weight after)

  module _ (o : IsOrdered W) where
    keeps_out : (q q' q'' : W) → f.lt q q' ≡ true → f.lt q q'' ≡ false → f.le q' q'' ≡ false
    keeps_out q q' q'' h k = elim (Bool-cases (f.le q' q'')) [
      | inl above ↦ Bool-absurd (o.lt_le_trans q q' q'' h above) k
      | inr below ↦ below
    ]

    beats : (q q' : W) → f.lt q q' ≡ true → f.le q' q ≡ false
    beats q q' h = elim (Bool-cases (f.le q' q)) [
      | inl above ↦ let same = o.lt_le_trans q q' q h above in Bool-absurd same (o.lt_asym q q same)
      | inr below ↦ below
    ]

    -- A part in front of a loop that ends.
    Ends-pass :
        (start best : Choice W) (p : String) (ps : List String)
        → Weighs (f.lt start.weight) (offer p)
        → ((q : W) → f.lt start.weight q ≡ true → Weighs (f.le q) (offer p))
        → Ends start ps best
        → Ends start (p ∷ ps) best
    Ends-pass start best p ps h k (inl (rest, e)) = inl ((h, rest), e)
    Ends-pass start best p ps h k (inr (before, part, after, e, of, lt, low, high)) =
        inr (p ∷ before, part, after, ap (λ xs. p ∷ xs) e, of, lt, (k best.weight lt, low), high)

    Ends-take :
        (start best : Choice W) (p tag : String) (q : W) (ps : List String)
        → offer p ≡ some (tag, q)
        → f.lt start.weight q ≡ true
        → Ends (record { lang = tag; weight = q }) ps best
        → Ends start (p ∷ ps) best
    Ends-take start best p tag q ps e above (inl (rest, same)) =
        inr ([], p, ps, refl, rw (e, same), rw same above, tt, rw same rest)
    Ends-take start best p tag q ps e above (inr (before, part, after, e', of, lt, low, high)) =
        inr (
          p ∷ before,
          part,
          after,
          ap (λ xs. p ∷ xs) e',
          of,
          o.lt_trans start.weight q best.weight above lt,
          (rw e (beats q best.weight lt), low),
          high,
        )

    Ends-step :
        (start best : Choice W) (p : String) (ps : List String) (x : Option (String × W))
        → offer p ≡ x
        → Ends (chosen start x) ps best
        → Ends start (p ∷ ps) best
    Ends-step start best p ps none e h = Ends-pass start best p ps (rw e tt) (λ q lt. rw e tt) h
    Ends-step start best p ps (some (tag, q)) e h = elim (Bool-cases (f.lt start.weight q)) [
      | inl above ↦ Ends-take start best p tag q ps e above (rw above at h)
      | inr below ↦
          Ends-pass start best p ps (rw e below)
            (λ q' lt. rw e (keeps_out start.weight q' q lt below)) (rw below at h)
    ]

    foldl-Ends : (start : Choice W) (ps : List String) → Ends start ps (foldl consider start ps)
    foldl-Ends start [] = inl (tt, refl)
    foldl-Ends start (p ∷ ps) =
        Ends-step start (foldl consider (consider start p) ps) p ps (offer p) refl (
          subst (λ c. Ends c ps (foldl consider (consider start p) ps)) (consider_lem start p)
            (foldl-Ends (consider start p) ps))

module _ {ℓ} (W : Type ℓ) ⦃f : Float W⦄ where
  named-is_supported :
      (x : Option (String × W)) (lang : String) (q : W)
      → named x ≡ some (lang, q)
      → is_supported lang ≡ true
  named-is_supported none lang q e = absurd (cc)
  named-is_supported (some (tag, q')) lang q e = ground arith

  -- Either no supported language has a positive weight, and the match is the default. Or the match
  -- is named by an entry with a positive weight that no entry after it exceeds and no entry before it
  -- reaches.
  pub match_lang-best :
      (o : IsOrdered W) (accept_language : String)
      → let parts = split_on b',' accept_language in
        (NoneAbove {W = W} nought parts × (match_lang W accept_language ≡ default_lang))
        ⊎ ((before : List String) × (part : String) × (after : List String) × (q : W) × (parts
              ≡ before ++ part ∷ after)
            × (offer part ≡ some (match_lang W accept_language, q))
            × (f.lt nought q ≡ true)
            × NoneReaches q before
            × NoneAbove q after)
  unfolding match_lang ◌==◌ entry offer
  match_lang-best o accept_language =
      elim (foldl-Ends o no_choice (split_on b',' accept_language)) [
        | inl (rest, e) ↦ inl (rest, rw e refl)
        | inr (before, part, after, e, of, lt, low, high) ↦
            let best = foldl (consider {W = W}) no_choice (split_on b',' accept_language) in
            let named_ : (best.lang == "") ≡ false =
              supported-ne-empty best.lang
                (named-is_supported (entry part) best.lang best.weight of) in
            inr (before, part, after, best.weight, e, rw named_ of, lt, low, high)
      ]

  match_lang-is_supported :
      (accept_language : String) → IsOrdered W → is_supported (match_lang W accept_language) ≡ true
  match_lang-is_supported accept_language o = elim (match_lang-best o accept_language) [
    | inl (rest, e) ↦ (is_supported_iff (match_lang W accept_language)).1 (inl e)
    | inr (earlier, p, after, q, e, of, lt, low, high) ↦
        named-is_supported (entry p) (match_lang W accept_language) q (rw (← offer_lem p) of)
  ]

  -- The language of a request is always a supported one: the cookie's if it names one, and otherwise
  -- the best match of the header.
  pub resolve_lang-is_supported :
      (cookie accept_language : String)
      → IsOrdered W
      → ((is_supported cookie ≡ true) × (resolve_lang W cookie accept_language ≡ cookie))
        ⊎ ((is_supported cookie ≡ false)
            × (resolve_lang W cookie accept_language ≡ match_lang W accept_language)
            × (is_supported (resolve_lang W cookie accept_language) ≡ true))
  unfolding resolve_lang
  resolve_lang-is_supported cookie accept_language o = elim (Bool-cases (is_supported cookie)) [
    | inl pinned ↦ rw pinned (inl (refl, refl))
    | inr other ↦ rw other (inr (refl, refl, match_lang-is_supported accept_language o))
  ]
