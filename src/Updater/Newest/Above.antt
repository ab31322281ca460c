-- ===== src/Updater/Newest/Above.antt =====
-- updater.go: the newest of the registry's tags, against the order of versions by their numbers.
use wallbox_homeautomation_g.Base.{
  Bool-absurd, List, Option-cases, String, [], false, inl, inr, refl, some, sym, true, ◌∙◌, ◌∷◌,
  ◌≡◌, ◌⊎◌,
}
use wallbox_homeautomation_g.Updater.Newest.{
  Among, NoVersion, NoneNewer, Precedes, exceeds, exceeds_iff, max_semver-newest,
}
use wallbox_homeautomation_g.Updater.Version.{Version, is_semver, max_semver, newer, version_of}

NoneNewer-Among :
    (m t : String) (ts : List String) → NoneNewer m ts → Among t ts → newer m t ≡ false
NoneNewer-Among m t [] h a = absurd a
NoneNewer-Among m t (s ∷ ts) h (inl e) = rw e h.0
NoneNewer-Among m t (s ∷ ts) h (inr a) = NoneNewer-Among m t ts h.1 a

newer_of :
    (m t : String) (v w : Version)
    → version_of m ≡ some v
    → version_of t ≡ some w
    → newer m t ≡ exceeds w v
unfolding newer exceeds
newer_of m t v w e e' = rw (e, e')

not_Precedes :
    (m t : String) (v w : Version)
    → version_of m ≡ some v
    → version_of t ≡ some w
    → newer m t ≡ false
    → ¬ Precedes v w
not_Precedes m t v w e e' h p =
    Bool-absurd ((exceeds_iff w v).1 p) (sym (newer_of m t v w e e') ∙ h)

version_known : (m : String) → is_semver m ≡ true → (v : Version) × (version_of m ≡ some v)
unfolding is_semver
version_known m h = elim (Option-cases (version_of m)) [
  | inl e ↦ absurd (Bool-absurd h (rw e refl))
  | inr found ↦ found
]

-- The newest tag is one of the tags and reads as a version that no other tag's version is above.
pub max_semver-Precedes :
    (tags : List String)
    → (NoVersion tags × (max_semver tags ≡ ""))
      ⊎ (Among (max_semver tags) tags
          × (v : Version) × (version_of (max_semver tags) ≡ some v)
          × ((t : String) (w : Version) → Among t tags → version_of t ≡ some w → ¬ Precedes v w))
max_semver-Precedes tags = elim (max_semver-newest tags) [
  | inl none_there ↦ inl none_there
  | inr (there, known_, newest) ↦
      let (v, e) = version_known (max_semver tags) known_ in
      inr (
        there,
        v,
        e,
        λ t w a e'.
            not_Precedes (max_semver tags) t v w e e'
              (NoneNewer-Among (max_semver tags) t tags newest a),
      )
]
