-- ===== src/Updater/Newest.antt =====
-- What updater.go takes for the newest of the registry's tags.
pub mod Above
use wallbox_homeautomation_g.Base.{
  Bool, Bool-absurd, Bool-cases, List, Option, Option-cases, String, [], arith, false,
  if◌then◌else◌, inl, inr, none, refl, some, sym, true, ℕ, ◌<◌, ◌∙◌, ◌↔◌, ◌∷◌, ◌≡◌, ◌⊎◌,
}
use wallbox_homeautomation_g.Base.Dict.{or_zero}
use wallbox_homeautomation_g.Base.Int.{lt_ℤ, lt_ℤ_iff, pos, ℤ}
use wallbox_homeautomation_g.Store.Tables.{is_newer}
use wallbox_homeautomation_g.Updater.Version.{
  Version, best, compare_part, compare_semver, is_semver, is_some, max_semver, newer, newer_version,
  version_of,
}

exceeds : Version → Version → Bool
exceeds a b = lt_ℤ (pos 0) (compare_semver a b)

-- The order of versions: by the major number, then the minor one, then the patch.
abbrev pub Precedes : Version → Version → Type 0
Precedes b a =
    (b.major < a.major)
    ⊎ ((a.major ≡ b.major) × ((b.minor < a.minor) ⊎ ((a.minor ≡ b.minor) × (b.patch < a.patch))))

compare_part-true :
    (a b : ℕ) (rest : ℤ)
    → (lt_ℤ (pos 0) (compare_part a b rest) ≡ true)
      ↔ ((b < a) ⊎ ((a ≡ b) × (lt_ℤ (pos 0) rest ≡ true)))
unfolding compare_part lt_ℤ
compare_part-true a b rest = ground arith

exceeds_iff : (a b : Version) → (exceeds a b ≡ true) ↔ Precedes b a
unfolding exceeds compare_semver
exceeds_iff a b = ground (
  arith,
  lt_ℤ_iff (pos 0) (pos 0),
  compare_part-true a.patch b.patch (pos 0),
  compare_part-true a.minor b.minor (compare_part a.patch b.patch (pos 0)),
  compare_part-true a.major b.major
      (compare_part a.minor b.minor (compare_part a.patch b.patch (pos 0))),
)

exceeds_irreflexive : (a : Version) → exceeds a a ≡ false
unfolding exceeds compare_semver compare_part lt_ℤ
exceeds_irreflexive a = ground arith

exceeds_asym : (a b : Version) → exceeds a b ≡ true → exceeds b a ≡ false
exceeds_asym a b h = ground (arith, exceeds_iff a b, exceeds_iff b a)

-- not exceeding is transitive
exceeds_cotrans :
    (a b c : Version) → exceeds a b ≡ false → exceeds b c ≡ false → exceeds a c ≡ false
exceeds_cotrans a b c h k = ground (arith, exceeds_iff a b, exceeds_iff b c, exceeds_iff a c)

cotrans :
    (x y z : Option Version)
    → is_some y ≡ true
    → newer_version y x ≡ false
    → newer_version z y ≡ false
    → newer_version z x ≡ false
unfolding exceeds
cotrans x none z s h k = absurd (cc)
cotrans x (some b) none s h k = refl
cotrans none (some b) (some c) s h k = refl
cotrans (some a) (some b) (some c) s h k = exceeds_cotrans a b c h k

asym : (x y : Option Version) → newer_version x y ≡ true → newer_version y x ≡ false
unfolding exceeds
asym none y h = absurd (cc)
asym (some a) none h = absurd (cc)
asym (some a) (some b) h = exceeds_asym b a h

irreflexive : (x : Option Version) → newer_version x x ≡ false
unfolding exceeds
irreflexive none = refl
irreflexive (some a) = exceeds_irreflexive a

known : (x y : Option Version) → newer_version x y ≡ true → (is_some x ≡ true) × (is_some y ≡ true)
known none y h = absurd (cc)
known (some a) none h = absurd (cc)
known (some a) (some b) h = (refl, refl)

pub newer_known : (a b : String) → newer a b ≡ true → (is_semver a ≡ true) × (is_semver b ≡ true)
unfolding newer is_semver
newer_known a b h = known (version_of a) (version_of b) h

pub newer_irreflexive : (a : String) → newer a a ≡ false
unfolding newer
newer_irreflexive a = irreflexive (version_of a)

-- No tag is newer than this one.
abbrev NoneNewer : String → List String → Type 0
NoneNewer m [] = Unit {0}
NoneNewer m (t ∷ ts) = (newer m t ≡ false) × NoneNewer m ts

abbrev pub NoVersion : List String → Type 0
NoVersion [] = Unit {0}
NoVersion (t ∷ ts) = (is_semver t ≡ false) × NoVersion ts

NoneNewer-cotrans :
    (m r : String) (ts : List String)
    → is_semver r ≡ true
    → newer m r ≡ false
    → NoneNewer r ts
    → NoneNewer m ts
unfolding newer is_semver
NoneNewer-cotrans m r [] s h k = tt
NoneNewer-cotrans m r (t ∷ ts) s h k =
    (cotrans (version_of t) (version_of r) (version_of m) s k.0 h, NoneNewer-cotrans m r ts s h k.1)

abbrev pub Among : String → List String → Type 0
Among m [] = ⊥
Among m (t ∷ ts) = (m ≡ t) ⊎ Among m ts

-- the two answers of `best`
abbrev IsBest : List String → Option String → Type 0
IsBest ts none = NoVersion ts
IsBest ts (some m) = Among m ts × (is_semver m ≡ true) × NoneNewer m ts

unknown-newer : (m t : String) → is_semver t ≡ false → newer m t ≡ false
unknown-newer m t h = elim (Bool-cases (newer m t)) [
  | inl is_newer ↦ Bool-absurd (newer_known m t is_newer).1 h
  | inr other ↦ other
]

NoVersion-NoneNewer : (m : String) (ts : List String) → NoVersion ts → NoneNewer m ts
NoVersion-NoneNewer m [] h = tt
NoVersion-NoneNewer m (t ∷ ts) h = (unknown-newer m t h.0, NoVersion-NoneNewer m ts h.1)

newer_asym : (a b : String) → newer a b ≡ true → newer b a ≡ false
unfolding newer
newer_asym a b h = asym (version_of a) (version_of b) h

with_version :
    (t : String) (ts : List String) (o : Option String)
    → is_semver t ≡ true
    → IsBest ts o
    → IsBest (t ∷ ts) (elim o [ none ↦ some t | some r ↦ if newer t r then some r else some t ])
with_version t ts none s h = (inl refl, s, (newer_irreflexive t, NoVersion-NoneNewer t ts h))
with_version t ts (some r) s h = elim (Bool-cases (newer t r)) [
  | inl above ↦ rw above (inr h.0, h.1, (newer_asym t r above, h.2))
  | inr other ↦
      rw other (inl refl, s, (newer_irreflexive t, NoneNewer-cotrans t r ts h.1 other h.2))
]

without_version :
    (t : String) (ts : List String) (o : Option String)
    → is_semver t ≡ false
    → IsBest ts o
    → IsBest (t ∷ ts) o
without_version t ts none s h = (s, h)
without_version t ts (some m) s h = (inr h.0, h.1, (unknown-newer m t s, h.2))

best-IsBest : (ts : List String) → IsBest ts (best ts)
unfolding best
best-IsBest [] = tt
best-IsBest (t ∷ ts) = elim (Bool-cases (is_semver t)) [
  | inl known_ ↦ rw known_ (with_version t ts (best ts) known_ (best-IsBest ts))
  | inr other ↦ rw other (without_version t ts (best ts) other (best-IsBest ts))
]

newest_of :
    (tags : List String) (o : Option String)
    → IsBest tags o
    → let m = or_zero "" o in
      (NoVersion tags × (m ≡ "")) ⊎ (Among m tags × (is_semver m ≡ true) × NoneNewer m tags)
newest_of tags none h = inl (h, refl)
newest_of tags (some m) h = inr h

-- The newest tag is one of the tags, a version, and none of the tags is newer than it; if no tag is
-- a version, it is the empty text.
max_semver-newest :
    (tags : List String)
    → (NoVersion tags × (max_semver tags ≡ ""))
      ⊎ (Among (max_semver tags) tags
          × (is_semver (max_semver tags) ≡ true)
          × NoneNewer (max_semver tags) tags)
unfolding max_semver
max_semver-newest tags = newest_of tags (best tags) (best-IsBest tags)
