-- ===== src/Web/I18n.antt =====
-- internal/web/i18n/bundle.go: the translation catalogs, and the language of a request. The locale
-- files, the decoding of JSON and fmt.Sprintf are parameters.
pub mod Best
use wallbox_homeautomation_g.Base.{
  Bool, List, Option, String, [], foldl, if◌then◌else◌, none, not, some, ◌&&◌, ◌==◌, ◌||◌, ◌∷◌,
}
use wallbox_homeautomation_g.Base.Dict.{Dict, insert, lookup, or_zero}
use wallbox_homeautomation_g.Base.Int.{pos}
use wallbox_homeautomation_g.Go.Float.{Float, nought}
use wallbox_homeautomation_g.Go.Strings.{trim_space, ◌+s◌}
use wallbox_homeautomation_g.Go.Strings.Parts.{cut_at, cut_prefix, split_on, to_lower}

abbrev pub default_lang : String
default_lang = "de"

abbrev pub supported : List String
supported = "de" ∷ "en" ∷ []

-- the catalogs, by language and then by key
abbrev pub Bundle : Type 0
Bundle = Dict (Dict String)

abbrev load :
    (String → Option String)
    → (String → Option (Dict String))
    → List String
    → Bundle
    → Option Bundle
load read decode [] catalogs = some catalogs
load read decode (lang ∷ langs) catalogs = elim (read ("locales/" +s lang +s ".json")) [
  | none ↦ none
  | some body ↦ elim (decode body) [
    | none ↦ none
    | some catalog ↦ load read decode langs (insert lang catalog catalogs)
  ]
]

-- `New`: `none` is its panic.
unfoldable pub new_bundle :
    (String → Option String) → (String → Option (Dict String)) → Option Bundle
new_bundle read decode = load read decode supported []

-- `b.catalogs[lang][key]`
abbrev pub message : Bundle → String → String → Option String
message b lang key = lookup key (or_zero [] (lookup lang b))

unfoldable pub lookup_message : Bundle → String → String → Option String
lookup_message b lang key = elim (message b lang key) [
  | some msg ↦ some msg
  | none ↦ if not (lang == default_lang) then message b default_lang key else none
]

module _ {A : Type 0} (sprintf : String → List A → String) where
  unfoldable pub format : String → List A → String
  format msg [] = msg
  format msg (a ∷ args) = sprintf msg (a ∷ args)

  -- `T` and `TOr`
  unfoldable pub translate : Bundle → String → String → List A → String
  translate b lang key args = format (or_zero key (lookup_message b lang key)) args

  unfoldable pub translate_or : Bundle → String → String → String → List A → String
  translate_or b lang key fallback args = elim (lookup_message b lang key) [
    | none ↦ fallback
    | some msg ↦ format msg args
  ]

unfoldable pub is_supported : String → Bool
is_supported code = code == "de" || code == "en"

abbrev primary : String → String
primary tag =
    to_lower (trim_space (elim (cut_at b'-' tag) [ none ↦ tag | some (main, sub) ↦ main ]))

pub record Choice {ℓ} (W : Type ℓ) : Type ℓ where
  pub lang : String
  pub weight : W

module _ {ℓ} {W : Type ℓ} ⦃f : Float W⦄ where
  abbrev one : W
  one = f.of_int (pos 1)

  abbrev q_of : List String → W
  q_of [] = one
  q_of (p ∷ ps) = elim (cut_prefix (trim_space p) "q=") [
    | none ↦ q_of ps
    | some v ↦ elim (f.parse_float (trim_space v)) [ none ↦ q_of ps | some q ↦ q ]
  ]

  unfoldable pub parse_q : String → W
  parse_q parameters = q_of (split_on b';' parameters)

  -- a part of the header: its primary subtag and its weight; `none` where it is empty
  unfoldable pub entry : String → Option (String × W)
  entry part =
      let tag = trim_space part in
      if tag == "" then none else elim (cut_at b';' tag) [
        | none ↦ some (primary tag, one)
        | some (name, parameters) ↦ some (primary name, parse_q parameters)
      ]

  -- the loop over `Supported`
  abbrev pub prefer : String → W → Choice W → String → Choice W
  prefer tag q best sup =
      if tag == sup && f.lt best.weight q then record { lang = sup; weight = q } else best

  unfoldable pub consider : Choice W → String → Choice W
  consider best part = elim (entry part) [
    | none ↦ best
    | some (tag, q) ↦ foldl (prefer tag q) best supported
  ]

  abbrev pub no_choice : Choice W
  no_choice = record { lang = ""; weight = nought }

module _ {ℓ} (W : Type ℓ) ⦃f : Float W⦄ where
  unfoldable pub match_lang : String → String
  match_lang accept_language =
      let best = foldl (consider {W = W}) no_choice (split_on b',' accept_language) in
      if best.lang == "" then default_lang else best.lang

  unfoldable pub resolve_lang : String → String → String
  resolve_lang cookie accept_language =
      if is_supported cookie then cookie else match_lang accept_language
