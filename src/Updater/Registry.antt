-- ===== src/Updater/Registry.antt =====
-- updater.go: the anonymous token, the pages of the tags, and the newest of them. The HTTP client
-- and the decoding of JSON are parameters.
pub mod Pages
use wallbox_homeautomation_g.Base.{
  Bool, List, Option, String, [], eqb, false, if◌then◌else◌, none, not, some, suc, zero, ℕ, ◌++◌,
  ◌==◌, ◌||◌, ◌∷◌,
}
use wallbox_homeautomation_g.Go.Result.{Result, err, guard, of_option, ok, ◌>>=◌, ◌>>◌}
use wallbox_homeautomation_g.Go.Strings.{trim_space, ◌+s◌}
use wallbox_homeautomation_g.Go.Strings.Parts.{
  cut_last, cut_prefix, has_prefix, remove_all, split_on, trim_left_of, trim_right_of,
}
use wallbox_homeautomation_g.Updater.Version.{max_semver}

pub record Response : Type 0 where
  pub status : ℕ
  pub body : String
  -- the Link header, empty when there is none
  pub link : String

pub record Http : Type 0 where
  -- `GET url` with an Authorization header; `none` is an error of the request or of the network
  pub get : String → String → Option Response
  pub decode_token : String → Option String
  pub decode_tags : String → Option (List String)

unfoldable pub fetch_pull_token : Http → String → String → Result String
fetch_pull_token http base repo = do
  let url = base +s "/token?scope=repository:" +s repo +s ":pull&service=ghcr.io"
  r ← of_option (http.get url "")
  guard (eqb r.status 200)
  token ← of_option (http.decode_token r.body)
  guard (not (token == ""))
  ok token

-- the tags of one page, and its Link header
unfoldable pub fetch_tags_page : Http → String → String → Result (List String × String)
fetch_tags_page http token url = do
  r ← of_option (http.get url ("Bearer " +s token))
  guard (eqb r.status 200)
  tags ← of_option (http.decode_tags r.body)
  ok (tags, r.link)

-- whether one of the parameters of a link is `rel="next"`
unfoldable pub is_next : List String → Bool
is_next [] = false
is_next (p ∷ ps) = (remove_all b'"' (trim_space p) == "rel=next") || is_next ps

abbrev without_close : Option (String × ℕ) → Option String
without_close none = none
without_close (some (s, c)) = if eqb c b'>' then some s else none

abbrev without_open : Option String → Option String
without_open none = none
without_open (some s) = without_close (cut_last s)

-- what stands between `<` and `>`
unfoldable pub link_target : String → Option String
link_target s = without_open (cut_prefix (trim_space s) "<")

unfoldable pub resolve : String → String → String
resolve base u =
    if has_prefix u "http://" || has_prefix u "https://"
    then u
    else trim_right_of b'/' base +s "/" +s trim_left_of b'/' u

-- a round of the loop of `nextLink`: `none` goes on to the next part
abbrev next_of_parts : String → List String → Option String
next_of_parts base [] = none
next_of_parts base (target ∷ parameters) = elim (link_target target) [
  | none ↦ none
  | some u ↦ if is_next parameters then some (resolve base u) else none
]

unfoldable pub next_of : String → String → Option String
next_of base part = next_of_parts base (split_on b';' part)

unfoldable pub first_next : String → List String → String
first_next base [] = ""
first_next base (p ∷ ps) = elim (next_of base p) [ none ↦ first_next base ps | some u ↦ u ]

unfoldable pub next_link : String → String → String
next_link header base = first_next base (split_on b',' header)

abbrev pub max_tag_pages : ℕ
max_tag_pages = 100

module _ (page : String → Result (List String × String)) (base : String) where
  -- the loop of `fetchTags`, with the pages that it may still ask for
  unfoldable pub tag_pages : ℕ → String → List String → Result (List String)
  tag_pages zero next all = ok all
  tag_pages (suc left) next all = if next == "" then ok all else elim (page next) [
    | err ↦ err
    | ok (tags, link) ↦ tag_pages left (next_link link base) (all ++ tags)
  ]

unfoldable pub first_page : String → String → String
first_page base repo = base +s "/v2/" +s repo +s "/tags/list"

unfoldable pub fetch_tags : Http → String → String → String → Result (List String)
fetch_tags http base repo token =
    tag_pages (fetch_tags_page http token) base max_tag_pages (first_page base repo) []

unfoldable pub latest_semver : Http → String → String → Result String
latest_semver http base repo = do
  token ← fetch_pull_token http base repo
  tags ← fetch_tags http base repo token
  ok (max_semver tags)
