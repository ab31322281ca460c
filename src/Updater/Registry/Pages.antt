-- ===== src/Updater/Registry/Pages.antt =====
-- updater.go: which pages the loop of fetchTags reads, and what becomes of their tags.
use mathlib.Core.List.{append-nil, append_assoc}
use wallbox_homeautomation_g.Base.{
  ==_false, ==_of_≡, ==→≡, Bool-absurd, Bool-cases, List, String, [], ap, arith, inl, inr, refl,
  some, suc, sym, zero, ℕ, ◌++◌, ◌<◌, ◌==◌, ◌∙◌, ◌≡◌, ◌≢◌, ◌≤◌, ◌⊎◌,
}
use wallbox_homeautomation_g.Go.Result.{Result, Result-cases, err, ok}
use wallbox_homeautomation_g.Updater.Newest.{Among, NoVersion, Precedes}
use wallbox_homeautomation_g.Updater.Newest.Above.{max_semver-Precedes}
use wallbox_homeautomation_g.Updater.Registry.{
  Http, fetch_pull_token, fetch_tags, fetch_tags_page, first_page, latest_semver, max_tag_pages,
  next_link, tag_pages,
}
use wallbox_homeautomation_g.Updater.Version.{Version, max_semver, version_of}

module _ (page : String → Result (List String × String)) (base : String) where
  -- From `url` on, n pages are there, each named by the Link header of the one before. Together they
  -- list `tags`, and the last one's header names `end`.
  abbrev pub Walk : ℕ → String → List String → String → Type 0
  Walk zero url tags end = (tags ≡ []) × (end ≡ url)
  Walk (suc n) url tags end =
      (first : List String) × (link : String) × (rest : List String) × (url ≢ "")
      × (page url ≡ ok (first, link))
      × (tags ≡ first ++ rest)
      × Walk n (next_link link base) rest end

  -- How the loop ends within `left` pages: with every tag, cut off, or at a page that fails.
  abbrev pub Ends : ℕ → String → List String → Result (List String) → Type 0
  Ends left url all r =
      (n : ℕ) × (tags : List String) × (end : String) × (n ≤ left)
      × Walk n url tags end
      × ((((end ≡ "") ⊎ (n ≡ left)) × (r ≡ ok (all ++ tags)))
          ⊎ ((n < left) × (end ≢ "") × (page end ≡ err) × (r ≡ err)))

  further :
      (left : ℕ) (url : String) (all first : List String) (link : String) (r : Result (List String))
      → url ≢ ""
      → page url ≡ ok (first, link)
      → Ends left (next_link link base) (all ++ first) r
      → Ends (suc left) url all r
  further left url all first link r h p (n, tags, end, le, walk, inl (stop, e)) = (
    suc n,
    first ++ tags,
    end,
    omega arith,
    (first, link, tags, h, p, refl, walk),
    inl (stops stop, e ∙ ap ok (append_assoc all first tags)),
  )
    where
      stops : (end ≡ "") ⊎ (n ≡ left) → (end ≡ "") ⊎ (suc n ≡ suc left)
      stops (inl e) = inl e
      stops (inr e) = inr (ap suc e)
  further left url all first link r h p (n, tags, end, le, walk, inr (lt, more, fails, e)) = (
    suc n,
    first ++ tags,
    end,
    omega arith,
    (first, link, tags, h, p, refl, walk),
    inr (omega arith, more, fails, e),
  )

  tag_pages_total :
      (left : ℕ) (url : String) (all : List String)
      → Ends left url all (tag_pages page base left url all)
  unfolding tag_pages
  tag_pages_total zero url all =
      (0, [], url, omega arith, (refl, refl), inl (inr refl, ap ok (sym (append-nil all))))
  tag_pages_total (suc left) url all = elim (Bool-cases (url == "")) [
    | inl done ↦ rw done (
      0,
      [],
      url,
      omega arith,
      (refl, refl),
      inl (inl (==→≡ url "" done), ap ok (sym (append-nil all))),
    )
    | inr more ↦ rw more (elim (Result-cases (page url)) [
      | inl ((first, link), e) ↦ rw e (
          further left url all first link _ (λ s. Bool-absurd (==_of_≡ url "" s) more) e
            (tag_pages_total left (next_link link base) (all ++ first)))
      | inr e ↦ rw e (
        0,
        [],
        url,
        omega arith,
        (refl, refl),
        inr (omega arith, (λ s. Bool-absurd (==_of_≡ url "" s) more), e, refl),
      )
    ])
  ]

  tag_pages_stop :
      (left : ℕ) (url : String) (all : List String)
      → url ≡ ""
      → tag_pages page base left url all ≡ ok all
  unfolding tag_pages
  tag_pages_stop zero url all e = refl
  tag_pages_stop (suc left) url all e = rw (==_of_≡ url "" e)

  -- The loop reads every page of a walk that it may finish.
  tag_pages-Walk :
      (n left : ℕ) (url : String) (all tags : List String) (end : String)
      → n ≤ left
      → end ≡ ""
      → Walk n url tags end
      → tag_pages page base left url all ≡ ok (all ++ tags)
  unfolding tag_pages
  tag_pages-Walk zero left url all tags end le e (t, u) =
      tag_pages_stop left url all (sym u ∙ e)
      ∙ ap ok (sym (append-nil all) ∙ ap (λ s. all ++ s) (sym t))
  tag_pages-Walk (suc n) zero url all tags end le e w = absurd (omega arith)
  tag_pages-Walk (suc n) (suc left) url all tags end le e (first, link, rest, h, p, t, walk) =
      rw (==_false url "" h, p, t)
        (tag_pages-Walk n left (next_link link base) (all ++ first) rest end (omega arith) e walk
          ∙ ap ok (append_assoc all first rest))

-- Whatever the registry answers, `fetchTags` asks for at most 100 pages and ends: with the tags of
-- all pages that it read, in order, when no next page is named or 100 are read, and with an error at
-- the first page that fails.
pub fetch_tags_total :
    (http : Http) (base repo token : String)
    → Ends
        (fetch_tags_page http token)
        base
        max_tag_pages
        (first_page base repo)
        []
        (fetch_tags http base repo token)
unfolding fetch_tags
fetch_tags_total http base repo token =
    tag_pages_total (fetch_tags_page http token) base max_tag_pages (first_page base repo) []

-- With a pull token, and pages that end after at most 100, `latestSemver` gives a tag of one of the
-- pages, and by major, minor and patch number no tag on any page that is a version is above it; if
-- no tag is a version, it gives the empty text.
pub latest_semver-newest :
    (http : Http) (base repo token : String) (n : ℕ) (tags : List String)
    → fetch_pull_token http base repo ≡ ok token
    → Walk (fetch_tags_page http token) base n (first_page base repo) tags ""
    → n ≤ max_tag_pages
    → (m : String) × (latest_semver http base repo ≡ ok m)
      × ((NoVersion tags × (m ≡ ""))
          ⊎ (Among m tags
              × (v : Version) × (version_of m ≡ some v)
              × ((t : String) (w : Version)
                  → Among t tags
                  → version_of t ≡ some w
                  → ¬ Precedes v w)))
unfolding latest_semver fetch_tags
latest_semver-newest http base repo token n tags t walk le = (
  max_semver tags,
  rw (
    t,
    tag_pages-Walk (fetch_tags_page http token) base n max_tag_pages (first_page base repo) [] tags
        "" le refl walk,
  ),
  max_semver-Precedes tags,
)
