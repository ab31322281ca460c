-- ===== src/Updater/Tests.antt =====
-- Runs of updater.go.
use wallbox_homeautomation_g.Base.{
  ==_of_≡, Bool-absurd, List, String, [], arith, false, inl, refl, some, true, ◌==◌, ◌∷◌, ◌≡◌, ◌≢◌,
  ◌⊎◌,
}
use wallbox_homeautomation_g.Base.Int.{eq_ℤ, lt_ℤ}
use wallbox_homeautomation_g.Controller.Memory.{memory}
use wallbox_homeautomation_g.Go.Float.{whole}
use wallbox_homeautomation_g.Go.Result.{ok}
use wallbox_homeautomation_g.Go.Strings.{is_space, trim_left, trim_right, trim_space, ◌+s◌}
use wallbox_homeautomation_g.Go.Strings.Parts.{
  cut_last, cut_prefix, remove_all, split_on, trim_left_of, trim_right_of,
}
use wallbox_homeautomation_g.Go.Time.{is_zero}
use wallbox_homeautomation_g.Updater.{
  check, info, is_cached, is_requested, new_updater, requested, trigger,
}
use wallbox_homeautomation_g.Updater.Examples.{
  apart, full_disk, ghcr, informed, no_temp, noon, request_apart, second_page, shared, sidecar,
  sound_disk, started,
}
use wallbox_homeautomation_g.Updater.Files.{read_status, write, write_file_atomic, write_request}
use wallbox_homeautomation_g.Updater.Files.Atomic.{StillHolds, write_file_atomic-cases}
use wallbox_homeautomation_g.Updater.Newest.{Among, NoVersion, Precedes}
use wallbox_homeautomation_g.Updater.Registry.{
  fetch_pull_token, fetch_tags, fetch_tags_page, first_next, first_page, is_next, latest_semver,
  link_target, max_tag_pages, next_link, next_of, resolve, tag_pages,
}
use wallbox_homeautomation_g.Updater.Registry.Pages.{
  Ends, Walk, fetch_tags_total, latest_semver-newest,
}
use wallbox_homeautomation_g.Updater.Version.{
  Version, best, compare_part, compare_semver, is_semver, max_semver, newer, part, version_of,
}
use wallbox_homeautomation_g.Updater.Whole.{
  asks, check_registry, default_base_url, info_of, request_path, trigger_files, trigger_files-cases,
}

link_test :
    next_link "</v2/a>; rel=\"prev\", </v2/joessst-dev/wha/tags/list?last=1.9.3>; rel=\"next\""
      "https://ghcr.io/"
    ≡ second_page
unfolding next_link first_next next_of split_on link_target cut_prefix cut_last is_next remove_all
    trim_space trim_left trim_right is_space resolve trim_right_of trim_left_of ◌+s◌ ◌==◌
link_test = refl

token_test : fetch_pull_token ghcr default_base_url "joessst-dev/wha" ≡ ok "anonymous"
unfolding fetch_pull_token ◌+s◌ ◌==◌
token_test = refl

two_pages :
    Walk
      (fetch_tags_page ghcr "anonymous")
      default_base_url
      2
      (first_page default_base_url "joessst-dev/wha")
      ("1.9.3" ∷ "latest" ∷ "1.10.0" ∷ [])
      ""
unfolding fetch_tags_page first_page next_link first_next next_of split_on link_target cut_prefix
    cut_last is_next remove_all trim_space trim_left trim_right is_space resolve trim_right_of
    trim_left_of ◌+s◌ ◌==◌
two_pages = (
  "1.9.3" ∷ "latest" ∷ [],
  "</v2/joessst-dev/wha/tags/list?last=1.9.3>; rel=\"next\"",
  "1.10.0" ∷ [],
  (λ e. cc),
  refl,
  refl,
  ("1.10.0" ∷ [], "", [], (λ e. cc), refl, refl, (refl, refl)),
)

fetch_tags_total_example :
    Ends
      (fetch_tags_page ghcr "anonymous")
      default_base_url
      max_tag_pages
      (first_page default_base_url "joessst-dev/wha")
      []
      (fetch_tags ghcr default_base_url "joessst-dev/wha" "anonymous")
fetch_tags_total_example = fetch_tags_total ghcr default_base_url "joessst-dev/wha" "anonymous"

latest_semver-newest_example :
    let tags : List String = "1.9.3" ∷ "latest" ∷ "1.10.0" ∷ [] in
    (m : String) × (latest_semver ghcr default_base_url "joessst-dev/wha" ≡ ok m)
    × ((NoVersion tags × (m ≡ ""))
        ⊎ (Among m tags
            × (v : Version) × (version_of m ≡ some v)
            × ((t : String) (w : Version) → Among t tags → version_of t ≡ some w → ¬ Precedes v w)))
latest_semver-newest_example =
    latest_semver-newest ghcr default_base_url "joessst-dev/wha" "anonymous" 2
      ("1.9.3" ∷ "latest" ∷ "1.10.0" ∷ []) token_test two_pages (omega arith)

status_apart : "/run/update/status.json" ≢ full_disk.temp
unfolding ◌==◌
status_apart e = Bool-absurd (==_of_≡ "/run/update/status.json" "/run/update/.tmp-1" e) refl

write_file_atomic-cases_example :
    let r = write_file_atomic full_disk "/run/update/request.json" "new" shared in
    StillHolds "/run/update/request.json" (shared "/run/update/request.json") r.earlier
    × StillHolds "/run/update/status.json" (shared "/run/update/status.json") r.earlier
    × (((r.done ≡ true)
          × (r.files "/run/update/request.json"
              ≡ write "/run/update/request.json" (some "new") shared "/run/update/request.json"))
        ⊎ ((r.done ≡ false)
            × (r.files "/run/update/request.json" ≡ shared "/run/update/request.json")))
write_file_atomic-cases_example =
    write_file_atomic-cases full_disk "/run/update/request.json" "new" shared
      "/run/update/status.json" "/run/update/request.json" apart status_apart no_temp (inl refl)

trigger_files-cases_example :
    let q = asks "1.10.0" noon in
    let p : String = "/run/update/request.json" in
    let (answer, files') = trigger_files sidecar sound_disk noon "1.10.0" informed shared in
    ((answer ≡ requested q)
      × (informed.cfg.enabled ≡ true)
      × (is_semver "1.10.0" ≡ true)
      × ("1.10.0" ≢ informed.current)
      × (files' p ≡ write (request_path informed) (some "1.10.0") shared p))
    ⊎ ((is_requested answer ≡ false) × (files' p ≡ shared p))
trigger_files-cases_example =
    trigger_files-cases sidecar sound_disk noon "1.10.0" informed shared "/run/update/request.json"
      request_apart no_temp (inl refl)

triggered_test :
    let (answer, files') = trigger_files sidecar sound_disk noon "1.10.0" informed shared in
    (answer ≡ requested (asks "1.10.0" noon)) × (files' "/run/update/request.json" ≡ some "1.10.0")
unfolding trigger_files trigger write_request write_file_atomic is_semver version_of split_on part
    new_updater ◌+s◌ ◌==◌
triggered_test = (refl, refl)

checked_test :
    (check_registry sidecar default_base_url noon noon shared started).1.update_available ≡ true
unfolding check_registry check is_cached latest_semver fetch_pull_token fetch_tags tag_pages
    fetch_tags_page first_page next_link first_next next_of split_on link_target cut_prefix cut_last
    is_next remove_all trim_space trim_left trim_right is_space resolve trim_right_of trim_left_of
    ◌+s◌ ◌==◌ info_of info read_status newer version_of part compare_semver compare_part lt_ℤ
    new_updater max_semver best is_semver is_zero eq_ℤ
checked_test = refl
