-- ===== src/Web/Updates/Tests.antt =====
-- Runs of the update handlers.
use wallbox_homeautomation_g.Base.{
  String, [], arith, false, inl, none, refl, some, true, ℕ, ◌+◌, ◌==◌, ◌∷◌, ◌≡◌,
}
use wallbox_homeautomation_g.Base.Int.{eq_ℤ, lt_ℤ, pos, ℤ, ◌+ℤ◌, ◌-ℤ◌}
use wallbox_homeautomation_g.Controller.Memory.{memory}
use wallbox_homeautomation_g.Go.Float.{whole}
use wallbox_homeautomation_g.Go.Result.{ok}
use wallbox_homeautomation_g.Go.Strings.{is_space, trim_left, trim_right, trim_space, ◌+s◌}
use wallbox_homeautomation_g.Go.Strings.Parts.{
  cut_last, cut_prefix, remove_all, split_on, trim_left_of, trim_right_of,
}
use wallbox_homeautomation_g.Go.Time.{is_zero, minute, saturate, since}
use wallbox_homeautomation_g.Updater.{Updater, info, is_cached, new_updater, trigger}
use wallbox_homeautomation_g.Updater.Examples.{
  ghcr, informed, no_temp, noon, request_apart, shared, sidecar, sound_disk, started,
}
use wallbox_homeautomation_g.Updater.Files.{write_file_atomic, write_request}
use wallbox_homeautomation_g.Updater.Registry.{
  Http, fetch_pull_token, fetch_tags, fetch_tags_page, first_next, first_page, is_next,
  latest_semver, link_target, next_link, next_of, resolve, tag_pages,
}
use wallbox_homeautomation_g.Updater.Version.{
  best, compare_part, compare_semver, is_semver, max_semver, newer, part, version_of,
}
use wallbox_homeautomation_g.Updater.Whole.{default_base_url, info_of, trigger_files}
use wallbox_homeautomation_g.Web.Reply.{Context, error_handler, status_of}
use wallbox_homeautomation_g.Web.Updates.{handle_update_apply, handle_update_check}
use wallbox_homeautomation_g.Web.Updates.Apply.{Applies, handle_update_apply-Applies}
use wallbox_homeautomation_g.Web.Updates.Cached.{
  Asked, check_all, handle_update_check-kept, with_http,
}

abbrev clicked : Context
clicked = record { now = noon; cookie = "de"; accept_language = ""; is_htmx = true }

handle_update_apply-Applies_example :
    let t =
      handle_update_apply {W = ℤ} clicked sidecar sound_disk noon informed shared (some "1.10.0") in
    Applies ℤ clicked sidecar sound_disk noon informed shared "1.10.0" "/run/update/request.json"
      t.0 t.1
handle_update_apply-Applies_example =
    handle_update_apply-Applies ℤ clicked sidecar sound_disk noon informed shared "1.10.0"
      "/run/update/request.json" request_apart no_temp (inl refl)

-- A minute after a check, and again two minutes after it, the registry is out of reach.
abbrev unreachable : Http
unreachable = record ghcr { get = λ url authorization. none }

abbrev asked_after : ℕ → Asked
asked_after d = record {
  context = clicked;
  at = noon +ℤ pos d;
  done = noon +ℤ pos d;
  http = unreachable;
  files = shared;
}

read_test : latest_semver ghcr default_base_url "joessst-dev/wha" ≡ ok "1.10.0"
unfolding latest_semver fetch_pull_token fetch_tags tag_pages fetch_tags_page first_page next_link
    first_next next_of split_on link_target cut_prefix cut_last is_next remove_all trim_space
    trim_left trim_right is_space resolve trim_right_of trim_left_of ◌+s◌ ◌==◌ newer version_of part
    compare_semver compare_part lt_ℤ max_semver best is_semver
read_test = refl

due : is_cached noon started ≡ false
unfolding is_cached new_updater is_zero eq_ℤ
due = refl

elapsed : since (noon +ℤ pos minute) noon ≡ pos minute
unfolding since ◌+ℤ◌ ◌-ℤ◌ saturate
elapsed = refl

elapsed_twice : since (noon +ℤ pos (minute + minute)) noon ≡ pos (minute + minute)
unfolding since ◌+ℤ◌ ◌-ℤ◌ saturate
elapsed_twice = refl

noon_is_set : is_zero noon ≡ false
unfolding is_zero eq_ℤ
noon_is_set = refl

handle_update_check-kept_example :
    let ask = λ (http : Http) (u : Updater).
      handle_update_check {W = ℤ} clicked
        (with_http http sidecar)
        default_base_url
        (noon +ℤ pos (minute + minute))
        (noon +ℤ pos (minute + minute))
        shared
        u in
    let u' =
      (handle_update_check {W = ℤ} clicked sidecar default_base_url noon noon shared started).0 in
    let v = check_all ℤ sidecar default_base_url (asked_after minute ∷ []) u' in
    (u' ≡ record started { latest = "1.10.0"; checked = noon })
    × (v ≡ u')
    × (ask unreachable v ≡ ask ghcr v)
    × ((ask unreachable v).0 ≡ u')
unfolding new_updater
handle_update_check-kept_example =
    handle_update_check-kept ℤ sidecar default_base_url clicked noon noon "1.10.0" shared started
      (asked_after minute ∷ []) (asked_after (minute + minute)) ghcr read_test due noon_is_set
      (omega arith) (rw elapsed (omega arith), tt) (rw elapsed_twice (omega arith))

-- The request is accepted, and another version is not.
apply_test :
    let at : String = "/run/update/request.json" in
    ((handle_update_apply {W = ℤ} clicked sidecar sound_disk noon informed shared (some "1.10.0")).0
        at
      ≡ some "1.10.0")
    × (status_of
          (handle_update_apply {W = ℤ} clicked sidecar sound_disk noon informed shared
            (some "1.9.3")).1
        ≡ 400)
unfolding handle_update_apply info_of info new_updater trigger_files trigger write_request
    write_file_atomic is_semver version_of split_on part status_of error_handler ◌+s◌ ◌==◌
apply_test = (refl, refl)
