-- ===== src/Updater/Examples.antt =====
-- Concrete inputs for the runs of updater.go.
use wallbox_homeautomation_g.Base.{
  ==_of_≡, Bool-absurd, String, [], false, if◌then◌else◌, none, refl, some, true, ◌==◌, ◌∷◌, ◌≡◌,
  ◌≢◌,
}
use wallbox_homeautomation_g.Base.Int.{pos}
use wallbox_homeautomation_g.Config.{Update}
use wallbox_homeautomation_g.Go.Float.{whole}
use wallbox_homeautomation_g.Go.Strings.{◌+s◌}
use wallbox_homeautomation_g.Go.Time.{Time, hour}
use wallbox_homeautomation_g.Updater.{Updater, new_updater}
use wallbox_homeautomation_g.Updater.Files.{Calls, Files}
use wallbox_homeautomation_g.Updater.Registry.{Http}
use wallbox_homeautomation_g.Updater.Whole.{Sidecar, request_path}

abbrev pub settings : Update
settings = record {
  enabled = true;
  repository = "joessst-dev/wha";
  request_dir = "/run/update";
  check_ttl = pos hour;
}

abbrev pub started : Updater
started = new_updater settings "1.9.3"

abbrev pub noon : Time
noon = pos 1_000_000_000_000

abbrev pub informed : Updater
informed = record started { latest = "1.10.0"; checked = noon }

-- A registry whose tags stand on two pages.
abbrev pub second_page : String
second_page = "https://ghcr.io/v2/joessst-dev/wha/tags/list?last=1.9.3"

abbrev pub ghcr : Http
ghcr = record {
  get = λ url authorization.
      if url == "https://ghcr.io/v2/joessst-dev/wha/tags/list"
      then some (record {
        status = 200;
        body = "first";
        link = "</v2/joessst-dev/wha/tags/list?last=1.9.3>; rel=\"next\"";
      })
      else some (record { status = 200; body = "second"; link = "" });
  decode_token = λ body. some "anonymous";
  decode_tags =
      λ body. if body == "first" then some ("1.9.3" ∷ "latest" ∷ []) else some ("1.10.0" ∷ []);
}

-- A request directory with an old request in it.
abbrev pub shared : Files
shared = λ p. if p == "/run/update/request.json" then some "old" else none

abbrev pub full_disk : Calls
full_disk = record {
  makes_dir = true;
  creates = true;
  temp = "/run/update/.tmp-1";
  writes = false;
  partial = "half";
  closes = true;
  renames = true;
  removes = true;
}

abbrev pub sound_disk : Calls
sound_disk = record full_disk { writes = true }

pub apart : let old : String = "/run/update/request.json" in old ≢ "/run/update/.tmp-1"
unfolding ◌==◌
apart e = Bool-absurd (==_of_≡ "/run/update/request.json" "/run/update/.tmp-1" e) refl

pub no_temp : shared "/run/update/.tmp-1" ≡ none
unfolding ◌==◌
no_temp = refl

abbrev pub sidecar : Sidecar
sidecar = record {
  http = ghcr;
  decode_status = λ body. none;
  encode_request = λ q. some q.target_version;
}

pub request_apart : request_path informed ≢ "/run/update/.tmp-1"
unfolding ◌+s◌ new_updater
request_apart = apart
