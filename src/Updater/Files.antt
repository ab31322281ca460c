-- ===== src/Updater/Files.antt =====
-- updater.go: the files shared with the sidecar, readStatus and writeFileAtomic. A file system is
-- a map from paths to contents; which of its calls fail is a parameter.
pub mod Atomic
use wallbox_homeautomation_g.Base.{
  Bool, List, Option, String, [], false, if◌then◌else◌, none, not, some, true, ◌==◌, ◌∷◌,
}
use wallbox_homeautomation_g.Config.{Update}
use wallbox_homeautomation_g.Go.Strings.{◌+s◌}
use wallbox_homeautomation_g.Updater.{Status, UpdateRequest}

abbrev pub Files : Type 0
Files = String → Option String

abbrev pub write : String → Option String → Files → Files
write path content files p = if p == path then content else files p

-- What the system makes of the calls of one run: the name of the temporary file, whether each call
-- succeeds, and what a failing write leaves in the file.
pub record Calls : Type 0 where
  pub makes_dir : Bool
  pub creates : Bool
  pub temp : String
  pub writes : Bool
  pub partial : String
  pub closes : Bool
  pub renames : Bool
  pub removes : Bool

-- the files after the calls of a run, the last first, and whether it returned without an error
pub record Run : Type 0 where
  pub files : Files
  pub earlier : List Files
  pub done : Bool

-- `os.Remove` of the temporary file, and the error
unfoldable pub give_up : Calls → Files → List Files → Run
give_up calls files earlier = record {
  files = if calls.removes then write calls.temp none files else files;
  earlier = files ∷ earlier;
  done = false;
}

unfoldable pub write_file_atomic : Calls → String → String → Files → Run
unfolding give_up
write_file_atomic calls path content files =
    let created = write calls.temp (some "") files in
    let short = write calls.temp (some calls.partial) created in
    let written = write calls.temp (some content) created in
    if not calls.creates
    then record { files = files; earlier = []; done = false }
    else if not calls.writes
    then give_up calls short (created ∷ files ∷ [])
    else if not calls.closes
    then give_up calls written (created ∷ files ∷ [])
    else if not calls.renames
    then give_up calls written (created ∷ files ∷ [])
    else record {
      files = write path (some content) (write calls.temp none written);
      earlier = written ∷ created ∷ files ∷ [];
      done = true;
    }

-- `filepath.Join` of a clean directory and a file name
abbrev pub join : String → String → String
join dir file = dir +s "/" +s file

abbrev pub request_file : String
request_file = "request.json"

abbrev pub status_file : String
status_file = "status.json"

-- `decode` is the decoding of JSON: `none` is an error.
unfoldable pub read_status : (String → Option Status) → Update → Files → Option Status
read_status decode cfg files =
    if cfg.request_dir == ""
    then none
    else elim (files (join cfg.request_dir status_file)) [ none ↦ none | some body ↦ decode body ]

-- The part of `Trigger` after its guards: the directory, the body and the file.
unfoldable pub write_request :
    (UpdateRequest → Option String) → Calls → Update → UpdateRequest → Files → Run
write_request encode calls cfg q files =
    let failed : Run = record { files = files; earlier = []; done = false } in
    if not calls.makes_dir then failed else elim (encode q) [
      | none ↦ failed
      | some body ↦ write_file_atomic calls (join cfg.request_dir request_file) body files
    ]
