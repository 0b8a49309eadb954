-- ===== src/Plant/Jobs.antt =====
-- crates/plant/src/jobs.rs: the job files of a host, their cadence, and what their ledgers say. Directory
-- listings, file contents and the parser of serde_json are arguments.
pub mod Admission
pub mod Fence
pub mod Buckets
use vaultr.Prelude.{
  ℕ, ◌+◌, ◌-◌, ◌*◌, ◌%◌, ◌==◌, ltb, leb, Bool, true, false, not, ◌&&◌, ◌||◌, Option, none, some,
  List, [], ◌∷◌, ◌++◌, all, filter, find, is_empty, length, map, if◌then◌else◌,
}
use mathlib.Core.List.{reverse}
use vaultr.Text.{Text, chars, text_eq, bytes, trim, rsplit_once, parse_u64, u64_limit, lines}
use vaultr.Json.{Value, as_str, as_u64, and_then, get, is_text, str_at}
use vaultr.Recon.Output.{Parse, filter_map}

pub data JobAction : Type 0 where
  script in_process_compression : JobAction

-- `every` is in seconds.
pub record Job : Type 0 where
  pub name : Text
  pub path : Text
  pub every : ℕ
  pub action : JobAction

unfoldable pub action_for : Text → JobAction
action_for name = if text_eq name (chars "compress") then in_process_compression else script

-- All but the last character, and that one.
abbrev pub moved : ℕ → Option (Text × ℕ) → Option (Text × ℕ)
moved c none = some ([], c)
moved c (some (s, unit)) = some (c ∷ s, unit)

unfoldable pub split_last : Text → Option (Text × ℕ)
split_last [] = none
split_last (c ∷ s) = moved c (split_last s)

unfoldable pub seconds_of : ℕ → Option ℕ
seconds_of unit =
    if unit == b's'
    then some 1
    else if unit == b'm'
    then some 60
    else if unit == b'h'
    then some 3600
    else if unit == b'd'
    then some 86400
    else none

abbrev pub scaled : Option ℕ → Option ℕ → Option ℕ
scaled (some n) (some k) = some (n * k % u64_limit)
scaled _ _ = none

abbrev with_unit : Option (Text × ℕ) → Option ℕ
with_unit none = none
with_unit (some (num, unit)) = scaled (parse_u64 num) (seconds_of unit)

-- The product wraps, as in a release build.
unfoldable pub parse_duration : Text → Option ℕ
unfolding split_last seconds_of
parse_duration s =
    let t = trim s in
    if ltb (length (bytes t)) 2 || not (all (λ c. ltb c 128) t)
    then none
    else with_unit (split_last t)

abbrev named : Text → Option ℕ → Option (Text × ℕ)
named name none = none
named name (some every) = some (name, every)

abbrev of_stem : Option (Text × Text) → Option (Text × ℕ)
of_stem none = none
of_stem (some (name, interval)) =
    if is_empty name then none else named name (parse_duration interval)

abbrev of_file : Option (Text × Text) → Option (Text × ℕ)
of_file none = none
of_file (some (stem, ext)) = if is_empty ext then none else of_stem (rsplit_once b'.' stem)

unfoldable pub parse_job_filename : Text → Option (Text × ℕ)
unfolding parse_duration
parse_job_filename file_name = of_file (rsplit_once b'.' file_name)

abbrev job_at : Text → Option (Text × ℕ) → Option Job
job_at path none = none
job_at path (some (name, every)) =
    some (record { name = name; path = path; every = every; action = action_for name })

-- A directory's entries: a path, with the name of the file where it is text.
abbrev pub Listing : Type 0
Listing = Option (List (Text × Option Text))

abbrev of_entry : Text × Option Text → Option Job
of_entry (path, none) = none
of_entry (path, some file_name) = job_at path (parse_job_filename file_name)

unfoldable pub jobs_in : Listing → List Job
unfolding parse_job_filename action_for
jobs_in none = []
jobs_in (some found) = filter_map of_entry found

-- The first job of this name is replaced; without one, the job is added.
unfoldable pub overlay_one : List Job → Job → List Job
overlay_one [] job = job ∷ []
overlay_one (existing ∷ jobs) job =
    let rest = overlay_one jobs job in
    if text_eq existing.name job.name then job ∷ jobs else existing ∷ rest

unfoldable pub overlay : List Job → List Job → List Job
overlay jobs [] = jobs
overlay jobs (job ∷ specific) = overlay (overlay_one jobs job) specific

-- str::cmp
unfoldable pub text_less : Text → Text → Bool
text_less s [] = false
text_less [] (d ∷ t) = true
text_less (c ∷ s) (d ∷ t) = ltb c d || (c == d && text_less s t)

-- sort_by on the names, which is stable.
unfoldable pub insert_by_name : Job → List Job → List Job
insert_by_name job [] = job ∷ []
insert_by_name job (other ∷ jobs) =
    let rest = insert_by_name job jobs in
    if text_less other.name job.name then other ∷ rest else job ∷ other ∷ jobs

unfoldable pub sort_by_name : List Job → List Job
sort_by_name [] = []
sort_by_name (job ∷ jobs) = insert_by_name job (sort_by_name jobs)

unfoldable pub load_jobs_at : Listing → Listing → List Job
load_jobs_at shared host = sort_by_name (overlay (jobs_in shared) (jobs_in host))

-- read_to_string
pub data Contents : Type 0 where
  contents : Text → Contents
  not_found unreadable : Contents

abbrev is_filled : Text → Bool
is_filled line = not (is_empty (trim line))

-- The time of a record, none where it has none.
abbrev pub ts_of : Value → Option (Option ℕ)
ts_of r = and_then (λ ts. some (some ts)) (and_then as_u64 (get (chars "ts") r))

module _ (from_str : Parse) where
  abbrev last_ts : Option Text → Option (Option ℕ)
  last_ts none = some none
  last_ts (some line) = and_then ts_of (from_str line)

  -- The outer option is none for an error.
  unfoldable pub last_record_ts_at : Contents → Option (Option ℕ)
  last_record_ts_at not_found = some none
  last_record_ts_at unreadable = none
  last_record_ts_at (contents text) = last_ts (find is_filled (reverse (lines text)))

  abbrev success_ts : Value → Option (Option ℕ) → Option (Option ℕ)
  success_ts r older =
      if is_text (chars "success") (str_at (chars "outcome") r) then ts_of r else older

  -- From the last line on.
  unfoldable pub newest_success : List Text → Option (Option ℕ)
  newest_success [] = some none
  newest_success (line ∷ older) =
      let rest = newest_success older in and_then (λ r. success_ts r rest) (from_str line)

  unfoldable pub last_success_ts_at : Contents → Option (Option ℕ)
  unfolding newest_success
  last_success_ts_at not_found = some none
  last_success_ts_at unreadable = none
  last_success_ts_at (contents text) = newest_success (filter is_filled (reverse (lines text)))

unfoldable pub record_is_due : Option ℕ → ℕ → ℕ → Bool
record_is_due none every now = true
record_is_due (some ts) every now = leb every (now - ts)
