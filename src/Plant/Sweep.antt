-- ===== src/Plant/Sweep.antt =====
-- crates/plant/src/sweep.rs: the generations of a session, and whether a learner may take it.
-- What the file system says of a generation is in its record, none where a call fails; the outer option of
-- a result is none for an error. The walk of the session directories is an argument.
pub mod Batches
pub mod Claims
use vaultr.Prelude.{
  ℕ, ◌+◌, ◌==◌, ltb, leb, Bool, true, false, not, ◌&&◌, ◌||◌, Option, none, some, List, [], ◌∷◌,
  ◌++◌, filter, find, is_empty, length, map, take, if◌then◌else◌,
}
use mathlib.Core.List.{reverse}
use vaultr.Prelude.Map
use vaultr.Text.{Text, chars, text_eq, text_key, lines, trim, trim_end, is_whitespace, u64_limit}
use vaultr.Json.{Value, as_array, as_u64, and_then, get, is_text, pointer, str_at, satisfies}
use vaultr.Recon.Delta.{is_one_of, is_some, first_of}
use vaultr.Recon.Output.{Parse}

pub data GenerationKind : Type 0 where
  raw sealed detached : GenerationKind

-- Seconds from the epoch to the last modification, and from that to now, where they are not negative.
pub record Times : Type 0 where
  pub since_epoch : Option ℕ
  pub age : Option ℕ

-- `records` has a truth value for each line of the transcript: whether it can be read.
pub record File : Type 0 where
  pub path : Text
  pub directory : Option Text
  pub times : Option Times
  pub size : Option ℕ
  pub text : Option Text
  pub records : Option (List Bool)
  pub state_json : Option Text

pub record CaptureGenerations : Type 0 where
  pub sealed_file : Option File
  pub detached_file : Option File
  pub raw_file : Option File

-- The selected file stands beside its kind.
pub record SessionGeneration : Type 0 where
  pub sid : Text
  pub inventory : CaptureGenerations
  pub selected : GenerationKind
  pub file : File

abbrev pub generation : Text → CaptureGenerations → GenerationKind → File → SessionGeneration
generation sid inventory kind file = record {
  sid = sid;
  inventory = inventory;
  selected = kind;
  file = file;
}

abbrev choose_current :
    Text → CaptureGenerations → Option File → Option File → Option File → Option SessionGeneration
choose_current sid i (some file) _ _ = some (generation sid i raw file)
choose_current sid i none (some file) _ = some (generation sid i sealed file)
choose_current sid i none none (some file) = some (generation sid i detached file)
choose_current sid i none none none = none

unfoldable pub current : Text → CaptureGenerations → Option SessionGeneration
current sid i = choose_current sid i i.raw_file i.sealed_file i.detached_file

abbrev choose_pending :
    Text → CaptureGenerations → Option File → Option File → Option SessionGeneration
choose_pending sid i (some file) _ = some (generation sid i detached file)
choose_pending sid i none (some file) = some (generation sid i raw file)
choose_pending sid i none none = none

unfoldable pub pending_seal : Text → CaptureGenerations → Option SessionGeneration
pending_seal sid i = choose_pending sid i i.detached_file i.raw_file

abbrev pub is_raw : GenerationKind → Bool
is_raw raw = true
is_raw _ = false

abbrev is_detached : GenerationKind → Bool
is_detached detached = true
is_detached _ = false

abbrev behind : ℕ → Option ℕ → Bool
behind timestamp none = true
behind timestamp (some boundary) = ltb boundary timestamp

abbrev since_previous : ℕ → Option File → Option Bool
since_previous timestamp none = some true
since_previous timestamp (some previous) =
    and_then (λ times. some (behind timestamp times.since_epoch)) previous.times

abbrev learned_at : SessionGeneration → Option ℕ → Option Bool
learned_at g none = some false
learned_at g (some timestamp) =
    if is_raw g.selected
    then since_previous timestamp (first_of_files g.inventory.detached_file g.inventory.sealed_file)
    else some true
  where
    first_of_files : Option File → Option File → Option File
    first_of_files none o = o
    first_of_files (some f) o = some f

-- `latest` has the time of the last pass of each session.
unfoldable pub learned_current : List (Text × ℕ) → SessionGeneration → Option Bool
learned_current latest g = learned_at g (Map.get g.sid latest)

unfoldable pub idle_secs : SessionGeneration → Option (Option ℕ)
idle_secs g = and_then (λ times. some times.age) g.file.times

unfoldable pub idle_for : ℕ → SessionGeneration → Option Bool
idle_for idle g =
    if is_raw g.selected
    then and_then (λ age. some (satisfies (λ seconds. leb idle seconds) age)) (idle_secs g)
    else some true

unfoldable pub substantive : SessionGeneration → Option Bool
substantive g =
    if is_raw g.selected
    then and_then
        (λ size.
          if ltb 20480 size
          then some true
          else and_then (λ t. some (ltb 5 (length (lines (trim_end is_whitespace t))))) g.file.text)
        g.file.size
    else some true

abbrev first_item : List Value → Option Value
first_item [] = none
first_item (v ∷ vs) = some v

abbrev quota_content : Value → Option Text
quota_content state = and_then (str_at (chars "content")) (
    and_then first_item
      (and_then as_array (pointer (chars "request_body" ∷ chars "messages" ∷ []) state)))

unfoldable pub is_quota_probe_candidate : Parse → SessionGeneration → Bool
is_quota_probe_candidate from_str g =
    is_some g.file.directory
    && satisfies
        (λ state.
          satisfies (λ n. n == 1)
            (and_then as_u64 (pointer (chars "request_body" ∷ chars "max_tokens" ∷ []) state))
          && is_text (chars "quota") (quota_content state))
        (and_then from_str g.file.state_json)

unfoldable pub exactly_one_envelope : List Bool → Option Bool
exactly_one_envelope [] = some false
exactly_one_envelope (false ∷ more) = none
exactly_one_envelope (true ∷ []) = some true
exactly_one_envelope (true ∷ true ∷ more) = some false
exactly_one_envelope (true ∷ false ∷ more) = none

unfoldable pub is_standalone_quota_probe : Parse → SessionGeneration → Option Bool
is_standalone_quota_probe from_str g =
    if is_quota_probe_candidate from_str g
    then and_then exactly_one_envelope g.file.records
    else some false

unfoldable pub ready_to_seal : ℕ → SessionGeneration → Option Bool
ready_to_seal idle g = if is_detached g.selected then some true else idle_for idle g

unfoldable pub job_sids_at : Option Text → List Text
job_sids_at none = []
job_sids_at (some text) = filter (λ line. not (is_empty line)) (map trim (lines text))
