-- ===== src/Broker/Http.antt =====
-- The requests and responses of crates/broker/src/main.rs: headers, and the spooling of a body.
pub mod Spool
use vaultr.Prelude.{
  ℕ, ◌+◌, ◌%◌, Bool, true, false, not, ◌&&◌, Option, none, some, List, [], ◌∷◌, ◌++◌, map, ltb,
  length, is_empty, if◌then◌else◌,
}
use vaultr.Text.{Text, chars, text_eq, trim, split_once, to_ascii_lowercase, parse_u64, u64_limit}
use vaultr.Broker.Result.{
  Reason, Result, ok, err, subject_not_utf8, subject_empty, spool_not_created, body_unreadable,
  body_too_large, spool_not_written,
}
use vaultr.Broker.Metrics.{Outcome}

-- hyper::Method: only these two are told apart.
pub data Method : Type 0 where
  get put other : Method

abbrev pub is_get : Method → Bool
is_get get = true
is_get _ = false

-- A frame of the body, as hyper hands it on: data, trailers, or an error.
pub data Frame : Type 0 where
  chunk : List ℕ → Frame
  trailers : Frame
  broken : Frame

-- A header is absent, or has a value, which `to_str` may refuse.
abbrev pub Header : Type 0
Header = Option (Option Text)

-- The spool file: whether it can be created, whether the write that reaches a size succeeds, and
-- whether the flush does.
pub record Disk : Type 0 where
  pub create : Bool
  pub write_all : ℕ → Bool
  pub flush : Bool

pub record Request : Type 0 where
  pub method : Method
  pub path : Text
  pub gateway : Header
  pub authorization : Header
  pub length_header : Header
  pub body : List Frame
  pub disk : Disk
  -- the fresh name `seal-<uuid>.upload`
  -- body.to_str() of the spool's path
  pub spool_path : Option Text

pub data Content : Type 0 where
  -- text/plain and text/tab-separated-values
  plain : Text → Content
  table : Text → Content
  -- {"error": …}
  failure : Reason → Content
  -- {"outcome": …, "key": …, "size": …}
  stored : Outcome → Text → ℕ → Content
  -- an empty body with a Location header, not to be stored by caches
  located : Text → Content

pub record Response : Type 0 where
  pub status : ℕ
  pub content : Content

-- `error`
abbrev pub error : ℕ → Reason → Response
error status reason = record { status = status; content = failure reason }

abbrev pub subject_of : Text → Result (Option Text)
subject_of subject = if is_empty subject then err subject_empty else ok (some subject)

unfoldable pub gateway_subject : Header → Result (Option Text)
gateway_subject none = ok none
gateway_subject (some none) = err subject_not_utf8
gateway_subject (some (some value)) = subject_of (trim value)

-- str::eq_ignore_ascii_case
abbrev pub eq_ignore_ascii_case : Text → Text → Bool
eq_ignore_ascii_case s t = text_eq (map to_ascii_lowercase s) (map to_ascii_lowercase t)

abbrev pub token_of : Option (Text × Text) → Option Text
token_of none = none
token_of (some (scheme, token)) =
    if eq_ignore_ascii_case scheme (chars "bearer") && not (is_empty (trim token))
    then some (trim token)
    else none

unfoldable pub bearer_token : Header → Option Text
bearer_token none = none
bearer_token (some none) = none
bearer_token (some (some value)) = token_of (split_once 32 value)

unfoldable pub content_length : Header → Option ℕ
content_length none = none
content_length (some none) = none
content_length (some (some value)) = parse_u64 value

-- The loop of `spool_body`: the size so far and what the file holds.
unfoldable pub spool_frames : Disk → ℕ → ℕ → List ℕ → List Frame → Result ℕ × List ℕ
spool_frames disk limit size file [] = (if disk.flush then ok size else err spool_not_written, file)
spool_frames disk limit size file (broken ∷ frames) = (err body_unreadable, file)
spool_frames disk limit size file (trailers ∷ frames) = spool_frames disk limit size file frames
spool_frames disk limit size file (chunk c ∷ frames) =
    let size' = (size + length c) % u64_limit in
    let rest = spool_frames disk limit size' (file ++ c) frames in
    if ltb limit size'
    then (err body_too_large, file)
    else if disk.write_all size'
    then rest
    else (err spool_not_written, file)

unfoldable pub spool_body : Disk → ℕ → List Frame → Result ℕ × List ℕ
unfolding spool_frames
spool_body disk limit frames =
    if disk.create then spool_frames disk limit 0 [] frames else (err spool_not_created, [])
