-- ===== src/Transcript.antt =====
-- crates/vaultr/src/normalize.rs: the transcript model that does not depend on the harness, from the
-- messages that a reconstruction gives. serde_json's parser and printer are parameters.
pub mod Tools
pub mod Translate
pub mod Reminders
use vaultr.Prelude.{
  ℕ, Bool, true, false, not, ◌&&◌, ◌||◌, Option, none, some, List, [], ◌∷◌, ◌++◌, is_empty, length,
  map, if◌then◌else◌,
}
use vaultr.Prelude.Map
use vaultr.Text.{Text, chars, text_eq, text_key, trim, strip_prefix, join}
use vaultr.Json.{
  Value, Entries, null, string, boolean, number, array, object, items, entries, as_object, as_str,
  and_then, get, str_at,
}
use vaultr.Recon.Delta.{or_else, is_one_of, first_of}
use vaultr.Recon.Output.{Parse, push_some, filter_map}

pub data Role : Type 0 where
  user assistant : Role

pub data Block : Type 0 where
  text : Text → Block
  image : Block
  tool_use : (name : Text) → (input : Value) → (correlation_id : Option Text) → Block
  tool_result : (content : Text) → (correlation_id : Option Text) → Block

pub record Message : Type 0 where
  pub role : Role
  pub blocks : List Block

-- str::find, with the text before the first occurrence and the text behind it.
abbrev pub before_char : ℕ → Option (Text × Text) → Option (Text × Text)
before_char c none = none
before_char c (some (a, b)) = some (c ∷ a, b)

abbrev pub found_or : Option Text → Option (Text × Text) → Option (Text × Text)
found_or (some rest) later = some ([], rest)
found_or none later = later

unfoldable pub split_at : Text → Text → Option (Text × Text)
split_at pattern [] = found_or (strip_prefix pattern []) none
split_at pattern (c ∷ s) =
    found_or (strip_prefix pattern (c ∷ s)) (before_char c (split_at pattern s))

abbrev pub reminder_open : Text
reminder_open = chars "<system-reminder>"

abbrev pub reminder_close : Text
reminder_close = chars "</system-reminder>"

-- What is kept of a text, and the loop goes on behind the span; without an end, the tail is dropped.
abbrev pub behind_span : Text → Option (Text × Text) → (Text → Text) → Text
behind_span kept none continue = kept
behind_span kept (some (span, behind)) continue = kept ++ continue behind

abbrev pub from_span : Text → Option (Text × Text) → (Text → Text) → Text
from_span rest none continue = rest
from_span rest (some (kept, span)) continue =
    behind_span kept (split_at reminder_close (reminder_open ++ span)) continue

-- The loop over the spans. Each round is on a shorter text, so the length of the text is enough fuel.
unfoldable pub strip_spans : ℕ → Text → Text
strip_spans ℕ.zero rest = rest
strip_spans (ℕ.suc fuel) rest = from_span rest (split_at reminder_open rest) (strip_spans fuel)

unfoldable pub strip_system_reminders : Text → Text
strip_system_reminders s = strip_spans (length s) s

abbrev pub cleaned : Role → Text → Text
cleaned user s = strip_system_reminders s
cleaned assistant s = s

abbrev pub text_block : Text → List Block
text_block s = if is_empty s then [] else text s ∷ []

-- The block that push_text pushes, if any.
unfoldable pub push_text : Role → Text → List Block
push_text role s = text_block (trim (cleaned role s))

module _ (from_str : Parse) (to_string : Value → Text) where
  abbrev part_text : Value → Option Text
  part_text (string s) = some s
  part_text (object fs) = and_then as_str (Map.get (chars "text") (entries fs))
  part_text _ = none

  unfoldable pub text_of : Value → Text
  text_of (string s) = s
  text_of (array vs) = join 10 (filter_map part_text (items vs))
  text_of null = []
  text_of (boolean b) = to_string (boolean b)
  text_of (number n) = to_string (number n)
  text_of (object fs) = to_string (object fs)

  abbrev typed_block : Role → Value → Text → List Block
  typed_block role b kind =
      if is_one_of (chars "text" ∷ chars "input_text" ∷ chars "output_text" ∷ []) kind
      then pushed (str_at (chars "text") b)
      else if is_one_of (chars "image" ∷ chars "input_image" ∷ []) kind
      then image ∷ []
      else if text_eq kind (chars "tool_use")
      then tool_use (or_else (chars "tool") (str_at (chars "name") b))
          (or_else null (get (chars "input") b)) (str_at (chars "id") b)
        ∷ []
      else if text_eq kind (chars "tool_result")
      then tool_result (text_of (or_else null (get (chars "content") b)))
          (str_at (chars "tool_use_id") b)
        ∷ []
      else []
    where
      pushed : Option Text → List Block
      pushed none = []
      pushed (some t) = push_text role t

  abbrev if_typed : Role → Value → Option Text → List Block
  if_typed role b none = []
  if_typed role b (some kind) = typed_block role b kind

  -- The blocks of one part of a content array.
  unfoldable pub part_blocks : Role → Value → List Block
  unfolding push_text text_of
  part_blocks role (string s) = push_text role s
  part_blocks role b = if_typed role b (str_at (chars "type") b)

  unfoldable pub all_blocks : Role → List Value → List Block
  all_blocks role [] = []
  all_blocks role (b ∷ bs) = part_blocks role b ++ all_blocks role bs

  unfoldable pub content_blocks : Role → Value → List Block
  content_blocks role (string s) = push_text role s
  content_blocks role (array vs) = all_blocks role (items vs)
  content_blocks role _ = []

  abbrev call_input : Option Value → Value
  call_input none = null
  call_input (some (string s)) = or_else (string s) (from_str s)
  call_input (some v) = v

  abbrev one_block : Role → Block → Option Message
  one_block role block = some (record { role = role; blocks = block ∷ [] })

  abbrev call_message : Entries → Text → Option Message
  call_message fields item_type = one_block assistant (
      tool_use (or_else item_type (and_then as_str (Map.get (chars "name") fields)))
        (call_input
          (first_of (Map.get (chars "arguments") fields) (Map.get (chars "input") fields)))
        (and_then as_str (Map.get (chars "call_id") fields)))

  abbrev output_message : Entries → Option Message
  output_message fields = one_block user (
      tool_result (text_of (or_else null (Map.get (chars "output") fields)))
        (and_then as_str (Map.get (chars "call_id") fields)))

  abbrev role_of : Option Text → Option Role
  role_of none = none
  role_of (some r) =
      if text_eq r (chars "user")
      then some user
      else if text_eq r (chars "assistant")
      then some assistant
      else none

  -- An item with a role.
  abbrev role_message : Entries → Option Message
  role_message fields =
      and_then
        (λ role.
          and_then (λ content. some (record { role = role; blocks = content_blocks role content }))
            (Map.get (chars "content") fields))
        (role_of (and_then as_str (Map.get (chars "role") fields)))

  abbrev typed_message : Entries → Option Text → Option Message
  typed_message fields none = role_message fields
  typed_message fields (some t) =
      if is_one_of
        (chars "function_call" ∷ chars "custom_tool_call" ∷ chars "local_shell_call" ∷ []) t
      then call_message fields t
      else if is_one_of (chars "function_call_output" ∷ chars "custom_tool_call_output" ∷ []) t
      then output_message fields
      else if text_eq t (chars "message")
      then role_message fields
      else none

  unfoldable pub normalize_one : Value → Option Message
  unfolding content_blocks
  normalize_one m =
      and_then (λ fields. typed_message fields (and_then as_str (Map.get (chars "type") fields)))
        (as_object m)

  abbrev pub kept_message : Option Message → List Message
  kept_message none = []
  kept_message (some m) = if is_empty m.blocks then [] else m ∷ []

  unfoldable pub normalize : List Value → List Message
  normalize [] = []
  normalize (m ∷ ms) = kept_message (normalize_one m) ++ normalize ms
