-- ===== src/Plant/Adapter.antt =====
-- crates/plant/src/adapter.rs: what differs between the harnesses. serde_json::from_str and the type
-- f64 are parameters; the environment's variables are not read.
use vaultr.Prelude.{
  ℕ, suc, ◌-◌, ◌==◌, Bool, true, false, not, ◌&&◌, ◌||◌, Option, none, some, List, [], ◌∷◌, any,
  find, length, is_empty, between, if◌then◌else◌,
}
use mathlib.Core.List.{reverse}
use vaultr.Prelude.Map
use vaultr.Text.{
  Text, chars, text_eq, text_key, to_ascii_lowercase, is_ascii_digit, bytes, strip_prefix, trim_end,
  split,
}
use vaultr.Json.{
  Value, Number, null, number, string, object, object_of, and_then, as_str, get, pointer, str_at,
  has_type,
}
use vaultr.Recon.Delta.{or_else}
use vaultr.Recon.Output.{Parse}

-- crate::domain::Harness
pub data Harness : Type 0 where
  claude_code codex : Harness

pub record Identity : Type 0 where
  pub session_id : Option Text
  pub thread_id : Option Text
  pub turn_id : Option Text

pub record TokenUsage : Type 0 where
  pub input : ℕ
  pub output : ℕ
  pub cache_read : ℕ
  pub cache_creation : ℕ

pub record Adapter : Type 0 where
  pub harness : Harness
  pub port : ℕ
  pub upstream : Text
  pub live_upstream : Option Text
  pub history_key : Text
  pub big_fields : List Text
  pub terminal_event : Text

-- hyper::HeaderMap: lower-case names with values, none for one that is not visible ASCII.
abbrev pub Headers : Type 0
Headers = List (Text × Option Text)

-- Option::or
abbrev pub or {ℓ} : {A : Type ℓ} → Option A → Option A → Option A
or none o = o
or (some a) o = some a

abbrev pub kept {ℓ} : {A : Type ℓ} → (A → Bool) → Option A → Option A
kept p none = none
kept p (some a) = if p a then some a else none

abbrev pub is_codex : Harness → Bool
is_codex claude_code = false
is_codex codex = true

abbrev is_nonempty : Text → Bool
is_nonempty s = not (is_empty s)

abbrev first_piece : List Text → Text
first_piece [] = []
first_piece (w ∷ ws) = w

abbrev host_of : Text → Option Text
host_of rest =
    if any (λ c. c == b'/') rest || any (λ c. c == b'@') rest
    then none
    else kept is_nonempty (some (first_piece (split b':' rest)))

unfoldable pub interceptable_host : Adapter → Option Text
interceptable_host a =
    and_then (λ rest. host_of (trim_end (λ c. c == b'/') rest))
      (or (strip_prefix (chars "https://") a.upstream) (strip_prefix (chars "http://") a.upstream))

-- str::ends_with
unfoldable pub ends_with : Text → Text → Bool
ends_with suffix [] = text_eq suffix []
ends_with suffix (c ∷ s) = text_eq suffix (c ∷ s) || ends_with suffix s

abbrev captures_for : Harness → Text → Text → Bool
captures_for claude_code method path =
    text_eq method (chars "POST") && text_eq path (chars "/v1/messages")
captures_for codex method path =
    text_eq method (chars "POST") && ends_with (chars "/responses") path

unfoldable pub captures : Adapter → Text → Text → Bool
unfolding ends_with
captures a method path = captures_for a.harness method path

unfoldable pub upstream_base : Adapter → Text → Text
upstream_base a path =
    if is_codex a.harness && text_eq path (chars "/live")
    then or_else a.upstream a.live_upstream
    else a.upstream

unfoldable pub upstream_path : Adapter → Text → Text
upstream_path a path =
    if not (is_codex a.harness)
    then path
    else if text_eq path (chars "/codex/responses")
    then chars "/responses"
    else if text_eq path (chars "/backend-api/codex/realtime/calls")
    then chars "/realtime/calls"
    else path

unfoldable pub response_complete : Adapter → List Value → Bool → Bool
response_complete a events transport_complete =
    transport_complete && any (has_type a.terminal_event) events

abbrev is_hex : ℕ → Bool
is_hex c = is_ascii_digit c || between 65 70 c || between 97 102 c

abbrev is_variant : ℕ → Bool
is_variant c = c == b'8' || c == b'9' || c == b'a' || c == b'b'

-- The byte at a position of a UUID.
unfoldable pub is_uuid_byte : ℕ → ℕ → Bool
unfolding to_ascii_lowercase
is_uuid_byte i c =
    if i == 8 || i == 13 || i == 18 || i == 23
    then c == b'-'
    else if i == 14
    then between b'1' b'8' (to_ascii_lowercase c)
    else if i == 19
    then is_variant (to_ascii_lowercase c)
    else is_hex c

unfoldable pub uuid_bytes : ℕ → List ℕ → Bool
unfolding is_uuid_byte
uuid_bytes i [] = true
uuid_bytes i (c ∷ cs) = let rest = uuid_bytes (suc i) cs in if is_uuid_byte i c then rest else false

unfoldable pub is_uuid : Text → Bool
unfolding uuid_bytes
is_uuid s = if length (bytes s) == 36 then uuid_bytes 0 (bytes s) else false

-- obj.get(key).and_then(Value::as_str).filter(|s| is_uuid(s))
unfoldable pub id_field : Value → Text → Option Text
id_field obj key = kept is_uuid (str_at key obj)

abbrev pub value_of : Option (Option Text) → Option Text
value_of none = none
value_of (some v) = v

unfoldable pub header_str : Headers → Text → Option Text
header_str headers name = value_of (Map.get name headers)

abbrev pub no_identity : Identity
no_identity = record { session_id = none; thread_id = none; turn_id = none }

module _ (from_str : Parse) where
  unfoldable pub object_from : Option Value → Value
  object_from (some (object fs)) = object fs
  object_from (some (string s)) = or_else (object_of []) (from_str s)
  object_from _ = object_of []

  unfoldable pub pick : Headers → Value → Value → Text → Text → Option Text
  pick headers turn client hdr key =
      or
        (or (or (kept is_uuid (header_str headers hdr)) (kept is_uuid (header_str headers key)))
          (id_field turn key))
        (id_field client key)

  abbrev codex_identity : Headers → Value → Value → Identity
  codex_identity headers turn client = record {
    session_id = pick headers turn client (chars "session-id") (chars "session_id");
    thread_id = pick headers turn client (chars "thread-id") (chars "thread_id");
    turn_id = or (id_field turn (chars "turn_id")) (id_field client (chars "turn_id"));
  }

  abbrev string_value : Option Text → Option Value
  string_value o = and_then (λ s. some (string s)) o

  unfoldable pub identity : Harness → Headers → Value → Identity
  unfolding pick object_from
  identity claude_code headers body = record {
    session_id = kept is_uuid (
        and_then (str_at (chars "session_id")) (
          and_then from_str
            (and_then as_str (pointer (chars "metadata" ∷ chars "user_id" ∷ []) body))));
    thread_id = none;
    turn_id = none;
  }
  identity codex headers body =
      let client =
        object_from (or (get (chars "client_metadata") body) (get (chars "metadata") body)) in
      let turn = object_from (
        or (string_value (header_str headers (chars "x-codex-turn-metadata")))
          (get (chars "x-codex-turn-metadata") client)) in
      codex_identity headers turn client

module _ {F : Type 0} (as_f64 : Number → Option F) (parse_f64 : Text → Option F)
    (is_finite : F → Bool) (is_nonnegative : F → Bool) (to_u64 : F → ℕ) where
  abbrev counted : Option F → ℕ
  counted f =
      or_else 0 (and_then (λ x. some (to_u64 x)) (kept (λ x. is_finite x && is_nonnegative x) f))

  unfoldable pub count : Option Value → ℕ
  count (some (number n)) = counted (as_f64 n)
  count (some (string s)) = counted (parse_f64 s)
  count _ = 0

  abbrev claude_usage : Value → Value → TokenUsage
  claude_usage start delta = record {
    input = count (get (chars "input_tokens") start);
    output = count (or (get (chars "output_tokens") delta) (get (chars "output_tokens") start));
    cache_read = count (get (chars "cache_read_input_tokens") start);
    cache_creation = count (get (chars "cache_creation_input_tokens") start);
  }

  abbrev detail : Text → Value → ℕ
  detail name usage = count (pointer (chars "input_tokens_details" ∷ name ∷ []) usage)

  abbrev codex_usage : Value → TokenUsage
  codex_usage usage =
      let cached = detail (chars "cached_tokens") usage in
      let cache_write = detail (chars "cache_write_tokens") usage in
      record {
        input = count (get (chars "input_tokens") usage) - cached - cache_write;
        output = count (get (chars "output_tokens") usage);
        cache_read = cached;
        cache_creation = cache_write;
      }

  unfoldable pub usage : Harness → List Value → TokenUsage
  unfolding count
  usage claude_code events =
      claude_usage
        (or_else null (
          and_then (pointer (chars "message" ∷ chars "usage" ∷ []))
            (find (has_type (chars "message_start")) events)))
        (or_else null (
          and_then (get (chars "usage"))
            (find (has_type (chars "message_delta")) (reverse events))))
  usage codex events = codex_usage (
      or_else null (
        and_then (pointer (chars "response" ∷ chars "usage" ∷ []))
          (find (has_type (chars "response.completed")) (reverse events))))
