-- ===== src/Plant/Websocket/Normalize.antt =====
-- The requests of a websocket as whole bodies: `response_create_body` and `normalize_request` of
-- crates/plant/src/proxy/websocket.rs. serde_json's parser and printer, the digest and the adapter's
-- parser are parameters.
pub mod Expanded
use vaultr.Prelude.{
  ℕ, Bool, true, false, not, Option, none, some, List, [], ◌∷◌, ◌++◌, map, if◌then◌else◌,
}
use vaultr.Prelude.Map
use vaultr.Text.{Text, chars, text_eq, text_key}
use vaultr.Json.{
  Value, Entries, string, boolean, array, items, array_of, object_of, as_array, as_object, and_then,
  get, is_text, str_at, has_type,
}
use vaultr.Json.Object.{insert, remove}
use vaultr.Recon.Output.{Parse}
use vaultr.Recon.Replay.{stamped}
use vaultr.Plant.Adapter.{Harness, Identity, Headers, identity, or}

pub record RelayHistory : Type 0 where
  pub request : Option (List ℕ)
  pub response_id : Option Text
  pub response_items : List (List ℕ)
  pub response_turn_id : Option Text

abbrev pub no_history : RelayHistory
no_history = record {
  request = none;
  response_id = none;
  response_items = [];
  response_turn_id = none;
}

pub record NormalizedRequest : Type 0 where
  pub body : Value
  pub encoded : List ℕ
  pub body_sha256 : Text
  pub ids : Identity
  pub warmup : Bool

abbrev create_of : Entries → Option Value
create_of fields =
    if is_text (chars "response.create") (str_at (chars "type") (object_of fields))
    then some (object_of (remove (chars "type") fields))
    else none

-- The body of a response.create.
unfoldable pub response_create_body : Parse → Text → Option Value
response_create_body from_str text =
    and_then (λ fields. create_of fields) (and_then as_object (from_str text))

-- The id of the response before: none for a field of another type.
abbrev pub previous_id : Option Value → Option (Option Text)
previous_id none = some none
previous_id (some (string response_id)) = some (some response_id)
previous_id (some _) = none

abbrev pub warmup_of : Option Value → Option Bool
warmup_of none = some false
warmup_of (some (boolean true)) = some false
warmup_of (some (boolean false)) = some true
warmup_of (some _) = none

abbrev pub all_some {ℓ} : {A : Type ℓ} → List (Option A) → Option (List A)
all_some [] = some []
all_some (o ∷ os) = and_then (λ a. and_then (λ rest. some (a ∷ rest)) (all_some os)) o

-- Response items get the turn of the request they answer.
abbrev pub with_turn : Option Text → Value → Value
with_turn none item = item
with_turn (some turn_id) item = stamped turn_id item

module _ (from_slice : List ℕ → Option Value) (to_vec : Value → List ℕ) (sha256_hex : List ℕ → Text)
    (from_str : Parse) where
  -- The input of the request before and the items of its response.
  unfoldable pub full_input : RelayHistory → Option (List Value)
  full_input history =
      and_then
        (λ (previous : List Value).
          and_then (λ (answered : List Value). some (previous ++ answered))
            (all_some (
              map
                (λ encoded.
                  and_then (λ item. some (with_turn history.response_turn_id item))
                    (from_slice encoded))
                history.response_items)))
        (and_then as_array (and_then (get (chars "input")) (and_then from_slice history.request)))

  abbrev expand : RelayHistory → Entries → Option Entries
  expand history fields =
      and_then
        (λ (full : List Value).
          and_then
            (λ (incremental : List Value).
              some (insert (chars "input") (array_of (full ++ incremental)) fields))
            (and_then as_array (Map.get (chars "input") fields)))
        (full_input history)

  -- An incremental body is expanded if it follows the response that ended last.
  unfoldable pub expanded : RelayHistory → Option Text → Entries → Option Entries
  unfolding full_input
  expanded history none fields = some fields
  expanded history (some previous) fields =
      if is_text previous history.response_id then expand history fields else none

  unfoldable pub websocket_identity : Harness → Headers → Value → Identity
  websocket_identity harness handshake_headers body =
      let frame = identity from_str harness [] body in
      let handshake = identity from_str harness handshake_headers body in
      record {
        session_id = or frame.session_id handshake.session_id;
        thread_id = or frame.thread_id handshake.thread_id;
        turn_id = or frame.turn_id handshake.turn_id;
      }

  abbrev normalized : Harness → Headers → Bool → Value → NormalizedRequest
  normalized harness headers warmup body = record {
    body = body;
    encoded = to_vec body;
    body_sha256 = sha256_hex (to_vec body);
    ids = websocket_identity harness headers body;
    warmup = warmup;
  }

  unfoldable pub normalize_fields :
      Harness → Headers → RelayHistory → Entries → Option NormalizedRequest
  normalize_fields harness headers history fields =
      let without_id = remove (chars "previous_response_id") fields in
      and_then
        (λ (previous : Option Text).
          and_then
            (λ (warmup : Bool).
              and_then (λ (out : Entries). some (normalized harness headers warmup (object_of out)))
                (expanded history previous (remove (chars "generate") without_id)))
            (warmup_of (Map.get (chars "generate") without_id)))
        (previous_id (Map.get (chars "previous_response_id") fields))

  unfoldable pub normalize_request :
      Harness → Headers → RelayHistory → Value → Option NormalizedRequest
  unfolding normalize_fields
  normalize_request harness headers history body =
      and_then (normalize_fields harness headers history) (as_object body)
