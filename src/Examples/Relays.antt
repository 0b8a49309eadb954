-- ===== src/Examples/Relays.antt =====
-- A relay with a codex turn.
use vaultr.Prelude.{
  ℕ, ◌≡◌, refl, true, false, Option, none, some, List, [], ◌∷◌, ◌++◌, map, filter, if◌then◌else◌,
}
use vaultr.Prelude.Map
use vaultr.Text.{Text, chars, text_eq, text_key}
use vaultr.Json.{
  Value, Entries, number, unsigned, string, array_of, object_of, get, entries, of_entries,
}
use vaultr.Json.Object.{Distinct}
use vaultr.Plant.Adapter.{codex, Adapter}
use vaultr.Plant.Websocket.Normalize.{
  RelayHistory, no_history, NormalizedRequest, normalize_request, with_turn, warmup_of,
}
use vaultr.Plant.Websocket.Normalize.Expanded.{Answered, normalize_request-expanded}
use vaultr.Plant.Websocket.Relay.{
  Context, Relay, Event, from_client, from_upstream, message, ended, text, ping, round, relay,
}
use vaultr.Plant.Websocket.Relay.Modes.{IsSound, waiting, round-IsSound}
use vaultr.Plant.Websocket.Relay.Traffic.{is_traffic, plain_relay, relay-plain}
use vaultr.Plant.Websocket.Relay.Turns.{completions, preparations, relay-finished}

abbrev codex_adapter : Adapter
codex_adapter = record {
  harness = codex;
  port = 18924;
  upstream = chars "https://chatgpt.com/backend-api/codex";
  live_upstream = none;
  history_key = chars "input";
  big_fields = chars "tools" ∷ [];
  terminal_event = chars "response.completed";
}

abbrev create : Value
create =
    object_of ((chars "type", string (chars "response.create")) ∷ (chars "input", array_of []) ∷ [])

abbrev ended_response : Value
ended_response = object_of ((chars "type", string (chars "response.completed")) ∷ [])

-- A parser that knows two texts.
unfoldable parse_two : Text → Option Value
parse_two t =
    if text_eq t (chars "create")
    then some create
    else if text_eq t (chars "done")
    then some ended_response
    else none

abbrev codex_context : Context ℕ
codex_context = record {
  adapter = codex_adapter;
  request_headers = [];
  response_headers = [];
  path = chars "/responses";
  from_str = parse_two;
  from_slice = λ b. none;
  to_vec = λ v. [];
  to_string = λ v. chars "done";
  sha256_hex = λ b. b;
  prepare_capture = λ r v. some 7;
}

abbrev one_turn : List Event
one_turn =
    from_client (message (text (chars "create"))) true
    ∷ from_upstream (message (text (chars "more"))) true
    ∷ from_client (message (ping [])) true
    ∷ from_upstream (message (text (chars "done"))) true
    ∷ from_client ended true
    ∷ []

relay-plain_example : filter is_traffic (relay codex_context one_turn) ≡ plain_relay one_turn
relay-plain_example = relay-plain codex_context one_turn

relay-finished_example :
    completions (relay codex_context one_turn) ≡ preparations (relay codex_context one_turn)
relay-finished_example = relay-finished codex_context one_turn

abbrev waiting_relay : Relay ℕ
waiting_relay = record {
  active = some (record { pending = 7; response_headers = []; sse = [] });
  history = no_history;
  awaiting_terminal = true;
  capture_disabled = false;
}

round-IsSound_example :
    IsSound
      (round codex_context waiting_relay (from_upstream (message (text (chars "done"))) true)).0
round-IsSound_example =
    round-IsSound codex_context waiting_relay (from_upstream (message (text (chars "done"))) true)
      (waiting _ no_history)

-- An incremental request behind one that was answered with an item.
abbrev prior_fields : Entries
prior_fields = (chars "input", array_of (number (unsigned 1) ∷ [])) ∷ []

abbrev answer : Value
answer = object_of ((chars "role", string (chars "assistant")) ∷ [])

abbrev next_fields : Entries
next_fields =
    (chars "previous_response_id", string (chars "r1"))
    ∷ (chars "input", array_of (number (unsigned 3) ∷ []))
    ∷ []

-- An encoder of the two values, by whether they have an input.
abbrev by_input : Option Value → List ℕ
by_input none = 1 ∷ []
by_input (some input) = 0 ∷ []

abbrev to_tag : Value → List ℕ
to_tag v = by_input (get (chars "input") v)

abbrev of_tag : List ℕ → Option Value
of_tag b = if text_eq b (0 ∷ []) then some (object_of prior_fields) else some answer

abbrev answered_history : RelayHistory
answered_history = record {
  request = some (0 ∷ []);
  response_id = some (chars "r1");
  response_items = (1 ∷ []) ∷ [];
  response_turn_id = some (chars "t1");
}

history-Answered :
    Answered to_tag prior_fields (some (chars "t1")) (chars "r1") (answer ∷ []) answered_history
unfolding get entries of_entries Map.get text_eq
history-Answered = record { asked = refl; answered = refl; identified = refl; in_turn = refl }

prior_read : of_tag (to_tag (object_of prior_fields)) ≡ some (object_of prior_fields)
unfolding get entries of_entries Map.get text_eq
prior_read = refl

answer_read : of_tag (to_tag answer) ≡ some answer
unfolding get entries of_entries Map.get text_eq
answer_read = refl

next_fields-Distinct : Distinct next_fields
unfolding Map.get text_eq
next_fields-Distinct = (refl, (refl, tt))

next_fields-input : Map.get (chars "input") next_fields ≡ some (array_of (number (unsigned 3) ∷ []))
unfolding Map.get text_eq
next_fields-input = refl

prior_fields-input :
    Map.get (chars "input") prior_fields ≡ some (array_of (number (unsigned 1) ∷ []))
unfolding Map.get text_eq
prior_fields-input = refl

next_fields-id : Map.get (chars "previous_response_id") next_fields ≡ some (string (chars "r1"))
unfolding Map.get text_eq
next_fields-id = refl

next_fields-warmup : warmup_of (Map.get (chars "generate") next_fields) ≡ some false
unfolding Map.get text_eq
next_fields-warmup = refl

normalize_request-expanded_example :
    (n : NormalizedRequest) × (normalize_request of_tag to_tag
        (λ b. b)
        parse_two
        codex
        []
        answered_history
        (object_of next_fields)
      ≡ some n)
    × (get (chars "input") n.body
        ≡ some (
            array_of (
              ((number (unsigned 1) ∷ []) ++ map (with_turn (some (chars "t1"))) (answer ∷ []))
              ++ (number (unsigned 3) ∷ []))))
    × (get (chars "previous_response_id") n.body ≡ none)
    × (n.warmup ≡ false)
normalize_request-expanded_example =
    normalize_request-expanded of_tag to_tag (λ b. b) parse_two codex [] prior_fields next_fields
      (some (chars "t1")) (chars "r1") (answer ∷ []) (number (unsigned 1) ∷ [])
      (number (unsigned 3) ∷ []) answered_history false history-Answered prior_read
      (answer_read, tt) next_fields-Distinct prior_fields-input next_fields-id next_fields-warmup
      next_fields-input
