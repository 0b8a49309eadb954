-- ===== src/Plant/Websocket/Relay.antt =====
-- The relay of crates/plant/src/proxy/websocket.rs: the loop that takes a message from one of the two
-- sides at a time, `disable_ambiguous_capture`, `prepare_turn`, `observe_response` and `finish_turn`. What
-- the relay does to the outside is a list of actions; whether a send succeeds is part of the event. The
-- preparation of a capture is a parameter, whose outcome may be an error.
pub mod Modes
pub mod Traffic
pub mod Turns
pub use vaultr.Plant.Websocket.Messages.{
  Message, text, binary, ping, pong, close, frame, Received, message, failed, ended, Event,
  from_client, from_upstream, CapturedRequest, ActiveTurn, CapturedResponse, Action, send_upstream,
  send_downstream, close_upstream, close_downstream, flush_upstream, flush_downstream, prepared,
  finished, Relay, Context, Round,
}
use vaultr.Prelude.{
  ℕ, Bool, true, false, not, ◌&&◌, Option, none, some, List, [], ◌∷◌, ◌++◌, map, is_empty,
  if◌then◌else◌,
}
use vaultr.Text.{Text, chars}
use vaultr.Json.{Value, as_array, as_str, and_then, get, pointer, str_at, has_type}
use vaultr.Recon.Delta.{or_else, is_some}
use vaultr.Recon.Output.{Parse, push_some, parse_sse}
use vaultr.Plant.Adapter.{Adapter, Identity, Headers, response_complete}
use vaultr.Plant.Websocket.Normalize.{
  RelayHistory, no_history, NormalizedRequest, response_create_body, normalize_request,
}

module _ {Pending : Type 0} where
  abbrev pub new_relay : Relay Pending
  new_relay = record {
    active = none;
    history = no_history;
    awaiting_terminal = false;
    capture_disabled = false;
  }

  module _ (ctx : Context Pending) where
    unfoldable pub finish_turn : ActiveTurn Pending → Bool → Action Pending
    finish_turn turn transport_complete = finished turn.pending (record {
      status = 200;
      headers = turn.response_headers;
      complete = response_complete ctx.adapter (parse_sse ctx.from_str turn.sse) transport_complete;
      sse = turn.sse;
    })

    abbrev pub finish_active : Option (ActiveTurn Pending) → Bool → List (Action Pending)
    finish_active none transport_complete = []
    finish_active (some turn) transport_complete = finish_turn turn transport_complete ∷ []

    unfoldable pub disable_ambiguous_capture : Relay Pending → Relay Pending × List (Action Pending)
    disable_ambiguous_capture r = (
      record {
        active = none;
        history = no_history;
        awaiting_terminal = false;
        capture_disabled = true;
      },
      finish_active r.active false,
    )

    unfoldable pub prepare_turn : Value → Identity → Text → Option (ActiveTurn Pending)
    prepare_turn body ids body_sha256 =
        and_then
          (λ pending.
            some (record { pending = pending; response_headers = ctx.response_headers; sse = [] }))
          (ctx.prepare_capture
            (record {
              method = chars "POST";
              path = ctx.path;
              content_encoding = none;
              body_sha256 = body_sha256;
              ids = ids;
            })
            body)

    abbrev pub asked : NormalizedRequest → RelayHistory
    asked n = record {
      request = some n.encoded;
      response_id = none;
      response_items = [];
      response_turn_id = n.ids.turn_id;
    }

    abbrev pub prepared_actions : Option (ActiveTurn Pending) → List (Action Pending)
    prepared_actions none = []
    prepared_actions (some turn) = prepared turn.pending ∷ []

    -- A request that can be expanded starts a turn, unless it is a warm-up; another one ends the capture.
    abbrev pub start_turn :
        Relay Pending → Option NormalizedRequest → Relay Pending × List (Action Pending)
    start_turn r none = (
      record {
        active = r.active;
        history = no_history;
        awaiting_terminal = r.awaiting_terminal;
        capture_disabled = true;
      },
      [],
    )
    start_turn r (some n) =
        if n.warmup
        then (
          record {
            active = r.active;
            history = asked n;
            awaiting_terminal = true;
            capture_disabled = r.capture_disabled;
          },
          [],
        )
        else (
          record {
            active = prepare_turn n.body n.ids n.body_sha256;
            history = asked n;
            awaiting_terminal = true;
            capture_disabled = r.capture_disabled;
          },
          prepared_actions (prepare_turn n.body n.ids n.body_sha256),
        )

    -- A text of the client, before it is sent on.
    unfoldable pub observe_request :
        Relay Pending → Option Value → Relay Pending × List (Action Pending)
    unfolding prepare_turn
    observe_request r none = if r.capture_disabled then (r, []) else disable_ambiguous_capture r
    observe_request r (some body) =
        if r.awaiting_terminal
        then disable_ambiguous_capture r
        else if r.capture_disabled
        then (r, [])
        else start_turn r (
            normalize_request ctx.from_slice ctx.to_vec ctx.sha256_hex ctx.from_str
              ctx.adapter.harness ctx.request_headers r.history body)

    abbrev pub observed_text : Text → Option Value → Text
    observed_text t none = t
    observed_text t (some parsed) = ctx.to_string parsed

    abbrev pub push_event :
        Text → Option Value → Option (ActiveTurn Pending) → Option (ActiveTurn Pending)
    push_event t parsed none = none
    push_event t parsed (some turn) = some (record {
      pending = turn.pending;
      response_headers = turn.response_headers;
      sse = turn.sse ++ chars "data: " ++ observed_text t parsed ++ chars "\n\n";
    })

    abbrev pub with_items : RelayHistory → List (List ℕ) → RelayHistory
    with_items h response_items = record {
      request = h.request;
      response_id = h.response_id;
      response_items = response_items;
      response_turn_id = h.response_turn_id;
    }

    -- An item that is done.
    abbrev pub push_item : RelayHistory → Value → RelayHistory
    push_item h parsed =
        if has_type (chars "response.output_item.done") parsed
        then with_items h
            (h.response_items ++ map ctx.to_vec (push_some (get (chars "item") parsed) []))
        else h

    abbrev pub items_or : List (List ℕ) → Option (List Value) → List (List ℕ)
    items_or [] output = map ctx.to_vec (or_else [] output)
    items_or (i ∷ is) output = i ∷ is

    -- A response that completed.
    abbrev pub completed : RelayHistory → Value → RelayHistory
    completed h parsed = record {
      request = h.request;
      response_id = and_then as_str (pointer (chars "response" ∷ chars "id" ∷ []) parsed);
      response_items =
          items_or h.response_items
            (and_then as_array (pointer (chars "response" ∷ chars "output" ∷ []) parsed));
      response_turn_id = h.response_turn_id;
    }

    abbrev pub observe_parsed : RelayHistory → Option Value → RelayHistory × Bool
    observe_parsed h none = (h, false)
    observe_parsed h (some parsed) =
        if has_type (chars "response.completed") parsed
        then (completed (push_item h parsed) parsed, true)
        else (push_item h parsed, false)

    -- The active turn and the history behind a text of the upstream, and whether the response ended.
    unfoldable pub observe_response :
        Option (ActiveTurn Pending)
        → RelayHistory
        → Text
        → Option (ActiveTurn Pending) × RelayHistory × Bool
    observe_response active h t =
        let parsed = ctx.from_str t in
        (push_event t parsed active, (observe_parsed h parsed).0, (observe_parsed h parsed).1)

    abbrev pub observed : Relay Pending → Option (ActiveTurn Pending) → RelayHistory → Relay Pending
    observed r active h = record {
      active = active;
      history = h;
      awaiting_terminal = r.awaiting_terminal;
      capture_disabled = r.capture_disabled;
    }

    abbrev pub response_round :
        Relay Pending
        → Text
        → Bool
        → Option (ActiveTurn Pending) × RelayHistory × Bool
        → Round Pending
    response_round r t forwarded (active, h, terminal) =
        if terminal
        then (
          record {
            active = none;
            history = h;
            awaiting_terminal = false;
            capture_disabled = r.capture_disabled;
          },
          send_downstream (text t) ∷ finish_active active forwarded,
          forwarded,
        )
        else (observed r active h, send_downstream (text t) ∷ [], forwarded)

    unfoldable pub upstream_text : Relay Pending → Text → Bool → Round Pending
    upstream_text r t forwarded =
        if not r.capture_disabled && r.awaiting_terminal
        then response_round r t forwarded (observe_response r.active r.history t)
        else (r, send_downstream (text t) ∷ [], forwarded)

    unfoldable pub client_round : Relay Pending → Message → Bool → Round Pending
    client_round r (text t) sent =
        let (r1, actions) = observe_request r (response_create_body ctx.from_str t) in
        (r1, actions ++ (send_upstream (text t) ∷ []), sent)
    client_round r (binary payload) sent =
        if r.capture_disabled
        then (r, send_upstream (binary payload) ∷ [], sent)
        else (let (r1, actions) = disable_ambiguous_capture r in
            (r1, actions ++ (send_upstream (binary payload) ∷ []), sent))
    client_round r (ping payload) sent = (r, send_downstream (pong payload) ∷ [], sent)
    client_round r (pong payload) sent = (r, [], true)
    client_round r (close f) sent = (r, flush_downstream ∷ send_upstream (close f) ∷ [], false)
    client_round r (frame f) sent = (r, send_upstream (frame f) ∷ [], sent)

    unfoldable pub upstream_round : Relay Pending → Message → Bool → Round Pending
    upstream_round r (text t) sent = upstream_text r t sent
    upstream_round r (binary payload) sent = (r, send_downstream (binary payload) ∷ [], sent)
    upstream_round r (ping payload) sent = (r, send_upstream (pong payload) ∷ [], sent)
    upstream_round r (pong payload) sent = (r, [], true)
    upstream_round r (close f) sent = (r, flush_upstream ∷ send_downstream (close f) ∷ [], false)
    upstream_round r (frame f) sent = (r, send_downstream (frame f) ∷ [], sent)

    unfoldable pub round : Relay Pending → Event → Round Pending
    round r (from_client (message m) sent) = client_round r m sent
    round r (from_client _ sent) = (r, close_upstream ∷ [], false)
    round r (from_upstream (message m) sent) = upstream_round r m sent
    round r (from_upstream _ sent) = (r, close_downstream ∷ [], false)

    abbrev pub go_on :
        Round Pending
        → (Relay Pending → Relay Pending × List (Action Pending))
        → Relay Pending × List (Action Pending)
    go_on (r, actions, true) rest = ((rest r).0, actions ++ (rest r).1)
    go_on (r, actions, false) rest = (r, actions)

    -- The rounds over the events, up to the one that leaves the loop.
    unfoldable pub rounds : Relay Pending → List Event → Relay Pending × List (Action Pending)
    rounds r [] = (r, [])
    rounds r (e ∷ events) = go_on (round r e) (λ r1. rounds r1 events)

    -- The turn that is active when the loop is left is finished then.
    unfoldable pub relay : List Event → List (Action Pending)
    relay events =
        let (r, actions) = rounds new_relay events in actions ++ finish_active r.active false
