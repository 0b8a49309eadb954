-- ===== src/Plant/Websocket/Relay/Modes.antt =====
-- The modes of a relay.
use vaultr.Prelude.{Bool, true, false, inl, inr, Option, none, some, Bool-cases}
use vaultr.Text.{Text}
use vaultr.Json.{Value}
use vaultr.Plant.Websocket.Normalize.{
  RelayHistory, no_history, NormalizedRequest, response_create_body,
}
use vaultr.Plant.Websocket.Relay.{
  Message, text, binary, ping, pong, close, frame, message, failed, ended, Event, from_client,
  from_upstream, ActiveTurn, Relay, Context, disable_ambiguous_capture, start_turn, observe_request,
  observe_response, response_round, upstream_text, client_round, upstream_round, round,
}

-- No response is awaited; one is, for a request that is captured or not; or nothing is captured any more.
pub data IsSound {Pending : Type 0} : Relay Pending → Type 0 where
  idle :
      (h : RelayHistory)
      → IsSound
          record { active = none; history = h; awaiting_terminal = false; capture_disabled = false }
  waiting :
      (active : Option (ActiveTurn Pending)) (h : RelayHistory)
      → IsSound record {
        active = active;
        history = h;
        awaiting_terminal = true;
        capture_disabled = false;
      }
  disabled : IsSound record {
    active = none;
    history = no_history;
    awaiting_terminal = false;
    capture_disabled = true;
  }

module _ {Pending : Type 0} (ctx : Context Pending) where
  start_turn-IsSound :
      (h : RelayHistory) (o : Option NormalizedRequest)
      → IsSound
          (start_turn ctx
            record {
              active = none;
              history = h;
              awaiting_terminal = false;
              capture_disabled = false;
            }
            o).0
  start_turn-IsSound h none = disabled
  start_turn-IsSound h (some n) = elim (Bool-cases n.warmup) [
    | inl e ↦ rw e (waiting none _)
    | inr e ↦ rw e (waiting _ _)
  ]

  pub observe_request-IsSound :
      (r : Relay Pending) (body : Option Value) → IsSound r → IsSound (observe_request ctx r body).0
  unfolding observe_request disable_ambiguous_capture
  observe_request-IsSound r none (idle h) = disabled
  observe_request-IsSound r none (waiting a h) = disabled
  observe_request-IsSound r none disabled = disabled
  observe_request-IsSound r (some body) (idle h) = start_turn-IsSound h _
  observe_request-IsSound r (some body) (waiting a h) = disabled
  observe_request-IsSound r (some body) disabled = disabled

  response_round-IsSound :
      (a : Option (ActiveTurn Pending)) (h : RelayHistory) (t : Text) (sent : Bool)
      (o : Option (ActiveTurn Pending) × RelayHistory × Bool)
      → IsSound
          (response_round ctx
            record { active = a; history = h; awaiting_terminal = true; capture_disabled = false }
            t
            sent
            o).0
  response_round-IsSound a h t sent (b, g, true) = idle g
  response_round-IsSound a h t sent (b, g, false) = waiting b g

  upstream_text-IsSound :
      (r : Relay Pending) (t : Text) (sent : Bool)
      → IsSound r
      → IsSound (upstream_text ctx r t sent).0
  unfolding upstream_text
  upstream_text-IsSound r t sent (idle h) = idle h
  upstream_text-IsSound r t sent (waiting a h) =
      response_round-IsSound a h t sent (observe_response ctx a h t)
  upstream_text-IsSound r t sent disabled = disabled

  client_round-IsSound :
      (r : Relay Pending) (m : Message) (sent : Bool)
      → IsSound r
      → IsSound (client_round ctx r m sent).0
  unfolding client_round disable_ambiguous_capture
  client_round-IsSound r (text t) sent s =
      observe_request-IsSound r (response_create_body ctx.from_str t) s
  client_round-IsSound r (binary b) sent (idle h) = disabled
  client_round-IsSound r (binary b) sent (waiting a h) = disabled
  client_round-IsSound r (binary b) sent disabled = disabled
  client_round-IsSound r (ping b) sent s = s
  client_round-IsSound r (pong b) sent s = s
  client_round-IsSound r (close f) sent s = s
  client_round-IsSound r (frame f) sent s = s

  upstream_round-IsSound :
      (r : Relay Pending) (m : Message) (sent : Bool)
      → IsSound r
      → IsSound (upstream_round ctx r m sent).0
  unfolding upstream_round
  upstream_round-IsSound r (text t) sent s = upstream_text-IsSound r t sent s
  upstream_round-IsSound r (binary b) sent s = s
  upstream_round-IsSound r (ping b) sent s = s
  upstream_round-IsSound r (pong b) sent s = s
  upstream_round-IsSound r (close f) sent s = s
  upstream_round-IsSound r (frame f) sent s = s

  -- A round keeps the relay in one of its modes: without a turn and a response to wait for; waiting for
  -- a response, with the capture on; or with the capture off, no turn and an empty history.
  pub round-IsSound : (r : Relay Pending) (e : Event) → IsSound r → IsSound (round ctx r e).0
  unfolding round
  round-IsSound r (from_client (message m) sent) s = client_round-IsSound r m sent s
  round-IsSound r (from_client failed sent) s = s
  round-IsSound r (from_client ended sent) s = s
  round-IsSound r (from_upstream (message m) sent) s = upstream_round-IsSound r m sent s
  round-IsSound r (from_upstream failed sent) s = s
  round-IsSound r (from_upstream ended sent) s = s
