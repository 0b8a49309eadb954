-- ===== src/Plant/Websocket/Relay/Turns.antt =====
-- The turns that a relay prepares and finishes.
use vaultr.Prelude.{
  ◌≡◌, ◌∙◌, refl, ap, sym, Bool, true, false, inl, inr, Option, none, some, List, [], ◌∷◌, ◌++◌,
  Bool-cases, not, ◌&&◌,
}
use mathlib.Core.List.{append-nil, append_assoc}
use vaultr.Text.{Text}
use vaultr.Json.{Value}
use vaultr.Recon.Output.{filter_map}
use vaultr.Plant.Websocket.Normalize.{
  RelayHistory, no_history, NormalizedRequest, response_create_body,
}
use vaultr.Plant.Websocket.Relay.{
  Message, text, binary, ping, pong, close, frame, message, failed, ended, Event, from_client,
  from_upstream, ActiveTurn, Action, Relay, Context, Round, new_relay, disable_ambiguous_capture,
  start_turn, observe_request, observe_response, response_round, upstream_text, client_round,
  upstream_round, round, go_on, rounds, relay, finish_active, finish_turn, prepared_actions,
  prepare_turn, push_event, prepared, finished, send_upstream,
}
use vaultr.Plant.Websocket.Relay.Modes.{IsSound, idle, waiting, disabled, round-IsSound}

module _ {Pending : Type 0} where
  abbrev pub preparation : Action Pending → Option Pending
  preparation (prepared p) = some p
  preparation _ = none

  abbrev pub completion : Action Pending → Option Pending
  completion (finished p response) = some p
  completion _ = none

  -- The captures that are prepared, and those that are finished, in order.
  abbrev pub preparations : List (Action Pending) → List Pending
  preparations actions = filter_map preparation actions

  abbrev pub completions : List (Action Pending) → List Pending
  completions actions = filter_map completion actions

  abbrev pub pending_of : Option (ActiveTurn Pending) → List Pending
  pending_of none = []
  pending_of (some turn) = turn.pending ∷ []

  -- What was active or is prepared is finished or stays active.
  abbrev IsBalanced : Relay Pending → List (Action Pending) → Relay Pending → Type 0
  IsBalanced r actions r1 =
      pending_of r.active ++ preparations actions ≡ completions actions ++ pending_of r1.active

  abbrev idle_with : RelayHistory → Relay Pending
  idle_with h = record {
    active = none;
    history = h;
    awaiting_terminal = false;
    capture_disabled = false;
  }

  preparations-append :
      (xs ys : List (Action Pending)) → preparations (xs ++ ys) ≡ preparations xs ++ preparations ys
  preparations-append [] ys = refl
  preparations-append (prepared p ∷ xs) ys =
      ap (λ (ps : List Pending). p ∷ ps) (preparations-append xs ys)
  preparations-append (x ∷ xs) ys = preparations-append xs ys

  completions-append :
      (xs ys : List (Action Pending)) → completions (xs ++ ys) ≡ completions xs ++ completions ys
  completions-append [] ys = refl
  completions-append (finished p response ∷ xs) ys =
      ap (λ (ps : List Pending). p ∷ ps) (completions-append xs ys)
  completions-append (x ∷ xs) ys = completions-append xs ys

  both-IsBalanced :
      (r r1 r2 : Relay Pending) (xs ys : List (Action Pending))
      → IsBalanced r xs r1
      → IsBalanced r1 ys r2
      → IsBalanced r (xs ++ ys) r2
  both-IsBalanced r r1 r2 xs ys a b =
      ap (λ (ps : List Pending). pending_of r.active ++ ps) (preparations-append xs ys)
      ∙ sym (append_assoc (pending_of r.active) (preparations xs) (preparations ys))
      ∙ ap (λ (ps : List Pending). ps ++ preparations ys) a
      ∙ append_assoc (completions xs) (pending_of r1.active) (preparations ys)
      ∙ ap (λ (ps : List Pending). completions xs ++ ps) b
      ∙ sym (append_assoc (completions xs) (completions ys) (pending_of r2.active))
      ∙ ap (λ (ps : List Pending). ps ++ pending_of r2.active) (sym (completions-append xs ys))

  module _ (ctx : Context Pending) where
    start_turn-IsBalanced :
        (h : RelayHistory) (o : Option NormalizedRequest)
        → IsBalanced
            (idle_with h)
            (start_turn ctx (idle_with h) o).1
            (start_turn ctx (idle_with h) o).0
    start_turn-IsBalanced h none = refl
    start_turn-IsBalanced h (some n) = elim (Bool-cases n.warmup) [
      | inl e ↦ rw e refl
      | inr e ↦ rw e (of_active (prepare_turn ctx n.body n.ids n.body_sha256))
    ]
      where
        of_active :
            (a : Option (ActiveTurn Pending))
            → preparations (prepared_actions ctx a)
              ≡ completions (prepared_actions ctx a) ++ pending_of a
        of_active none = refl
        of_active (some turn) = refl

    finish_active-IsBalanced :
        (a : Option (ActiveTurn Pending)) (sent : Bool)
        → pending_of a ++ preparations (finish_active ctx a sent)
          ≡ completions (finish_active ctx a sent) ++ []
    unfolding finish_turn
    finish_active-IsBalanced none sent = refl
    finish_active-IsBalanced (some turn) sent = refl

    observe_request-IsBalanced :
        (r : Relay Pending) (body : Option Value)
        → IsSound r
        → IsBalanced r (observe_request ctx r body).1 (observe_request ctx r body).0
    unfolding observe_request disable_ambiguous_capture
    observe_request-IsBalanced r none (idle h) = refl
    observe_request-IsBalanced r none (waiting a h) = finish_active-IsBalanced a false
    observe_request-IsBalanced r none disabled = refl
    observe_request-IsBalanced r (some body) (idle h) = start_turn-IsBalanced h _
    observe_request-IsBalanced r (some body) (waiting a h) = finish_active-IsBalanced a false
    observe_request-IsBalanced r (some body) disabled = refl

    -- A turn keeps its capture while its events are pushed.
    pending_of-push_event :
        (t : Text) (parsed : Option Value) (a : Option (ActiveTurn Pending))
        → pending_of (push_event ctx t parsed a) ≡ pending_of a
    pending_of-push_event t parsed none = refl
    pending_of-push_event t parsed (some turn) = refl

    response_round-IsBalanced :
        (r : Relay Pending) (t : Text) (sent : Bool)
        (o : Option (ActiveTurn Pending) × RelayHistory × Bool)
        → pending_of o.0 ≡ pending_of r.active
        → IsBalanced r (response_round ctx r t sent o).1 (response_round ctx r t sent o).0
    response_round-IsBalanced r t sent (a, h, true) e =
        ap (λ (ps : List Pending). ps ++ preparations (finish_active ctx a sent)) (sym e)
        ∙ finish_active-IsBalanced a sent
    response_round-IsBalanced r t sent (a, h, false) e = append-nil (pending_of r.active) ∙ sym e

    upstream_text-IsBalanced :
        (r : Relay Pending) (t : Text) (sent : Bool)
        → IsBalanced r (upstream_text ctx r t sent).1 (upstream_text ctx r t sent).0
    unfolding upstream_text observe_response
    upstream_text-IsBalanced r t sent =
        elim (Bool-cases (not r.capture_disabled && r.awaiting_terminal)) [
          | inl e ↦ rw e (
              response_round-IsBalanced r t sent _
                (pending_of-push_event t (ctx.from_str t) r.active))
          | inr e ↦ rw e (append-nil (pending_of r.active))
        ]

    client_round-IsBalanced :
        (r : Relay Pending) (m : Message) (sent : Bool)
        → IsSound r
        → IsBalanced r (client_round ctx r m sent).1 (client_round ctx r m sent).0
    unfolding client_round disable_ambiguous_capture
    client_round-IsBalanced r (text t) sent s =
        both-IsBalanced r (observe_request ctx r (response_create_body ctx.from_str t)).0
          (observe_request ctx r (response_create_body ctx.from_str t)).0
          (observe_request ctx r (response_create_body ctx.from_str t)).1
          (send_upstream (text t) ∷ [])
          (observe_request-IsBalanced r (response_create_body ctx.from_str t) s)
          (append-nil
            (pending_of (observe_request ctx r (response_create_body ctx.from_str t)).0.active))
    client_round-IsBalanced r (binary b) sent (idle h) = refl
    client_round-IsBalanced r (binary b) sent (waiting none h) = refl
    client_round-IsBalanced r (binary b) sent (waiting (some turn) h) = unfold finish_turn in refl
    client_round-IsBalanced r (binary b) sent disabled = refl
    client_round-IsBalanced r (ping b) sent s = append-nil (pending_of r.active)
    client_round-IsBalanced r (pong b) sent s = append-nil (pending_of r.active)
    client_round-IsBalanced r (close f) sent s = append-nil (pending_of r.active)
    client_round-IsBalanced r (frame f) sent s = append-nil (pending_of r.active)

    upstream_round-IsBalanced :
        (r : Relay Pending) (m : Message) (sent : Bool)
        → IsBalanced r (upstream_round ctx r m sent).1 (upstream_round ctx r m sent).0
    unfolding upstream_round
    upstream_round-IsBalanced r (text t) sent = upstream_text-IsBalanced r t sent
    upstream_round-IsBalanced r (binary b) sent = append-nil (pending_of r.active)
    upstream_round-IsBalanced r (ping b) sent = append-nil (pending_of r.active)
    upstream_round-IsBalanced r (pong b) sent = append-nil (pending_of r.active)
    upstream_round-IsBalanced r (close f) sent = append-nil (pending_of r.active)
    upstream_round-IsBalanced r (frame f) sent = append-nil (pending_of r.active)

    round-IsBalanced :
        (r : Relay Pending) (e : Event)
        → IsSound r
        → IsBalanced r (round ctx r e).1 (round ctx r e).0
    unfolding round
    round-IsBalanced r (from_client (message m) sent) s = client_round-IsBalanced r m sent s
    round-IsBalanced r (from_client failed sent) s = append-nil (pending_of r.active)
    round-IsBalanced r (from_client ended sent) s = append-nil (pending_of r.active)
    round-IsBalanced r (from_upstream (message m) sent) s = upstream_round-IsBalanced r m sent
    round-IsBalanced r (from_upstream failed sent) s = append-nil (pending_of r.active)
    round-IsBalanced r (from_upstream ended sent) s = append-nil (pending_of r.active)

    go_on-IsBalanced :
        (r : Relay Pending) (o : Round Pending)
        (rest : Relay Pending → Relay Pending × List (Action Pending))
        → IsBalanced r o.1 o.0
        → IsBalanced o.0 (rest o.0).1 (rest o.0).0
        → IsBalanced r (go_on ctx o rest).1 (go_on ctx o rest).0
    go_on-IsBalanced r (r1, actions, true) rest a b =
        both-IsBalanced r r1 (rest r1).0 actions (rest r1).1 a b
    go_on-IsBalanced r (r1, actions, false) rest a b = a

    rounds-IsBalanced :
        (r : Relay Pending) (events : List Event)
        → IsSound r
        → IsBalanced r (rounds ctx r events).1 (rounds ctx r events).0
    unfolding rounds
    rounds-IsBalanced r [] s = append-nil (pending_of r.active)
    rounds-IsBalanced r (e ∷ events) s =
        go_on-IsBalanced r (round ctx r e) (λ r1. rounds ctx r1 events) (round-IsBalanced r e s)
          (rounds-IsBalanced (round ctx r e).0 events (round-IsSound ctx r e s))

    -- Each capture that a relay prepares is finished once, in the order in which they were prepared.
    pub relay-finished :
        (events : List Event) → completions (relay ctx events) ≡ preparations (relay ctx events)
    unfolding relay
    relay-finished events =
        sym (append-nil (completions (relay ctx events)))
        ∙ sym (
            both-IsBalanced new_relay (rounds ctx new_relay events).0 new_relay
              (rounds ctx new_relay events).1
              (finish_active ctx (rounds ctx new_relay events).0.active false)
              (rounds-IsBalanced new_relay events (idle no_history))
              (finish_active-IsBalanced (rounds ctx new_relay events).0.active false))
