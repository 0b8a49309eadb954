-- ===== src/Plant/Websocket/Relay/Traffic.antt =====
-- What a relay sends, against a relay that captures nothing.
use vaultr.Prelude.{
  ◌≡◌, ◌∙◌, refl, ap, sym, Bool, true, false, inl, inr, Option, none, some, List, [], ◌∷◌, ◌++◌,
  filter-append, Bool-cases, if◌then◌else◌, not, ◌&&◌, filter,
}
use mathlib.Core.List.{append-nil}
use vaultr.Text.{Text}
use vaultr.Json.{Value}
use vaultr.Plant.Websocket.Normalize.{RelayHistory, NormalizedRequest, response_create_body}
use vaultr.Plant.Websocket.Relay.{
  Message, text, binary, ping, pong, close, frame, message, failed, ended, Event, from_client,
  from_upstream, ActiveTurn, Action, Relay, Context, Round, new_relay, disable_ambiguous_capture,
  start_turn, observe_request, observe_response, response_round, upstream_text, client_round,
  upstream_round, round, go_on, rounds, relay, finish_active, finish_turn, prepared_actions,
  prepare_turn, send_upstream, send_downstream, close_upstream, close_downstream, flush_upstream,
  flush_downstream, prepared, finished,
}

module _ {Pending : Type 0} where
  abbrev pub is_traffic : Action Pending → Bool
  is_traffic (prepared p) = false
  is_traffic (finished p response) = false
  is_traffic _ = true

  -- What a relay without a capture does for an event, and whether it goes on.
  abbrev pub plain : Event → List (Action Pending) × Bool
  plain (from_client (message (ping b)) sent) = (send_downstream (pong b) ∷ [], sent)
  plain (from_client (message (pong b)) sent) = ([], true)
  plain (from_client (message (close f)) sent) =
      (flush_downstream ∷ send_upstream (close f) ∷ [], false)
  plain (from_client (message m) sent) = (send_upstream m ∷ [], sent)
  plain (from_client _ sent) = (close_upstream ∷ [], false)
  plain (from_upstream (message (ping b)) sent) = (send_upstream (pong b) ∷ [], sent)
  plain (from_upstream (message (pong b)) sent) = ([], true)
  plain (from_upstream (message (close f)) sent) =
      (flush_upstream ∷ send_downstream (close f) ∷ [], false)
  plain (from_upstream (message m) sent) = (send_downstream m ∷ [], sent)
  plain (from_upstream _ sent) = (close_downstream ∷ [], false)

  abbrev pub plain_relay : List Event → List (Action Pending)
  plain_relay [] = []
  plain_relay (e ∷ events) = (plain e).0 ++ (if (plain e).1 then plain_relay events else [])

  module _ (ctx : Context Pending) where
    -- A round sends what the plain relay sends, and goes on when that does.
    abbrev IsPlain : Round Pending → Event → Type 0
    IsPlain (r, actions, more) e = (filter is_traffic actions ≡ (plain e).0) × (more ≡ (plain e).1)

    finish_active-traffic :
        (active : Option (ActiveTurn Pending)) (sent : Bool)
        → filter is_traffic (finish_active ctx active sent) ≡ []
    unfolding finish_turn
    finish_active-traffic none sent = refl
    finish_active-traffic (some turn) sent = refl

    prepared-traffic :
        (active : Option (ActiveTurn Pending))
        → filter is_traffic (prepared_actions ctx active) ≡ []
    prepared-traffic none = refl
    prepared-traffic (some turn) = refl

    start_turn-traffic :
        (r : Relay Pending) (o : Option NormalizedRequest)
        → filter is_traffic (start_turn ctx r o).1 ≡ []
    start_turn-traffic r none = refl
    start_turn-traffic r (some n) = elim (Bool-cases n.warmup) [
      | inl e ↦ rw e refl
      | inr e ↦ rw e (prepared-traffic (prepare_turn ctx n.body n.ids n.body_sha256))
    ]

    observe_request-traffic :
        (r : Relay Pending) (body : Option Value)
        → filter is_traffic (observe_request ctx r body).1 ≡ []
    unfolding observe_request disable_ambiguous_capture
    observe_request-traffic r none = elim (Bool-cases r.capture_disabled) [
      | inl e ↦ rw e refl
      | inr e ↦ rw e (finish_active-traffic r.active false)
    ]
    observe_request-traffic r (some body) = elim (Bool-cases r.awaiting_terminal) [
      | inl a ↦ rw a (finish_active-traffic r.active false)
      | inr a ↦ elim (Bool-cases r.capture_disabled) [
        | inl e ↦ simp (a, e) refl
        | inr e ↦ simp (a, e) (start_turn-traffic r _)
      ]
    ]

    behind :
        (xs ys : List (Action Pending))
        → filter is_traffic xs ≡ []
        → filter is_traffic (xs ++ ys) ≡ filter is_traffic ys
    behind xs ys e =
        filter-append is_traffic xs ys
        ∙ ap (λ (zs : List (Action Pending)). zs ++ filter is_traffic ys) e

    response_round-IsPlain :
        (r : Relay Pending) (t : Text) (sent : Bool)
        (o : Option (ActiveTurn Pending) × RelayHistory × Bool)
        → IsPlain (response_round ctx r t sent o) (from_upstream (message (text t)) sent)
    response_round-IsPlain r t sent (a, h, true) = (
      ap (λ (zs : List (Action Pending)). send_downstream (text t) ∷ zs)
          (finish_active-traffic a sent),
      refl,
    )
    response_round-IsPlain r t sent (a, h, false) = (refl, refl)

    upstream_text-IsPlain :
        (r : Relay Pending) (t : Text) (sent : Bool)
        → IsPlain (upstream_text ctx r t sent) (from_upstream (message (text t)) sent)
    unfolding upstream_text
    upstream_text-IsPlain r t sent =
        elim (Bool-cases (not r.capture_disabled && r.awaiting_terminal)) [
          | inl e ↦
              rw e (response_round-IsPlain r t sent (observe_response ctx r.active r.history t))
          | inr e ↦ rw e (refl, refl)
        ]

    client_round-IsPlain :
        (r : Relay Pending) (m : Message) (sent : Bool)
        → IsPlain (client_round ctx r m sent) (from_client (message m) sent)
    unfolding client_round disable_ambiguous_capture
    client_round-IsPlain r (text t) sent = (
      behind (observe_request ctx r (response_create_body ctx.from_str t)).1
          (send_upstream (text t) ∷ [])
          (observe_request-traffic r (response_create_body ctx.from_str t)),
      refl,
    )
    client_round-IsPlain r (binary b) sent = elim (Bool-cases r.capture_disabled) [
      | inl e ↦ rw e (refl, refl)
      | inr e ↦ rw e (
        behind (finish_active ctx r.active false) (send_upstream (binary b) ∷ [])
            (finish_active-traffic r.active false),
        refl,
      )
    ]
    client_round-IsPlain r (ping b) sent = (refl, refl)
    client_round-IsPlain r (pong b) sent = (refl, refl)
    client_round-IsPlain r (close f) sent = (refl, refl)
    client_round-IsPlain r (frame f) sent = (refl, refl)

    upstream_round-IsPlain :
        (r : Relay Pending) (m : Message) (sent : Bool)
        → IsPlain (upstream_round ctx r m sent) (from_upstream (message m) sent)
    unfolding upstream_round
    upstream_round-IsPlain r (text t) sent = upstream_text-IsPlain r t sent
    upstream_round-IsPlain r (binary b) sent = (refl, refl)
    upstream_round-IsPlain r (ping b) sent = (refl, refl)
    upstream_round-IsPlain r (pong b) sent = (refl, refl)
    upstream_round-IsPlain r (close f) sent = (refl, refl)
    upstream_round-IsPlain r (frame f) sent = (refl, refl)

    round-IsPlain : (r : Relay Pending) (e : Event) → IsPlain (round ctx r e) e
    unfolding round
    round-IsPlain r (from_client (message m) sent) = client_round-IsPlain r m sent
    round-IsPlain r (from_client failed sent) = (refl, refl)
    round-IsPlain r (from_client ended sent) = (refl, refl)
    round-IsPlain r (from_upstream (message m) sent) = upstream_round-IsPlain r m sent
    round-IsPlain r (from_upstream failed sent) = (refl, refl)
    round-IsPlain r (from_upstream ended sent) = (refl, refl)

    go_on-plain :
        (e : Event) (events : List Event) (o : Round Pending)
        (rest : Relay Pending → Relay Pending × List (Action Pending))
        → ((r : Relay Pending) → filter is_traffic (rest r).1 ≡ plain_relay events)
        → IsPlain o e
        → filter is_traffic (go_on ctx o rest).1 ≡ plain_relay (e ∷ events)
    go_on-plain e events (r, actions, true) rest h (sent, more) =
        rw⁻¹ more (filter-append is_traffic actions (rest r).1 ∙ rw (sent, h r) refl)
    go_on-plain e events (r, actions, false) rest h (sent, more) =
        rw⁻¹ more (sent ∙ sym (append-nil (plain e).0))

    rounds-plain :
        (r : Relay Pending) (events : List Event)
        → filter is_traffic (rounds ctx r events).1 ≡ plain_relay events
    unfolding rounds
    rounds-plain r [] = refl
    rounds-plain r (e ∷ events) =
        go_on-plain e events (round ctx r e) (λ r1. rounds ctx r1 events)
          (λ r1. rounds-plain r1 events) (round-IsPlain r e)

    -- Whatever is captured, the frames that a relay sends and the sides that it flushes and closes are
    -- those of a relay that captures nothing, in the same order.
    pub relay-plain :
        (events : List Event) → filter is_traffic (relay ctx events) ≡ plain_relay events
    unfolding relay
    relay-plain events =
        filter-append is_traffic (rounds ctx new_relay events).1 _
        ∙ ap
            (λ (zs : List (Action Pending)).
              filter is_traffic (rounds ctx new_relay events).1 ++ zs)
            (finish_active-traffic (rounds ctx new_relay events).0.active false)
        ∙ append-nil (filter is_traffic (rounds ctx new_relay events).1)
        ∙ rounds-plain new_relay events
