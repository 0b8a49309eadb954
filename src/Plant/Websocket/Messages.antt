-- ===== src/Plant/Websocket/Messages.antt =====
-- The data of a relay in crates/plant/src/proxy/websocket.rs: messages, what a round selects and does, and
-- the state.
use vaultr.Prelude.{ℕ, Bool, Option, List}
use vaultr.Text.{Text}
use vaultr.Json.{Value}
use vaultr.Recon.Output.{Parse}
use vaultr.Plant.Adapter.{Adapter, Identity, Headers}
use vaultr.Plant.Websocket.Normalize.{RelayHistory}

-- tungstenite::Message: `frame` is what the match calls other.
pub data Message : Type 0 where
  text : Text → Message
  binary ping pong : List ℕ → Message
  close : Option (List ℕ) → Message
  frame : List ℕ → Message

-- The outcome of next().
pub data Received : Type 0 where
  message : Message → Received
  failed ended : Received

-- What one round of the loop selects, and whether the send that it makes succeeds.
pub data Event : Type 0 where
  from_client from_upstream : Received → Bool → Event

-- The time of its start is left out.
pub record CapturedRequest : Type 0 where
  pub method : Text
  pub path : Text
  pub content_encoding : Option Text
  pub body_sha256 : Text
  pub ids : Identity

pub record ActiveTurn (Pending : Type 0) : Type 0 where
  pub pending : Pending
  pub response_headers : Headers
  pub sse : Text

pub record CapturedResponse : Type 0 where
  pub status : ℕ
  pub headers : Headers
  pub complete : Bool
  pub sse : Text

pub data Action (Pending : Type 0) : Type 0 where
  send_upstream send_downstream : Message → Action Pending
  close_upstream close_downstream : Action Pending
  flush_upstream flush_downstream : Action Pending
  prepared : Pending → Action Pending
  finished : Pending → CapturedResponse → Action Pending

pub record Relay (Pending : Type 0) : Type 0 where
  pub active : Option (ActiveTurn Pending)
  pub history : RelayHistory
  pub awaiting_terminal : Bool
  pub capture_disabled : Bool

-- What stays the same in a relay.
pub record Context (Pending : Type 0) : Type 0 where
  pub adapter : Adapter
  pub request_headers : Headers
  pub response_headers : Headers
  pub path : Text
  pub from_str : Parse
  pub from_slice : List ℕ → Option Value
  pub to_vec : Value → List ℕ
  pub to_string : Value → Text
  pub sha256_hex : List ℕ → Text
  pub prepare_capture : CapturedRequest → Value → Option Pending

-- The state behind a round, what it did, and whether the loop goes on.
abbrev pub Round : Type 0 → Type 0
Round Pending = Relay Pending × List (Action Pending) × Bool
