-- ===== src/Recon/Replay.antt =====
-- `ReconState` of crates/vaultr/src/recon.rs: the envelopes of a capture, applied one after another.
pub mod Lineage
pub mod Labels
use vaultr.Prelude.{
  ℕ, suc, Bool, true, false, not, ◌&&◌, Option, none, some, List, [], ◌∷◌, ◌++◌, length, map,
  if◌then◌else◌,
}
use vaultr.Text.{Text, chars, text_eq}
use vaultr.Json.{Value, Entries, string, object, entries, object_of, and_then, get, pointer, str_at}
use vaultr.Json.Object.{insert}
use vaultr.Recon.Delta.{State, apply_delta, or_else}
use vaultr.Recon.Output.{Harness, claude, codex, Parse, extract_response_output}

-- Harness::from_label
unfoldable pub from_label : Text → Option Harness
from_label label =
    if text_eq label (chars "codex")
    then some codex
    else if text_eq label (chars "claude-code")
    then some claude
    else if text_eq label (chars "claude")
    then some claude
    else none

pub data HarnessState : Type 0 where
  unknown provisional_codex : HarnessState
  explicit : Harness → HarnessState

unfoldable pub value : HarnessState → Option Harness
value unknown = none
value provisional_codex = some codex
value (explicit harness) = some harness

abbrev pub is_same : Harness → Harness → Bool
is_same claude claude = true
is_same codex codex = true
is_same _ _ = false

-- The match on the state, the envelope's label and the history key.
unfoldable pub next_harness : HarnessState → Option Harness → Bool → Option HarnessState
next_harness (explicit first) (some next) codex_key =
    if is_same first next then some (explicit next) else none
next_harness _ (some harness) codex_key = some (explicit harness)
next_harness unknown none true = some provisional_codex
next_harness state none _ = some state

pub record ReconState : Type 0 where
  pub msgs : List Value
  pub hash_dict : Entries
  pub key : Text
  pub harness : HarnessState
  pub trailing : List Value
  pub envelopes : ℕ

abbrev pub new : ReconState
new = record {
  msgs = [];
  hash_dict = [];
  key = chars "messages";
  harness = unknown;
  trailing = [];
  envelopes = 0;
}

unfoldable pub label_of : Value → Option Harness
label_of env = and_then from_label (str_at (chars "harness") env)

unfoldable pub history_of : Value → Option Value
history_of env = pointer (chars "request" ∷ chars "body_delta" ∷ chars "history" ∷ []) env

abbrev pub is_input : Option Text → Bool
is_input none = false
is_input (some k) = text_eq k (chars "input")

abbrev pub key_of : Option Value → Option Text
key_of history = and_then (str_at (chars "key")) history

-- The history behind an envelope's delta, if it has one.
unfoldable pub replay : Option Value → State → Option State
replay none s = some s
replay (some h) s = apply_delta h s

abbrev pub passthrough : Text → Entries → Value
passthrough turn_id es = object_of (
    insert (chars "internal_chat_message_metadata_passthrough")
      (object_of ((chars "turn_id", string turn_id) ∷ [])) es)

abbrev pub stamped : Text → Value → Value
stamped turn_id (object fs) = passthrough turn_id (entries fs)
stamped turn_id item = item

-- Codex items get the turn they belong to.
unfoldable pub stamp : Option Harness → Option Text → List Value → List Value
stamp (some codex) (some turn_id) items = map (stamped turn_id) items
stamp _ _ items = items

unfoldable pub apply : Parse → Value → ReconState → Option ReconState
apply from_str env s =
    let history = history_of env in
    and_then
      (λ (harness : HarnessState).
        and_then
          (λ (replayed : State).
            and_then
              (λ (out : List Value). some (record {
                msgs = replayed.0;
                hash_dict = replayed.1;
                key = or_else s.key (key_of history);
                harness = harness;
                trailing = stamp (value harness) (str_at (chars "turn_id") env) out;
                envelopes = suc s.envelopes;
              }))
              (extract_response_output from_str env (value harness)))
          (replay history (s.msgs, s.hash_dict)))
      (next_harness s.harness (label_of env) (is_input (key_of history)))

unfoldable pub apply_all : Parse → List Value → ReconState → Option ReconState
apply_all from_str [] s = some s
apply_all from_str (env ∷ envs) s = and_then (apply_all from_str envs) (apply from_str env s)

pub record Recon : Type 0 where
  pub key : Text
  pub harness : Option Harness
  pub history_len : ℕ
  pub messages : List Value
  pub trailing_appended : ℕ
  pub envelopes : ℕ

unfoldable pub finish : ReconState → Recon
unfolding value
finish s = record {
  key = s.key;
  harness = value s.harness;
  history_len = length s.msgs;
  messages = s.msgs ++ s.trailing;
  trailing_appended = length s.trailing;
  envelopes = s.envelopes;
}
