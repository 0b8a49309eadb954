-- ===== src/Transcript/Translate.antt =====
-- crates/vaultr/src/translate.rs: transcripts in the wire format of another harness. The uuids are a
-- sequence, whose position is part of the state; the printer of serde_json is a parameter.
pub mod Answers
use vaultr.Prelude.{
  ℕ, suc, Bool, true, false, not, ◌&&◌, Option, none, some, List, [], ◌∷◌, ◌++◌, is_empty, map,
  if◌then◌else◌,
}
use mathlib.Core.List.{reverse}
use vaultr.Prelude.Map
use vaultr.Text.{Text, chars, text_eq, text_key}
use vaultr.Json.{
  Value, null, string, array, object, items, array_of, object_of, as_str, and_then, get,
}
use vaultr.Recon.Delta.{or_else, first_of}
use vaultr.Transcript.{Role, user, assistant, Block, text, image, tool_use, tool_result, Message}
use vaultr.Transcript.Tools.{codex_to_claude, claude_to_codex}

abbrev same_id : Text → Option Text → Bool
same_id id none = false
same_id id (some other) = text_eq other id

-- Whether a block with this id is a use.
unfoldable pub occurrence : Text → Block → List Bool
occurrence id (tool_use name input correlation_id) =
    if same_id id correlation_id then true ∷ [] else []
occurrence id (tool_result content correlation_id) =
    if same_id id correlation_id then false ∷ [] else []
occurrence id _ = []

abbrev block_occurrences : Text → List Block → List Bool
block_occurrences id [] = []
block_occurrences id (b ∷ bs) = occurrence id b ++ block_occurrences id bs

unfoldable pub occurrences : Text → List Message → List Bool
unfolding occurrence
occurrences id [] = []
occurrences id (m ∷ ms) = block_occurrences id m.blocks ++ occurrences id ms

abbrev is_use_then_result : List Bool → Bool
is_use_then_result (true ∷ false ∷ []) = true
is_use_then_result _ = false

-- Membership in the set of valid correlations.
unfoldable pub valid_correlation : List Message → Text → Bool
valid_correlation messages id = not (is_empty id) && is_use_then_result (occurrences id messages)

abbrev last_text : List Value → Option Text
last_text [] = none
last_text (v ∷ []) = as_str v
last_text (v ∷ w ∷ vs) = last_text (w ∷ vs)

abbrev command_text : Value → Option Text
command_text (string s) = some s
command_text (array vs) = last_text (items vs)
command_text _ = none

unfoldable pub adapt_input_to_claude : Text → Value → Value
adapt_input_to_claude mapped input =
    if text_eq mapped (chars "Bash")
    then with_command (
        command_text
          (or_else null (first_of (get (chars "command") input) (get (chars "cmd") input))))
    else input
  where
    with_command : Option Text → Value
    with_command none = input
    with_command (some t) = object_of ((chars "command", string t) ∷ [])

abbrev is_object : Value → Bool
is_object (object fs) = true
is_object _ = false

abbrev pub typed_text : Text → Text → Value
typed_text kind t = object_of ((chars "type", string kind) ∷ (chars "text", string t) ∷ [])

abbrev pub tool_result_text : Text → Text
tool_result_text content = chars "[tool result]\n" ++ content

-- The ids that uses have been given, and how many uuids were drawn.
abbrev pub Ids : Type 0
Ids = List (Text × Text) × ℕ

abbrev pub id_of : Option Text → Ids → Option Text
id_of none ids = none
id_of (some source) (given, n) = Map.get source given

module _ (to_string : Value → Text) (uuid : ℕ → Text) where
  unfoldable pub tool_use_text : Text → Value → Text
  tool_use_text name input =
      chars "[tool call: " ++ name ++ chars "(" ++ to_string input ++ chars ")]"

  abbrev pub give_id : Text → Text → Ids → Ids
  give_id prefix source (given, n) = (Map.insert source (prefix ++ uuid n) given, suc n)

  module _ (valid : Text → Bool) where
    -- A use that Claude can take: the source's id, the tool's name, and an input that is an object.
    abbrev claude_call : Option Text → Option Text → Value → Option (Text × Text × Value)
    claude_call (some source) (some mapped) input =
        let adapted = adapt_input_to_claude mapped input in
        if valid source && is_object adapted then some (source, mapped, adapted) else none
    claude_call _ _ input = none

    abbrev claude_use : Text → Value → Option (Text × Text × Value) → Ids → Value × Ids
    claude_use name input none ids = (typed_text (chars "text") (tool_use_text name input), ids)
    claude_use name input (some (source, mapped, adapted)) ids = (
      object_of (
          (chars "type", string (chars "tool_use"))
          ∷ (chars "id", string (chars "toolu_" ++ uuid ids.1))
          ∷ (chars "name", string mapped)
          ∷ (chars "input", adapted)
          ∷ []),
      give_id (chars "toolu_") source ids,
    )

    abbrev claude_result : Text → Option Text → Value
    claude_result content none = typed_text (chars "text") (tool_result_text content)
    claude_result content (some id) = object_of (
        (chars "type", string (chars "tool_result"))
        ∷ (chars "tool_use_id", string id)
        ∷ (chars "content", string content)
        ∷ [])

    unfoldable pub claude_block : Block → Ids → Value × Ids
    unfolding tool_use_text
    claude_block (text t) ids = (typed_text (chars "text") t, ids)
    claude_block image ids = (typed_text (chars "text") (chars "[image]"), ids)
    claude_block (tool_use name input correlation_id) ids =
        claude_use name input (claude_call correlation_id (codex_to_claude name) input) ids
    claude_block (tool_result content correlation_id) ids =
        (claude_result content (id_of correlation_id ids), ids)

    unfoldable pub claude_blocks : List Block → Ids → List Value × Ids
    claude_blocks [] ids = ([], ids)
    claude_blocks (b ∷ bs) ids =
        let (v, later) = claude_block b ids in
        ((v ∷ (claude_blocks bs later).0), (claude_blocks bs later).1)

    abbrev role_name : Role → Text
    role_name user = chars "user"
    role_name assistant = chars "assistant"

    abbrev claude_message : Role → List Value → List Value
    claude_message role blocks =
        if is_empty blocks
        then []
        else object_of
            ((chars "role", string (role_name role)) ∷ (chars "content", array_of blocks) ∷ [])
          ∷ []

    unfoldable pub claude_messages : List Message → Ids → List Value
    claude_messages [] ids = []
    claude_messages (m ∷ ms) ids =
        let (blocks, later) = claude_blocks m.blocks ids in
        claude_message m.role blocks ++ claude_messages ms later

    -- The texts that are not flushed yet, the items, and the ids.
    abbrev pub Codex : Type 0
    Codex = List Value × List Value × Ids

    abbrev text_type : Role → Text
    text_type user = chars "input_text"
    text_type assistant = chars "output_text"

    abbrev pub message_item : Role → List Value → Value
    message_item role texts = object_of (
        (chars "type", string (chars "message"))
        ∷ (chars "role", string (role_name role))
        ∷ (chars "content", array_of texts)
        ∷ [])

    abbrev pub flushed : Role → List Value → List Value
    flushed role [] = []
    flushed role (t ∷ texts) = message_item role (t ∷ texts) ∷ []

    abbrev pub push_text : Role → Text → Codex → Codex
    push_text role t (texts, out, ids) = (texts ++ (typed_text (text_type role) t ∷ []), out, ids)

    abbrev pub push_item : Role → Value → Ids → Codex → Codex
    push_item role item ids (texts, out, _) = ([], out ++ flushed role texts ++ (item ∷ []), ids)

    -- A use that Codex can take: the source's id and the tool's name.
    abbrev pub codex_call : Option Text → Option Text → Option (Text × Text)
    codex_call (some source) (some mapped) = if valid source then some (source, mapped) else none
    codex_call _ _ = none

    abbrev pub function_call : Text → Value → Text → Value
    function_call mapped input call_id = object_of (
        (chars "type", string (chars "function_call"))
        ∷ (chars "name", string mapped)
        ∷ (chars "arguments", string (to_string input))
        ∷ (chars "call_id", string call_id)
        ∷ [])

    abbrev pub function_call_output : Text → Text → Value
    function_call_output content call_id = object_of (
        (chars "type", string (chars "function_call_output"))
        ∷ (chars "call_id", string call_id)
        ∷ (chars "output", array_of (typed_text (chars "input_text") content ∷ []))
        ∷ [])

    abbrev pub codex_use : Role → Text → Value → Option (Text × Text) → Codex → Codex
    codex_use role name input none s = push_text role (tool_use_text name input) s
    codex_use role name input (some (source, mapped)) s =
        push_item role (function_call mapped input (chars "call_" ++ uuid s.2.1))
          (give_id (chars "call_") source s.2) s

    abbrev pub codex_result : Role → Text → Option Text → Codex → Codex
    codex_result role content none s = push_text role (tool_result_text content) s
    codex_result role content (some id) s = push_item role (function_call_output content id) s.2 s

    unfoldable pub codex_block : Role → Block → Codex → Codex
    unfolding tool_use_text
    codex_block role (text t) s = push_text role t s
    codex_block role image s = push_text role (chars "[image]") s
    codex_block role (tool_use name input correlation_id) s =
        codex_use role name input (codex_call correlation_id (claude_to_codex name)) s
    codex_block role (tool_result content correlation_id) s =
        codex_result role content (id_of correlation_id s.2) s

    unfoldable pub codex_blocks : Role → List Block → Codex → Codex
    codex_blocks role [] s = s
    codex_blocks role (b ∷ bs) s = codex_blocks role bs (codex_block role b s)

    abbrev pub flush_all : Role → Codex → Codex
    flush_all role (texts, out, ids) = ([], out ++ flushed role texts, ids)

    unfoldable pub codex_messages : List Message → Codex → Codex
    codex_messages [] s = s
    codex_messages (m ∷ ms) s =
        codex_messages ms (flush_all m.role (codex_blocks m.role m.blocks s))

  unfoldable pub to_anthropic : List Message → List Value
  unfolding claude_blocks claude_messages
  to_anthropic messages = claude_messages (valid_correlation messages) messages ([], 0)

  unfoldable pub to_codex : List Message → List Value
  to_codex messages = (codex_messages (valid_correlation messages) messages ([], [], ([], 0))).1
