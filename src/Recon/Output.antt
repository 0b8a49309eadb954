-- ===== src/Recon/Output.antt =====
-- What a response adds to the history: `extract_response_output` and its parts in
-- crates/vaultr/src/recon.rs. `serde_json::from_str` is a parameter. None is the panic of `block[field] =`
-- on a block that is neither an object nor null.
use vaultr.Prelude.{
  ℕ, zero, suc, Bool, true, false, not, ◌&&◌, Option, none, some, List, [], ◌∷◌, ◌++◌, any, filter,
  find, map, is_empty, if◌then◌else◌,
}
use mathlib.Core.List.{reverse}
use vaultr.Text.{Text, chars, text_eq, text_key, lines, trim, strip_prefix}
use vaultr.Json.{
  Value, null, string, object, entries, array_of, object_of, as_array, as_bool, as_str, as_u64,
  and_then, get, pointer, str_at, has_type,
}
use vaultr.Json.Object.{insert, remove}
use vaultr.Recon.Delta.{or_else}

-- crate::recon::Harness
pub data Harness : Type 0 where
  claude codex : Harness

abbrev pub Parse : Type 0
Parse = Text → Option Value

abbrev pub push_some {ℓ} : {A : Type ℓ} → Option A → List A → List A
push_some none xs = xs
push_some (some x) xs = x ∷ xs

abbrev pub filter_map {ℓ κ} : {A : Type ℓ} {B : Type κ} → (A → Option B) → List A → List B
filter_map f [] = []
filter_map f (x ∷ xs) = push_some (f x) (filter_map f xs)

abbrev is_data : Text → Bool
is_data d = not (is_empty d) && not (text_eq d (chars "[DONE]"))

unfoldable pub parse_sse : Parse → Text → List Value
parse_sse from_str sse =
    filter_map from_str
      (filter is_data (map trim (filter_map (strip_prefix (chars "data:")) (lines sse))))

-- block[field] = v
unfoldable pub set_field : Text → Value → Value → Option Value
set_field field v (object fs) = some (object_of (insert field v (entries fs)))
set_field field v null = some (object_of ((field, v) ∷ []))
set_field field v _ = none

abbrev appended : Text → Value → Option Text → Option Value
appended field block none = some block
appended field block (some add) =
    set_field field (string (or_else [] (str_at field block) ++ add)) block

unfoldable pub append_str : Value → Text → Option Value → Option Value
unfolding set_field
append_str block field addition = appended field block (and_then as_str addition)

-- The field that a delta grows, by its type.
unfoldable pub delta_field : Option Text → Option Text
delta_field none = none
delta_field (some t) =
    if text_eq t (chars "text_delta")
    then some (chars "text")
    else if text_eq t (chars "thinking_delta")
    then some (chars "thinking")
    else if text_eq t (chars "signature_delta")
    then some (chars "signature")
    else if text_eq t (chars "input_json_delta")
    then some (chars "partial_json")
    else none

abbrev grown : Value → Value → Option Text → Option Value
grown block delta none = some block
grown block delta (some field) = append_str block field (get field delta)

abbrev before : Value → Option (List Value) → Option (List Value)
before v none = none
before v (some vs) = some (v ∷ vs)

-- blocks.get_mut(idx): nothing is done where there is no such block.
unfoldable pub update_at : (Value → Option Value) → ℕ → List Value → Option (List Value)
update_at f i [] = some []
update_at f zero (v ∷ vs) = and_then (λ w. some (w ∷ vs)) (f v)
update_at f (suc i) (v ∷ vs) = before v (update_at f i vs)

abbrev with_delta : List Value → Option ℕ → Option Value → Option (List Value)
with_delta blocks (some index) (some delta) =
    update_at (λ block. grown block delta (delta_field (str_at (chars "type") delta))) index blocks
with_delta blocks _ _ = some blocks

-- One event of the stream.
unfoldable pub grow_blocks : List Value → Value → Option (List Value)
unfolding append_str delta_field update_at
grow_blocks blocks e =
    if has_type (chars "content_block_start") e
    then some (blocks ++ push_some (get (chars "content_block") e) [])
    else if has_type (chars "content_block_delta") e
    then with_delta blocks (and_then as_u64 (get (chars "index") e)) (get (chars "delta") e)
    else some blocks

unfoldable pub all_blocks : List Value → List Value → Option (List Value)
unfolding grow_blocks
all_blocks blocks [] = some blocks
all_blocks blocks (e ∷ events) = and_then (λ bs. all_blocks bs events) (grow_blocks blocks e)

abbrev with_input : Value → Option Value → Value
with_input (object fs) (some input) = object_of (insert (chars "input") input (entries fs))
with_input b _ = b

abbrev without_partial : Value → Value
without_partial (object fs) = object_of (remove (chars "partial_json") (entries fs))
without_partial b = b

-- A tool_use block gets its parsed input.
unfoldable pub finish_block : Parse → Value → Value
finish_block from_str b =
    if has_type (chars "tool_use") b
    then without_partial (with_input b (and_then from_str (str_at (chars "partial_json") b)))
    else b

abbrev assistant : List Value → List Value
assistant blocks =
    if is_empty blocks
    then []
    else object_of
        ((chars "role", string (chars "assistant")) ∷ (chars "content", array_of blocks) ∷ [])
      ∷ []

unfoldable pub anthropic_output : Parse → List Value → Option (List Value)
unfolding all_blocks finish_block
anthropic_output from_str events =
    if any (has_type (chars "message_stop")) events
    then and_then (λ bs. some (assistant (map (finish_block from_str) bs))) (all_blocks [] events)
    else some []

unfoldable pub codex_output : List Value → List Value
codex_output events =
    let done =
      filter_map (get (chars "item"))
        (filter (has_type (chars "response.output_item.done")) events) in
    if is_empty done
    then or_else [] (
        and_then as_array (
          and_then (pointer (chars "response" ∷ chars "output" ∷ []))
            (find (has_type (chars "response.completed")) (reverse events))))
    else done

-- The events of a response, if it carries any.
abbrev events_of : Parse → Value → Option (List Value)
events_of from_str resp = choose (and_then as_array (get (chars "events") resp))
  where
    choose : Option (List Value) → Option (List Value)
    choose (some events) = some events
    choose none = and_then (λ sse. some (parse_sse from_str sse)) (str_at (chars "sse") resp)

abbrev output_of : Parse → Option Harness → Option (List Value) → Option (List Value)
output_of from_str harness none = some []
output_of from_str (some codex) (some events) = some (codex_output events)
output_of from_str _ (some events) = anthropic_output from_str events

abbrev is_true : Option Bool → Bool
is_true (some true) = true
is_true _ = false

abbrev of_response : Parse → Option Harness → Option Value → Option (List Value)
of_response from_str harness none = some []
of_response from_str harness (some resp) =
    if is_true (and_then as_bool (get (chars "complete") resp))
    then output_of from_str harness (events_of from_str resp)
    else some []

unfoldable pub extract_response_output : Parse → Value → Option Harness → Option (List Value)
unfolding parse_sse codex_output anthropic_output
extract_response_output from_str env harness =
    of_response from_str harness (get (chars "response") env)
