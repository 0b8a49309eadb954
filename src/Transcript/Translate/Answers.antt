-- ===== src/Transcript/Translate/Answers.antt =====
-- The calls and the outputs of a transcript for Codex.
use vaultr.Prelude.{
  ℕ, suc, ◌≡◌, ◌∙◌, refl, ap, sym, subst, Bool, true, false, ◌||◌, Option, none, some, List, [],
  ◌∷◌, ◌++◌, All, if◌then◌else◌,
}
use mathlib.Core.List.{append-nil}
use mathlib.Core.Option.{none-ne-some}
use vaultr.Prelude.Map
use vaultr.Text.{Text, chars, text_eq, text_key, text_eq_refl}
use vaultr.Json.{Value, str_at, has_type, get, entries, of_entries}
use vaultr.Recon.Delta.{is_one_of}
use vaultr.Recon.Delta.Prefix.{is_one_of-append}
use vaultr.Recon.Output.{push_some, filter_map}
use vaultr.Transcript.{Role, Block, text, image, tool_use, tool_result, Message}
use vaultr.Transcript.Tools.{claude_to_codex}
use vaultr.Transcript.Translate.{
  Ids, id_of, Codex, message_item, flushed, codex_call, function_call, function_call_output,
  codex_use, codex_result, codex_block, codex_blocks, codex_messages, flush_all, to_codex,
  valid_correlation,
}

-- The id of an item of this type.
abbrev pub id_for : Text → Value → Option Text
id_for kind v = if has_type kind v then str_at (chars "call_id") v else none

-- The ids of the calls among the items.
abbrev pub call_ids : List Value → List Text
call_ids items = filter_map (id_for (chars "function_call")) items

-- Each output stands behind a call with its id.
pub data InOrder : List Value → Type 0 where
  no_items : InOrder []
  add_item :
      {items : List Value} (v : Value)
      → InOrder items
      → id_for (chars "function_call_output") v ≡ none
      → InOrder (items ++ (v ∷ []))
  add_output :
      {items : List Value} (v : Value) (id : Text)
      → InOrder items
      → id_for (chars "function_call_output") v ≡ some id
      → is_one_of (call_ids items) id ≡ true
      → InOrder (items ++ (v ∷ []))

-- The ids that are given are those of calls.
pub record IsAnswerable (out : List Value) (ids : Ids) : Type 0 where
  pub in_order : InOrder out
  pub called : All (λ entry. is_one_of (call_ids out) entry.1 ≡ true) ids.0

call_ids-append : (xs ys : List Value) → call_ids (xs ++ ys) ≡ call_ids xs ++ call_ids ys
call_ids-append [] ys = refl
call_ids-append (x ∷ xs) ys =
    ap (push_some (id_for (chars "function_call") x)) (call_ids-append xs ys)
    ∙ push_some-append (id_for (chars "function_call") x) (call_ids xs) (call_ids ys)
  where
    push_some-append :
        (o : Option Text) (ps qs : List Text) → push_some o (ps ++ qs) ≡ push_some o ps ++ qs
    push_some-append none ps qs = refl
    push_some-append (some a) ps qs = refl

abbrev Called : List Value → Text × Text → Type 0
Called out entry = is_one_of (call_ids out) entry.1 ≡ true

later-Called :
    (out more : List Value) (given : List (Text × Text))
    → All (Called out) given
    → All (Called (out ++ more)) given
later-Called out more [] a = tt
later-Called out more (e ∷ given) a = (
  ap (λ (ids : List Text). is_one_of ids e.1) (call_ids-append out more)
      ∙ is_one_of-append e.1 (call_ids out) (call_ids more) a.0,
  later-Called out more given a.1,
)

is_one_of-last : (ids : List Text) (id : Text) → is_one_of (ids ++ (id ∷ [])) id ≡ true
is_one_of-last [] id = rw (text_eq_refl id) refl
is_one_of-last (i ∷ ids) id = rw (is_one_of-last ids id) (or_true (text_eq id i))
  where
    or_true : (b : Bool) → (b || true) ≡ true
    or_true true = refl
    or_true false = refl

module _ (to_string : Value → Text) (uuid : ℕ → Text) (valid : Text → Bool) where
  message-id :
      (role : Role) (texts : List Value)
      → id_for (chars "function_call_output") (message_item to_string uuid valid role texts) ≡ none
  unfolding get entries of_entries Map.get text_eq
  message-id role texts = refl

  call-no_output :
      (mapped call_id : Text) (input : Value)
      → id_for
          (chars "function_call_output")
          (function_call to_string uuid valid mapped input call_id)
        ≡ none
  unfolding get entries of_entries Map.get text_eq
  call-no_output mapped call_id input = refl

  call-id :
      (mapped call_id : Text) (input : Value)
      → id_for (chars "function_call") (function_call to_string uuid valid mapped input call_id)
        ≡ some call_id
  unfolding get entries of_entries Map.get text_eq
  call-id mapped call_id input = refl

  output-id :
      (content call_id : Text)
      → id_for
          (chars "function_call_output")
          (function_call_output to_string uuid valid content call_id)
        ≡ some call_id
  unfolding get entries of_entries Map.get text_eq
  output-id content call_id = refl

  flushed-IsAnswerable :
      (role : Role) (texts out : List Value) (ids : Ids)
      → IsAnswerable out ids
      → IsAnswerable (out ++ flushed to_string uuid valid role texts) ids
  flushed-IsAnswerable role [] out ids a =
      subst (λ (vs : List Value). IsAnswerable vs ids) (sym (append-nil out)) a
  flushed-IsAnswerable role (t ∷ texts) out ids a = record {
    in_order = add_item _ a.in_order (message-id role (t ∷ texts));
    called = later-Called out _ ids.0 a.called;
  }

  new_call-Called :
      (out : List Value) (mapped call_id : Text) (input : Value)
      → is_one_of
          (call_ids (out ++ (function_call to_string uuid valid mapped input call_id ∷ [])))
          call_id
        ≡ true
  new_call-Called out mapped call_id input =
      ap (λ (ids : List Text). is_one_of ids call_id)
        (call_ids-append out (function_call to_string uuid valid mapped input call_id ∷ [])
          ∙ ap (λ (o : Option Text). call_ids out ++ push_some o []) (call-id mapped call_id input))
      ∙ is_one_of-last (call_ids out) call_id

  call-IsAnswerable :
      (out : List Value) (ids : Ids) (source mapped call_id : Text) (input : Value) (n : ℕ)
      → IsAnswerable out ids
      → IsAnswerable
          (out ++ (function_call to_string uuid valid mapped input call_id ∷ []))
          (Map.insert source call_id ids.0, n)
  unfolding Map.insert
  call-IsAnswerable out ids source mapped call_id input n a = record {
    in_order = add_item _ a.in_order (call-no_output mapped call_id input);
    called = (
      new_call-Called out mapped call_id input,
      Map.All-remove _ source ids.0 (later-Called out _ ids.0 a.called),
    );
  }

  output-IsAnswerable :
      (out : List Value) (ids : Ids) (content id : Text)
      → is_one_of (call_ids out) id ≡ true
      → IsAnswerable out ids
      → IsAnswerable (out ++ (function_call_output to_string uuid valid content id ∷ [])) ids
  output-IsAnswerable out ids content id c a = record {
    in_order = add_output _ id a.in_order (output-id content id) c;
    called = later-Called out _ ids.0 a.called;
  }

  -- What holds of the state between blocks.
  abbrev IsAnswering : Codex to_string uuid valid → Type 0
  IsAnswering (texts, out, ids) = IsAnswerable out ids

  codex_use-IsAnswering :
      (role : Role) (name : Text) (input : Value) (o : Option (Text × Text))
      (s : Codex to_string uuid valid)
      → IsAnswering s
      → IsAnswering (codex_use to_string uuid valid role name input o s)
  codex_use-IsAnswering role name input none (texts, out, ids) a = a
  codex_use-IsAnswering role name input (some (source, mapped)) (texts, out, (given, n)) a =
      call-IsAnswerable (out ++ flushed to_string uuid valid role texts) (given, n) source mapped
        (chars "call_" ++ uuid n) input (suc n) (flushed-IsAnswerable role texts out (given, n) a)

  codex_result-IsAnswering :
      (role : Role) (content : Text) (o : Option Text) (s : Codex to_string uuid valid)
      → ((id : Text) → o ≡ some id → is_one_of (call_ids s.1) id ≡ true)
      → IsAnswering s
      → IsAnswering (codex_result to_string uuid valid role content o s)
  codex_result-IsAnswering role content none (texts, out, ids) c a = a
  codex_result-IsAnswering role content (some id) (texts, out, ids) c a =
      (output-IsAnswerable (out ++ flushed to_string uuid valid role texts) ids content id
        (ap (λ (called : List Text). is_one_of called id) (call_ids-append out _)
          ∙ is_one_of-append id (call_ids out) _ (c id refl))
        (flushed-IsAnswerable role texts out ids a))

  id_of-Called :
      (source : Option Text) (out : List Value) (ids : Ids) (id : Text)
      → All (Called out) ids.0
      → id_of source ids ≡ some id
      → is_one_of (call_ids out) id ≡ true
  id_of-Called none out ids id a e = absurd (none-ne-some id e)
  id_of-Called (some source) out (given, n) id a e = Map.All-get (Called out) source id given a e

  codex_block-IsAnswering :
      (role : Role) (b : Block) (s : Codex to_string uuid valid)
      → IsAnswering s
      → IsAnswering (codex_block to_string uuid valid role b s)
  unfolding codex_block
  codex_block-IsAnswering role (text t) (texts, out, ids) a = a
  codex_block-IsAnswering role image (texts, out, ids) a = a
  codex_block-IsAnswering role (tool_use name input source) s a =
      codex_use-IsAnswering role name input
        (codex_call to_string uuid valid source (claude_to_codex name)) s a
  codex_block-IsAnswering role (tool_result content source) (texts, out, ids) a =
      codex_result-IsAnswering role content (id_of source ids) (texts, out, ids)
        (λ id e. id_of-Called source out ids id a.called e) a

  codex_blocks-IsAnswering :
      (role : Role) (bs : List Block) (s : Codex to_string uuid valid)
      → IsAnswering s
      → IsAnswering (codex_blocks to_string uuid valid role bs s)
  unfolding codex_blocks
  codex_blocks-IsAnswering role [] s a = a
  codex_blocks-IsAnswering role (b ∷ bs) s a =
      codex_blocks-IsAnswering role bs (codex_block to_string uuid valid role b s)
        (codex_block-IsAnswering role b s a)

  codex_messages-IsAnswering :
      (ms : List Message) (s : Codex to_string uuid valid)
      → IsAnswering s
      → IsAnswering (codex_messages to_string uuid valid ms s)
  unfolding codex_messages
  codex_messages-IsAnswering [] s a = a
  codex_messages-IsAnswering (m ∷ ms) s a =
      codex_messages-IsAnswering ms
        (flush_all to_string uuid valid m.role
          (codex_blocks to_string uuid valid m.role m.blocks s))
        (flush_all-IsAnswering m.role (codex_blocks to_string uuid valid m.role m.blocks s)
          (codex_blocks-IsAnswering m.role m.blocks s a))
    where
      flush_all-IsAnswering :
          (role : Role) (t : Codex to_string uuid valid)
          → IsAnswering t
          → IsAnswering (flush_all to_string uuid valid role t)
      flush_all-IsAnswering role (texts, out, ids) b = flushed-IsAnswerable role texts out ids b

-- In a transcript that is translated for Codex, each output of a function call stands behind a call with
-- the same id.
pub to_codex-InOrder :
    (to_string : Value → Text) (uuid : ℕ → Text) (messages : List Message)
    → InOrder (to_codex to_string uuid messages)
unfolding to_codex
to_codex-InOrder to_string uuid messages =
    (codex_messages-IsAnswering to_string uuid (valid_correlation messages) messages
      ([], [], ([], 0)) record { in_order = no_items; called = tt }).in_order
