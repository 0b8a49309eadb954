-- ===== src/Plant/Websocket/Normalize/Expanded.antt =====
-- An incremental request against the request that it stands for.
use vaultr.Prelude.{
  ℕ, ◌≡◌, ◌∙◌, refl, ap, Bool, false, Option, none, some, List, [], ◌∷◌, ◌++◌, All, map,
  if◌then◌else◌,
}
use vaultr.Prelude.Map
use vaultr.Text.{Text, chars, text_eq, text_key, text_eq_refl}
use vaultr.Json.{Value, Entries, string, array_of, object_of, and_then, get}
use vaultr.Json.Object.{
  insert, remove, Distinct, get-insert, get-remove, remove-Distinct, entries-of_entries,
  items-of_items,
}
use vaultr.Recon.Output.{Parse}
use vaultr.Plant.Adapter.{Harness, Headers}
use vaultr.Plant.Websocket.Normalize.{
  RelayHistory, NormalizedRequest, warmup_of, all_some, with_turn, full_input, expanded,
  normalize_request, normalized,
}

-- The history behind a request of these fields and the items of its response.
pub record Answered (to_vec : Value → List ℕ) (prior : Entries) (turn : Option Text) (id : Text)
    (answers : List Value) (h : RelayHistory) : Type 0 where
  pub asked : h.request ≡ some (to_vec (object_of prior))
  pub answered : h.response_items ≡ map to_vec answers
  pub identified : h.response_id ≡ some id
  pub in_turn : h.response_turn_id ≡ turn

module _ (from_slice : List ℕ → Option Value) (to_vec : Value → List ℕ) (sha256_hex : List ℕ → Text)
    (from_str : Parse) where
  -- Bytes that are read back as the value they were written for.
  abbrev pub IsReadBack : Value → Type 0
  IsReadBack v = from_slice (to_vec v) ≡ some v

  all_some-decoded :
      (turn : Option Text) (vs : List Value)
      → All IsReadBack vs
      → all_some (
          map
            (λ encoded. and_then (λ item. some (with_turn turn item)) (from_slice encoded))
            (map to_vec vs))
        ≡ some (map (with_turn turn) vs)
  all_some-decoded turn [] back = refl
  all_some-decoded turn (v ∷ vs) back = rw (back.0, all_some-decoded turn vs back.1) refl

  full_input-Answered :
      (prior : Entries) (turn : Option Text) (id : Text) (answers before : List Value)
      (h : RelayHistory)
      → Answered to_vec prior turn id answers h
      → IsReadBack (object_of prior)
      → All IsReadBack answers
      → Map.get (chars "input") prior ≡ some (array_of before)
      → full_input from_slice to_vec sha256_hex from_str h
        ≡ some (before ++ map (with_turn turn) answers)
  unfolding full_input get
  full_input-Answered prior turn id answers before h a p back e =
      rw
        (
          a.asked,
          a.answered,
          a.in_turn,
          p,
          entries-of_entries prior,
          e,
          items-of_items before,
          all_some-decoded turn answers back,
        )
        refl

  get-other :
      (k j : Text) (m : Entries)
      → Distinct m
      → text_eq k j ≡ false
      → Map.get j (remove k m) ≡ Map.get j m
  get-other k j m d e = get-remove k j m d ∙ ap (λ (t : Bool). if t then none else Map.get j m) e

  abbrev without : Entries → Entries
  without fields = remove (chars "generate") (remove (chars "previous_response_id") fields)

  abbrev full_body : List Value → Entries → Entries
  full_body full fields = insert (chars "input") (array_of full) (without fields)

  input-without :
      (fields : Entries) (v : Option Value)
      → Distinct fields
      → Map.get (chars "input") fields ≡ v
      → Map.get (chars "input") (without fields) ≡ v
  input-without fields v d e =
      get-other (chars "generate") (chars "input") (remove (chars "previous_response_id") fields)
        (remove-Distinct (chars "previous_response_id") fields d) (unfold text_eq in refl)
      ∙ get-other (chars "previous_response_id") (chars "input") fields d (unfold text_eq in refl)
      ∙ e

  generate-without :
      (fields : Entries)
      → Distinct fields
      → Map.get (chars "generate") (remove (chars "previous_response_id") fields)
        ≡ Map.get (chars "generate") fields
  generate-without fields d =
      get-other (chars "previous_response_id") (chars "generate") fields d (unfold text_eq in refl)

  no_id-full_body :
      (full : List Value) (fields : Entries)
      → Distinct fields
      → Map.get (chars "previous_response_id") (full_body full fields) ≡ none
  no_id-full_body full fields d =
      get-insert (chars "input") (chars "previous_response_id") (array_of full) (without fields)
      ∙ unfold text_eq in
        (get-other (chars "generate") (chars "previous_response_id")
            (remove (chars "previous_response_id") fields)
            (remove-Distinct (chars "previous_response_id") fields d) refl
          ∙ get-remove (chars "previous_response_id") (chars "previous_response_id") fields d)

  expanded-Answered :
      (prior fields : Entries) (turn : Option Text) (id : Text) (answers before more : List Value)
      (h : RelayHistory)
      → Answered to_vec prior turn id answers h
      → IsReadBack (object_of prior)
      → All IsReadBack answers
      → Map.get (chars "input") prior ≡ some (array_of before)
      → Map.get (chars "input") fields ≡ some (array_of more)
      → expanded from_slice to_vec sha256_hex from_str h (some id) fields
        ≡ some (
            insert
              (chars "input")
              (array_of ((before ++ map (with_turn turn) answers) ++ more))
              fields)
  unfolding expanded
  expanded-Answered prior fields turn id answers before more h a p back b f =
      rw
        (
          a.identified,
          text_eq_refl id,
          full_input-Answered prior turn id answers before h a p back b,
          f,
          items-of_items more,
        )
        refl

  normalized-expanded :
      (harness : Harness) (headers : Headers) (prior fields : Entries) (turn : Option Text)
      (id : Text) (answers before more : List Value) (h : RelayHistory) (warmup : Bool)
      → Answered to_vec prior turn id answers h
      → IsReadBack (object_of prior)
      → All IsReadBack answers
      → Distinct fields
      → Map.get (chars "input") prior ≡ some (array_of before)
      → Map.get (chars "previous_response_id") fields ≡ some (string id)
      → warmup_of (Map.get (chars "generate") fields) ≡ some warmup
      → Map.get (chars "input") fields ≡ some (array_of more)
      → normalize_request from_slice to_vec sha256_hex from_str harness headers h (object_of fields)
        ≡ some (
            normalized from_slice to_vec sha256_hex from_str harness headers warmup
              (object_of (full_body ((before ++ map (with_turn turn) answers) ++ more) fields)))
  unfolding normalize_request
  normalized-expanded harness headers prior fields turn id answers before more h warmup a p back d b
        i g f =
      rw
        (
          entries-of_entries fields,
          i,
          generate-without fields d,
          g,
          expanded-Answered prior (without fields) turn id answers before more h a p back b
              (input-without fields (some (array_of more)) d f),
        )
        refl

  -- A request that names the response before, against a history of a request with an input and of the
  -- items that answered it, all of whose bytes are read back as they were written, becomes a body without that name. Its input is the input before, the answers
  -- with the turn of the request before, and the input of the request.
  pub normalize_request-expanded :
      (harness : Harness) (headers : Headers) (prior fields : Entries) (turn : Option Text)
      (id : Text) (answers before more : List Value) (h : RelayHistory) (warmup : Bool)
      → Answered to_vec prior turn id answers h
      → IsReadBack (object_of prior)
      → All IsReadBack answers
      → Distinct fields
      → Map.get (chars "input") prior ≡ some (array_of before)
      → Map.get (chars "previous_response_id") fields ≡ some (string id)
      → warmup_of (Map.get (chars "generate") fields) ≡ some warmup
      → Map.get (chars "input") fields ≡ some (array_of more)
      → (n : NormalizedRequest) × (normalize_request from_slice to_vec sha256_hex from_str harness
            headers h
            (object_of fields)
          ≡ some n)
        × (get (chars "input") n.body
            ≡ some (array_of ((before ++ map (with_turn turn) answers) ++ more)))
        × (get (chars "previous_response_id") n.body ≡ none)
        × (n.warmup ≡ warmup)
  unfolding get
  normalize_request-expanded harness headers prior fields turn id answers before more h warmup a p
        back d b i g f =
      let full = (before ++ map (with_turn turn) answers) ++ more in
      (
        normalized from_slice to_vec sha256_hex from_str harness headers warmup
            (object_of (full_body full fields)),
        normalized-expanded harness headers prior fields turn id answers before more h warmup a p
            back d b i g f,
        ap (Map.get (chars "input")) (entries-of_entries (full_body full fields))
            ∙ get-insert (chars "input") (chars "input") (array_of full) (without fields)
            ∙ unfold text_eq in refl,
        ap (Map.get (chars "previous_response_id")) (entries-of_entries (full_body full fields))
            ∙ no_id-full_body full fields d,
        refl,
      )
