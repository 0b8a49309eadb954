-- ===== src/Examples/Recons.antt =====
-- Bodies, deltas, envelopes and the files of a capture.
use vaultr.Prelude.{
  ℕ, ◌≡◌, refl, true, false, arith, Option, none, some, List, [], ◌∷◌, ◌++◌, All, if◌then◌else◌,
}
use vaultr.Prelude.Map
use vaultr.Text.{Text, chars, text_eq, text_key}
use vaultr.Json.{
  Value, Entries, unsigned, number, string, null, array_of, object_of, get, entries, of_entries,
  pointer,
}
use vaultr.Json.Object.{Distinct}
use vaultr.Recon.Delta.{encode_delta, apply_body, history_in}
use vaultr.Recon.Delta.Prefix.{Agree}
use vaultr.Recon.Delta.RoundTrip.{SameField, apply_body-encode_delta}
use vaultr.Recon.Output.{codex, Parse, extract_response_output}
use vaultr.Recon.Replay.{new, from_label, label_of, history_of, apply_all, ReconState}
use vaultr.Recon.Replay.Lineage.{
  Recorded, last_body, next_body, Readable, Follows, apply_all-Follows,
}
use vaultr.Recon.Replay.Labels.{IsLabelled, apply_all-IsLabelled}
use vaultr.Recon.Records.{
  Stream, Detached, is_ascii_whitespace, skip_whitespace, sealed, live_raw, run_segment,
  visit_snapshot, has_residue, trim_record,
}
use vaultr.Recon.Records.Whole.{terminated}
use vaultr.Recon.Records.Fragment.{last_byte, run_segment-unterminated}
use vaultr.Recon.Records.Snapshots.{snapshot_of, detached_of, visit_snapshot-published}

abbrev key : Text
key = chars "m"

abbrev small : ℕ → Value
small n = number (unsigned n)

abbrev first_turns : List Value
first_turns = small 1 ∷ small 2 ∷ []

abbrev next_turns : List Value
next_turns = small 1 ∷ small 3 ∷ small 4 ∷ []

abbrev prior_body : Entries
prior_body = (chars "a", null) ∷ (key, array_of first_turns) ∷ (chars "b", null) ∷ []

abbrev next_body_fields : Entries
next_body_fields = (chars "a", null) ∷ (key, array_of next_turns) ∷ []

prior_body-Distinct : Distinct prior_body
unfolding Map.get text_eq
prior_body-Distinct = (refl, (refl, (refl, tt)))

next_body-Distinct : Distinct next_body_fields
unfolding Map.get text_eq
next_body-Distinct = (refl, (refl, tt))

history_here : Map.get key next_body_fields ≡ some (array_of next_turns)
unfolding Map.get text_eq
history_here = refl

apply_body-encode_delta_example :
    (out : Entries) × (msgs : List Value) × (apply_body
        (object_of prior_body)
        (encode_delta (object_of prior_body) (object_of next_body_fields) key (chars "a" ∷ []))
        key
      ≡ some (object_of out))
    × (Map.get key out ≡ some (array_of msgs))
    × Agree msgs next_turns
    × ((j : Text) → text_eq j key ≡ false → SameField (Map.get j out) (Map.get j next_body_fields))
apply_body-encode_delta_example =
    apply_body-encode_delta key (chars "a" ∷ []) prior_body next_body_fields next_turns
      prior_body-Distinct next_body-Distinct history_here

-- Two envelopes of one capture.
abbrev empty_body : Value
empty_body = object_of []

abbrev body_of : List Value → Value
body_of turns = object_of ((key, array_of turns) ∷ [])

abbrev envelope : Value → Value → Value
envelope prior body = object_of (
    (chars "harness", string (chars "codex"))
    ∷ (chars "request", object_of ((chars "body_delta", encode_delta prior body key []) ∷ []))
    ∷ [])

abbrev first_envelope : Value
first_envelope = envelope empty_body (body_of first_turns)

abbrev second_envelope : Value
second_envelope = envelope (body_of first_turns) (body_of next_turns)

abbrev no_values : Parse
no_values _ = none

envelope-history :
    (prior body : Value)
    → history_of (envelope prior body) ≡ get (chars "history") (encode_delta prior body key [])
unfolding history_of pointer get entries of_entries Map.get text_eq encode_delta
envelope-history prior body = refl

envelope-Readable : (prior body : Value) → Readable no_values codex (envelope prior body)
unfolding label_of from_label get entries of_entries Map.get text_eq extract_response_output
envelope-Readable prior body = (refl, ([], refl))

pair-Recorded :
    Recorded key [] empty_body (first_envelope ∷ second_envelope ∷ []) (body_of next_turns)
pair-Recorded =
    next_body (body_of first_turns) first_envelope
      (envelope-history empty_body (body_of first_turns))
      (next_body (body_of next_turns) second_envelope
        (envelope-history (body_of first_turns) (body_of next_turns)) last_body)

pair-Readable : All (Readable no_values codex) (first_envelope ∷ second_envelope ∷ [])
pair-Readable = (
  envelope-Readable empty_body (body_of first_turns),
  (envelope-Readable (body_of first_turns) (body_of next_turns), tt),
)

empty_history : history_in key empty_body ≡ []
unfolding get entries of_entries Map.get
empty_history = refl

apply_all-Follows_example :
    (s : ReconState) × (apply_all no_values (first_envelope ∷ second_envelope ∷ []) new ≡ some s)
    × Follows key codex (body_of next_turns) s
apply_all-Follows_example =
    apply_all-Follows no_values key [] codex empty_body (body_of next_turns)
      (first_envelope ∷ second_envelope ∷ []) empty_history pair-Recorded pair-Readable

both_applied :
    (s : ReconState) × (apply_all no_values (first_envelope ∷ second_envelope ∷ []) new ≡ some s)
both_applied = (apply_all-Follows_example.0, apply_all-Follows_example.1)

apply_all-IsLabelled_example :
    All (IsLabelled both_applied.0.harness) (first_envelope ∷ second_envelope ∷ [])
apply_all-IsLabelled_example =
    apply_all-IsLabelled no_values (first_envelope ∷ second_envelope ∷ []) new both_applied.0
      both_applied.1

-- A capture of one record, read by a stream that knows the record `1`.
abbrev one_record : List ℕ
one_record = b'1' ∷ 10 ∷ []

abbrev torn_record : List ℕ
torn_record = b'{' ∷ []

unfoldable only_ones : Stream
only_ones bytes = if text_eq bytes (b'1' ∷ []) then ((small 1, 1) ∷ [], false) else ([], true)

abbrev collect : Value → List Value → Option (List Value)
collect v vs = some (v ∷ vs)

torn_record-residue : has_residue torn_record ≡ true
unfolding has_residue is_ascii_whitespace
torn_record-residue = refl

torn_record-stream : only_ones (trim_record torn_record) ≡ ([], true)
unfolding only_ones trim_record is_ascii_whitespace skip_whitespace text_eq
torn_record-stream = refl

run_segment-unterminated_example :
    (run_segment only_ones collect live_raw (one_record ++ torn_record) []
      ≡ run_segment only_ones collect live_raw one_record [])
    × (run_segment only_ones collect sealed (one_record ++ torn_record) [] ≡ none)
run_segment-unterminated_example =
    run_segment-unterminated only_ones collect one_record torn_record [] (terminated (b'1' ∷ []))
      (last_byte b'{' refl) torn_record-residue torn_record-stream

-- A decoder that leaves its bytes as they are, and a digest that is the bytes themselves.
visit_snapshot-published_example :
    let visited = (λ (file : List ℕ) (waiting : Option Detached).
      visit_snapshot some
        (λ b. b)
        only_ones
        collect
        (snapshot_of file waiting (some torn_record))
        []) in
    let d = detached_of (λ b. b) one_record one_record in
    (visited (one_record ++ one_record) (some d) ≡ visited one_record (some d))
    × (visited (one_record ++ one_record) none ≡ visited one_record (some d))
visit_snapshot-published_example =
    visit_snapshot-published some (λ b. b) only_ones collect one_record one_record one_record
      one_record (some torn_record) [] (terminated (b'1' ∷ [])) (omega arith) refl refl refl
