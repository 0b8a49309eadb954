-- ===== src/Broker/Seal.antt =====
-- crates/broker/src/seal.rs: which keys of the bucket the broker handles.
pub mod Layout
use vaultr.Prelude.{ℕ, Bool, not, ◌&&◌, ◌||◌, List, [], ◌∷◌, ◌==◌, length, is_empty, all, any}
use vaultr.Text.{Text, chars, text_eq, bytes, split, is_ascii_digit, is_ascii_alphanumeric}
use vaultr.Broker.Result.{
  Result, ok, err, ensure, ◌>>=◌, ◌>>◌, empty_key, wrong_segment_count, wrong_root, not_a_date,
  unusable_session_id, not_a_seal_file,
}

pub record KeyPolicy : Type 0 where
  pub seal_files : List Text

-- impl Default for KeyPolicy
abbrev pub default_policy : KeyPolicy
default_policy = record { seal_files = chars "turns.jsonl.zst" ∷ [] }

-- c.is_ascii_alphanumeric() || c == '-' || c == '_'
unfoldable pub is_label_char : ℕ → Bool
is_label_char c = is_ascii_alphanumeric c || c == b'-' || c == b'_'

-- part.len() != width || !part.bytes().all(|b| b.is_ascii_digit()), negated
unfoldable pub is_date_segment : Text → ℕ → Bool
unfolding bytes
is_date_segment part width = length (bytes part) == width && all is_ascii_digit (bytes part)

unfoldable pub is_session_id : Text → Bool
is_session_id id = not (is_empty id) && all is_label_char id

unfoldable pub is_seal_file : KeyPolicy → Text → Bool
is_seal_file p file = any (λ allowed. text_eq allowed file) p.seal_files

-- The body of `validate` behind the test on `parts.len()`, which the pattern makes.
unfoldable pub validate_parts : KeyPolicy → List Text → Result (Unit {0})
validate_parts p (root ∷ year ∷ month ∷ day ∷ id ∷ file ∷ []) = do
  ensure (text_eq root (chars "sessions")) wrong_root
  ensure (is_date_segment year 4) not_a_date
  ensure (is_date_segment month 2) not_a_date
  ensure (is_date_segment day 2) not_a_date
  ensure (is_session_id id) unusable_session_id
  ensure (is_seal_file p file) not_a_seal_file
validate_parts p _ = err wrong_segment_count

unfoldable pub validate : KeyPolicy → Text → Result (Unit {0})
validate p key = do ensure (not (is_empty key)) empty_key; validate_parts p (split b'/' key)
