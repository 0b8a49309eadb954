-- ===== src/Recon/Delta.antt =====
-- `encode_delta` and `apply_delta` of crates/vaultr/src/recon.rs, and the inverse that
-- crates/vaultr/src/recon/tests.rs writes for them.
pub mod Prefix
pub mod Fields
pub mod RoundTrip
use vaultr.Prelude.{
  ℕ, zero, suc, Bool, true, false, not, ◌&&◌, ◌||◌, Option, none, some, List, [], ◌∷◌, ◌++◌, map,
  ltb, any, length, take, drop, filter, if◌then◌else◌,
}
use vaultr.Prelude.Map
use vaultr.Text.{Text, chars, text_eq, text_key}
use vaultr.Json.{
  Value, Entries, Number, unsigned, number, string, value_eq, as_object, as_array, as_str, as_u64,
  array_of, object_of, and_then, satisfies, get,
}
use vaultr.Json.Object.{insert, remove}

abbrev pub or_else {ℓ} : {A : Type ℓ} → A → Option A → A
or_else default none = default
or_else default (some a) = a

abbrev pub is_some {ℓ} : {A : Type ℓ} → Option A → Bool
is_some none = false
is_some (some a) = true

unfoldable pub common_prefix : List Value → List Value → ℕ
common_prefix [] bs = 0
common_prefix (a ∷ more) [] = 0
common_prefix (a ∷ more) (b ∷ bs) =
    let rest = common_prefix more bs in if value_eq a b then suc rest else zero

-- The array under the history key, or an empty one.
abbrev pub history_in : Text → Value → List Value
history_in key v = or_else [] (and_then as_array (get key v))

abbrev pub is_one_of : List Text → Text → Bool
is_one_of keys k = any (text_eq k) keys

-- Whether a field of the body is left out of `set`.
unfoldable pub is_left_out : Value → Text → List Text → Text → Value → Bool
is_left_out prior key big k v =
    text_eq k key || (is_one_of big k && satisfies (λ w. value_eq w v) (get k prior))

unfoldable pub set_fields : Value → Text → List Text → Entries → Entries → Entries
set_fields prior key big set [] = set
set_fields prior key big set ((k, v) ∷ fields) =
    set_fields prior key big (if is_left_out prior key big k v then set else insert k v set) fields

unfoldable pub removed_keys : Text → Entries → Entries → List Text
removed_keys key body [] = []
removed_keys key body ((k, v) ∷ prior) =
    let rest = removed_keys key body prior in
    if not (is_some (Map.get k body)) && not (text_eq k key) then k ∷ rest else rest

-- The fields that both objects have, if both are objects.
abbrev pub set_of : Value → Text → List Text → Option Entries → Entries
set_of prior key big none = []
set_of prior key big (some body) = set_fields prior key big [] body

abbrev pub remove_of : Text → Option Entries → Option Entries → List Text
remove_of key (some body) (some prior) = removed_keys key body prior
remove_of key _ _ = []

abbrev pub history_delta : Text → ℕ → List Value → Value
history_delta key prefix history = object_of (
    (chars "key", string key)
    ∷ (chars "prefix_length", number (unsigned prefix))
    ∷ (chars "append", array_of (drop prefix history))
    ∷ [])

unfoldable pub encode_delta : Value → Value → Text → List Text → Value
unfolding common_prefix set_fields removed_keys
encode_delta prior body key big =
    let history = history_in key body in
    object_of (
      (chars "set", object_of (set_of prior key big (as_object body)))
      ∷ (chars "remove", array_of (map string (remove_of key (as_object body) (as_object prior))))
      ∷ (chars "history", history_delta key (common_prefix (history_in key prior) history) history)
      ∷ [])

-- o.map(f).transpose()?, then the rest.
abbrev pub optional {ℓ κ} :
    {A : Type ℓ} {B : Type κ} → (Value → Option A) → Option Value → (Option A → Option B) → Option B
optional f none rest = rest none
optional f (some v) rest = and_then (λ a. rest (some a)) (f v)

abbrev pub found : Text → Option Entries → Option Value
found k none = none
found k (some m) = Map.get k m

abbrev pub first_of : Option Value → Option Value → Option Value
first_of none o = o
first_of (some v) o = some v

abbrev pub cons_to : Option Value → Option (List Value) → Option (List Value)
cons_to (some v) (some vs) = some (v ∷ vs)
cons_to _ _ = none

-- The loop over `order`: each entry is a key of `new` or of the dictionary.
unfoldable pub resolve : Option Entries → Entries → List Value → Option (List Value)
resolve new dict [] = some []
resolve new dict (entry ∷ order) =
    cons_to (and_then (λ k. first_of (found k new) (Map.get k dict)) (as_str entry))
      (resolve new dict order)

unfoldable pub extend : Entries → Entries → Entries
extend dict [] = dict
extend dict ((k, v) ∷ new) = extend (insert k v dict) new

abbrev pub State : Type 0
State = List Value × Entries

abbrev pub replaced : Option Entries → Entries → List Value → State
replaced new dict msgs = (msgs, extend dict (or_else [] new))

-- The three shapes of a history delta, on `append`, `prefix_length`, `order` and `new`.
unfoldable pub apply_shape :
    Option (List Value) → Option ℕ → Option (List Value) → Option Entries → State → Option State
unfolding resolve extend
apply_shape (some append) (some prefix) none new (msgs, dict) =
    if is_some new || ltb (length msgs) prefix
    then none
    else some (take prefix msgs ++ append, dict)
apply_shape (some append) none none new (msgs, dict) =
    if is_some new then none else some (msgs ++ append, dict)
apply_shape none none (some order) new (msgs, dict) =
    and_then (λ resolved. some (replaced new dict resolved)) (resolve new dict order)
apply_shape _ _ _ new s = none

unfoldable pub apply_delta : Value → State → Option State
unfolding apply_shape
apply_delta h s =
    and_then
      (λ (fields : Entries). optional as_array (Map.get (chars "append") fields) λ append.
        optional as_u64 (Map.get (chars "prefix_length") fields) λ prefix.
          optional as_array (Map.get (chars "order") fields) λ order.
            optional as_object (Map.get (chars "new") fields)
              λ new. apply_shape append prefix order new s)
      (as_object h)

unfoldable pub remove_all : List Value → Entries → Option Entries
remove_all [] m = some m
remove_all (k ∷ keys) m = and_then (λ (s : Text). remove_all keys (remove s m)) (as_str k)

-- `apply_body`: the fields are set and removed over the prior body, and the history is replayed.
unfoldable pub apply_body : Value → Value → Text → Option Value
unfolding extend remove_all apply_delta
apply_body prior delta key =
    and_then
      (λ (set : Entries).
        and_then
          (λ (keys : List Value).
            and_then
              (λ (out : Entries).
                and_then
                  (λ (h : Value).
                    and_then (λ (s : State). some (object_of (insert key (array_of s.0) out)))
                      (apply_delta h (history_in key prior, [])))
                  (get (chars "history") delta))
              (remove_all keys (extend (or_else [] (as_object prior)) set)))
          (and_then as_array (get (chars "remove") delta)))
      (and_then as_object (get (chars "set") delta))
