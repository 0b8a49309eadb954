-- ===== src/Json.antt =====
-- Values of the crate serde_json, built with `preserve_order`: an object keeps its keys in the order of
-- their insertion, and a removal puts the last entry in the place of the removed one. Parsing and
-- printing are parameters of the code that calls them.
pub mod Object
use vaultr.Prelude.{
  ℕ, suc, ◌≡◌, refl, sym, Bool, true, false, ◌&&◌, Option, none, some, List, [], ◌∷◌, ◌==◌, length,
  if◌then◌else◌,
}
use mathlib.Core.Option.{none-ne-some}
use vaultr.Prelude.Map
use vaultr.Text.{Text, chars, text_eq, text_key}

-- serde_json::Number: an unsigned integer, a negative one by its magnitude, or a finite f64 by a number
-- that stands for its value.
pub data Number : Type 0 where
  unsigned negative float : ℕ → Number

abbrev pub number_eq : Number → Number → Bool
number_eq (unsigned m) (unsigned n) = m == n
number_eq (negative m) (negative n) = m == n
number_eq (float m) (float n) = m == n
number_eq _ _ = false

mutual
  pub data Value : Type 0 where
    null : Value
    boolean : Bool → Value
    number : Number → Value
    string : Text → Value
    array : Items → Value
    object : Fields → Value

  pub data Items : Type 0 where
    no_items : Items
    item : Value → Items → Items

  pub data Fields : Type 0 where
    no_fields : Fields
    field : Text → Value → Fields → Fields

-- The contents as lists, and back.
unfoldable pub items : Items → List Value
items no_items = []
items (item v vs) = v ∷ items vs

unfoldable pub of_items : List Value → Items
of_items [] = no_items
of_items (v ∷ vs) = item v (of_items vs)

abbrev pub Entries : Type 0
Entries = List (Text × Value)

unfoldable pub entries : Fields → Entries
entries no_fields = []
entries (field k v fs) = (k, v) ∷ entries fs

unfoldable pub of_entries : Entries → Fields
of_entries [] = no_fields
of_entries ((k, v) ∷ es) = field k v (of_entries es)

abbrev pub array_of : List Value → Value
array_of vs = array (of_items vs)

abbrev pub object_of : Entries → Value
object_of es = object (of_entries es)

abbrev pub bool_eq : Bool → Bool → Bool
bool_eq true b = b
bool_eq false true = false
bool_eq false false = true

abbrev pub satisfies {ℓ} : {A : Type ℓ} → (A → Bool) → Option A → Bool
satisfies p none = false
satisfies p (some a) = p a

-- `==` on values: objects are equal if they have as many entries and each of the one is in the other.
unfoldable mutual
  pub value_eq : Value → Value → Bool
  value_eq null null = true
  value_eq (boolean a) (boolean b) = bool_eq a b
  value_eq (number a) (number b) = number_eq a b
  value_eq (string a) (string b) = text_eq a b
  value_eq (array a) (array b) = items_eq a (items b)
  value_eq (object a) (object b) =
      length (entries a) == length (entries b) && fields_in a (entries b)
  value_eq _ _ = false

  pub items_eq : Items → List Value → Bool
  items_eq no_items [] = true
  items_eq (item a more) (b ∷ bs) = value_eq a b && items_eq more bs
  items_eq _ _ = false

  pub fields_in : Fields → Entries → Bool
  fields_in no_fields es = true
  fields_in (field k a fs) es = satisfies (value_eq a) (Map.get k es) && fields_in fs es

-- Value::get, as_object, as_array, as_str, as_bool, as_u64
abbrev pub as_object : Value → Option Entries
as_object (object fs) = some (entries fs)
as_object _ = none

abbrev pub as_array : Value → Option (List Value)
as_array (array vs) = some (items vs)
as_array _ = none

abbrev pub as_str : Value → Option Text
as_str (string s) = some s
as_str _ = none

abbrev pub as_bool : Value → Option Bool
as_bool (boolean b) = some b
as_bool _ = none

abbrev pub as_u64 : Value → Option ℕ
as_u64 (number (unsigned n)) = some n
as_u64 _ = none

abbrev pub field_in : Text → Option Entries → Option Value
field_in k none = none
field_in k (some es) = Map.get k es

unfoldable pub get : Text → Value → Option Value
get k v = field_in k (as_object v)

-- Option::and_then
abbrev pub and_then {ℓ κ} : {A : Type ℓ} {B : Type κ} → (A → Option B) → Option A → Option B
and_then f none = none
and_then f (some a) = f a

-- Value::pointer, on the names of a path through objects.
unfoldable pub pointer : List Text → Value → Option Value
pointer [] v = some v
pointer (k ∷ ks) v = and_then (pointer ks) (get k v)

-- A string of this name: `.get(k).and_then(Value::as_str)`.
abbrev pub str_at : Text → Value → Option Text
str_at k v = and_then as_str (get k v)

abbrev pub is_text : Text → Option Text → Bool
is_text s none = false
is_text s (some t) = text_eq t s

-- e.get("type").and_then(Value::as_str) == Some(s)
abbrev pub has_type : Text → Value → Bool
has_type s v = is_text s (str_at (chars "type") v)

-- A chain that succeeds has succeeded at its first step.
pub and_then-some {ℓ κ} :
    {A : Type ℓ} {B : Type κ} (f : A → Option B) (o : Option A) (b : B)
    → and_then f o ≡ some b
    → (a : A) × (o ≡ some a) × (f a ≡ some b)
and_then-some f none b e = absurd (none-ne-some b e)
and_then-some f (some a) b e = (a, refl, e)
