-- ===== src/Broker/Store.antt =====
-- crates/broker/src/store.rs: the bucket behind the `aws` command.
pub mod Rows
pub mod Printed
pub mod Lookup
use vaultr.Prelude.{
  ℕ, ◌*◌, Bool, true, false, not, ◌&&◌, Option, none, some, List, [], ◌∷◌, ◌++◌, map, filter,
  is_empty, if◌then◌else◌,
}
use vaultr.Text.{Text, chars, text_eq, trim, lines, rsplit_once, parse_u64, show}
use vaultr.Broker.Result.{
  Result, ok, err, ensure, context, ◌>>=◌, ◌>>◌, aws_not_run, aws_failed, aws_not_utf8, empty_url,
  spool_not_utf8,
}

abbrev pub key_prefix : Text
key_prefix = chars "sessions/"

abbrev pub max_object_bytes : ℕ
max_object_bytes = 5 * 1024 * 1024 * 1024

pub record Object : Type 0 where
  pub key : Text
  pub size : ℕ

-- `std::process::Output`: the exit status, and the standard output if it is UTF-8.
pub record Output : Type 0 where
  pub success : Bool
  pub stdout : Option Text

-- The `aws` command and all that it reaches. It is run with arguments and, where they name a file,
-- with that file's bytes; none if it cannot be run.
pub record Aws : Type 1 where
  pub World : Type 0
  pub exec : World → List Text → List ℕ → Option Output × World

-- Some(Object { key, size: size.parse().ok()? })
abbrev pub sized_object : Text → Option ℕ → Option Object
sized_object key none = none
sized_object key (some n) = some (record { key = key; size = n })

abbrev pub pieces_object : Option (Text × Text) → Option Object
pieces_object none = none
pieces_object (some (key, size)) = sized_object (trim key) (parse_u64 (trim size))

-- The closure of `parse_listing`'s `filter_map`.
unfoldable pub parse_row : Text → Option Object
parse_row line = pieces_object (rsplit_once 9 line)

-- Iterator::filter_map
abbrev pub push_some {ℓ} : {A : Type ℓ} → Option A → List A → List A
push_some none xs = xs
push_some (some x) xs = x ∷ xs

abbrev pub filter_map {ℓ κ} : {A : Type ℓ} {B : Type κ} → (A → Option B) → List A → List B
filter_map f [] = []
filter_map f (x ∷ xs) = push_some (f x) (filter_map f xs)

unfoldable pub is_row : Text → Bool
is_row line = not (is_empty line) && not (text_eq line (chars "None"))

unfoldable pub parse_listing : Text → List Object
parse_listing stdout = filter_map parse_row (filter is_row (map trim (lines stdout)))

-- .find(|object| object.key == key).map(|object| object.size)
unfoldable pub find_key : Text → List Object → Option ℕ
find_key key [] = none
find_key key (o ∷ objects) = if text_eq o.key key then some o.size else find_key key objects

-- The arguments of the calls.
abbrev pub list_args : Text → Text → List Text
list_args bucket prefix =
    chars "s3api"
    ∷ chars "list-objects-v2"
    ∷ chars "--bucket"
    ∷ bucket
    ∷ chars "--prefix"
    ∷ prefix
    ∷ chars "--query"
    ∷ chars "Contents[].[Key,Size]"
    ∷ chars "--output"
    ∷ chars "text"
    ∷ []

abbrev pub presign_args : Text → Text → ℕ → List Text
presign_args bucket key expires_in =
    chars "s3"
    ∷ chars "presign"
    ∷ (chars "s3://" ++ (bucket ++ (b'/' ∷ key)))
    ∷ chars "--expires-in"
    ∷ show expires_in
    ∷ []

abbrev pub put_args : Text → Text → Text → List Text
put_args bucket key path =
    chars "s3api"
    ∷ chars "put-object"
    ∷ chars "--bucket"
    ∷ bucket
    ∷ chars "--key"
    ∷ key
    ∷ chars "--body"
    ∷ path
    ∷ chars "--output"
    ∷ chars "json"
    ∷ []

unfoldable pub read_output : Option Output → Result Text
read_output o = do
  output ← context aws_not_run o
  ensure output.success aws_failed
  context aws_not_utf8 output.stdout

unfoldable pub read_url : Result Text → Result Text
read_url r = do output ← r; ensure (not (is_empty (trim output))) empty_url; ok (trim output)

abbrev pub map_ok {ℓ κ} : {A : Type ℓ} {B : Type κ} → (A → B) → Result A → Result B
map_ok f r = r >>= λ a. ok (f a)

-- The methods of `Store`, on what lies behind `aws`.
module _ (a : Aws) (bucket : Text) where
  open a use {World, exec}

  unfoldable pub aws : List Text → List ℕ → World → Result Text × World
  unfolding read_output
  aws args file w = let (o, w') = exec w args file in (read_output o, w')

  unfoldable pub list : World → Result (List Object) × World
  list w = let (r, w') = aws (list_args bucket key_prefix) [] w in (map_ok parse_listing r, w')

  unfoldable pub size_of : Text → World → Result (Option ℕ) × World
  size_of key w =
      let (r, w') = aws (list_args bucket key) [] w in
      (map_ok (λ stdout. find_key key (parse_listing stdout)) r, w')

  unfoldable pub presign : Text → ℕ → World → Result Text × World
  unfolding read_url
  presign key expires_in w =
      let (r, w') = aws (presign_args bucket key expires_in) [] w in (read_url r, w')

  -- The file at `path`, none if that is not UTF-8, holds `body`.
  unfoldable pub put : Text → Option Text → List ℕ → World → Result (Unit {0}) × World
  put key none body w = (err spool_not_utf8, w)
  put key (some path) body w =
      let (r, w') = aws (put_args bucket key path) body w in (map_ok (λ _. tt) r, w')
