-- ===== src/Secrets/Policy.antt =====
-- crates/vaultr/src/secrets/allow.rs and the policy of mod.rs. The crates `ignore`, `toml` and `sha2`
-- and the file system are parameters. Paths are the UTF-8 paths of Unix.
pub mod Loading
use vaultr.Prelude.{
  ℕ, Bool, true, false, not, ◌&&◌, ◌||◌, Option, none, some, List, [], ◌∷◌, ◌++◌, ◌⊎◌, inl, inr,
  ◌==◌, any, is_empty, if◌then◌else◌,
}
use vaultr.Text.{Text, chars, text_eq, bytes, trim, trim_end, is_whitespace, split, join, lines}
use vaultr.Secrets.Matcher.{CompiledPattern, Judge, Range}

pub record AllowEntry : Type 0 where
  pub path : Text
  pub digest : Text
  pub rule : Text
  pub note : Text
  pub added : Text

-- std::path::Component
pub data Component : Type 0 where
  cur_dir parent_dir root_dir : Component
  normal : Text → Component

-- A piece between slashes, behind the first: an empty one and `.` are passed over.
abbrev pub piece_component : Text → List Component → List Component
piece_component piece rest =
    if is_empty piece || text_eq piece (chars ".")
    then rest
    else if text_eq piece (chars "..")
    then parent_dir ∷ rest
    else normal piece ∷ rest

unfoldable pub piece_components : List Text → List Component
piece_components [] = []
piece_components (piece ∷ pieces) = piece_component piece (piece_components pieces)

-- An absolute path has an empty first piece and another; `.` in the first place is kept.
unfoldable pub path_components : List Text → List Component
unfolding piece_components
path_components [] = []
path_components (piece ∷ []) =
    if text_eq piece (chars ".") then cur_dir ∷ [] else piece_components (piece ∷ [])
path_components (piece ∷ other ∷ pieces) =
    if is_empty piece
    then root_dir ∷ piece_components (other ∷ pieces)
    else if text_eq piece (chars ".")
    then cur_dir ∷ piece_components (other ∷ pieces)
    else piece_components (piece ∷ other ∷ pieces)

-- Path::components
unfoldable pub components : Text → List Component
unfolding path_components
components path = path_components (split b'/' path)

-- The loop of `relative_string`: the parts, unless a component leaves the directory.
unfoldable pub relative_parts : List Component → Option (List Text)
relative_parts [] = some []
relative_parts (cur_dir ∷ cs) = relative_parts cs
relative_parts (parent_dir ∷ cs) = none
relative_parts (root_dir ∷ cs) = none
relative_parts (normal part ∷ cs) = cons_part part (relative_parts cs)
  where
    cons_part : Text → Option (List Text) → Option (List Text)
    cons_part part none = none
    cons_part part (some parts) = some (part ∷ parts)

abbrev pub joined : Option (List Text) → Option Text
joined none = none
joined (some parts) = if is_empty parts then none else some (join b'/' parts)

-- An absolute path has a root component, so the loop refuses it too.
unfoldable pub relative_string : Text → Option Text
unfolding relative_parts components
relative_string path = joined (relative_parts (components path))

abbrev pub grants : Text → Text → Text → AllowEntry → Bool
grants path digest rule e = text_eq e.path path && text_eq e.digest digest && text_eq e.rule rule

abbrev pub allowed_at : List AllowEntry → Text → Text → Option Text → Bool
allowed_at allows digest rule none = false
allowed_at allows digest rule (some path) = any (grants path digest rule) allows

-- `digest` is that of the module, in `Policy` below.
unfoldable pub is_allowed : (List ℕ → Text) → List AllowEntry → Text → Text → List ℕ → Bool
is_allowed digest allows rel_path rule matched =
    allowed_at allows (digest matched) rule (relative_string rel_path)

pub record Policy : Type 0 where
  -- Gitignore::matched_path_or_any_parents
  pub ignored_path : Text → Bool
  pub judge : Judge
  pub allows : List AllowEntry
  pub patterns : List CompiledPattern
  -- sha256:<hex>
  pub digest : List ℕ → Text

unfoldable pub add_allow : Policy → AllowEntry → Policy
add_allow p e = record p { allows = p.allows ++ (e ∷ []) }

unfoldable pub is_policy_file : Text → Bool
is_policy_file rel_path =
    text_eq rel_path (chars ".secretsignore") || text_eq rel_path (chars ".secrets-allow.toml")

abbrev pub entry_for : (List ℕ → Text) → Text → Text → List ℕ → Text → Text → AllowEntry
entry_for digest path rule matched note added = record {
  path = path;
  digest = digest matched;
  rule = rule;
  note = note;
  added = added;
}

-- The end of `allow_false_positive`: whether `append_allow` wrote the entry.
abbrev pub appended : Policy → AllowEntry → Bool → Bool × Policy
appended p e true = (true, add_allow p e)
appended p e false = (false, p)

abbrev pub allow_at :
    (AllowEntry → Bool) → Policy → Text → List ℕ → Text → Text → Option Text → Bool × Policy
allow_at append_allow p rule matched note added none = (false, p)
allow_at append_allow p rule matched note added (some path) =
    let e = entry_for p.digest path rule matched note added in appended p e (append_allow e)

-- `append_allow` says whether the file could be written. False is an error.
unfoldable pub allow_false_positive :
    (AllowEntry → Bool) → Policy → Text → Text → List ℕ → Text → Text → Bool × Policy
unfolding add_allow
allow_false_positive append_allow p rel_path rule matched note added =
    allow_at append_allow p rule matched note added (relative_string rel_path)

pub data LoadError : Type 0 where
  unread_ignore bad_line bad_globs unread_allow bad_allow : LoadError

abbrev pub secrets_section : Text
secrets_section = chars "[secrets]"

abbrev pub is_section : Text → Bool
is_section line = text_eq (trim line) secrets_section

abbrev starts_with_hash : Text → Bool
starts_with_hash [] = false
starts_with_hash (c ∷ s) = c == b'#'

-- The secret of a line behind the section's, if it has one.
unfoldable pub push_secret : Text → List (List ℕ) → List (List ℕ)
push_secret line secrets =
    let secret = trim_end is_whitespace line in
    if not (is_empty secret) && not (starts_with_hash secret)
    then bytes secret ∷ secrets
    else secrets

abbrev pub with_secret :
    Text → LoadError ⊎ (List Text × List (List ℕ)) → LoadError ⊎ (List Text × List (List ℕ))
with_secret line (inl e) = inl e
with_secret line (inr (globs, secrets)) = inr (globs, push_secret line secrets)

abbrev pub with_glob :
    Text → LoadError ⊎ (List Text × List (List ℕ)) → LoadError ⊎ (List Text × List (List ℕ))
with_glob line (inl e) = inl e
with_glob line (inr (globs, secrets)) = inr (line ∷ globs, secrets)

-- The loop over the lines of .secretsignore; `add_line` is that of the builder.
unfoldable pub read_lines :
    (Text → Bool) → Bool → List Text → LoadError ⊎ (List Text × List (List ℕ))
read_lines add_line in_secrets [] = inr ([], [])
read_lines add_line in_secrets (line ∷ rest) =
    let next = read_lines add_line (in_secrets || is_section line) rest in
    if is_section line
    then next
    else if in_secrets
    then with_secret line next
    else if add_line line
    then with_glob line next
    else inl bad_line
