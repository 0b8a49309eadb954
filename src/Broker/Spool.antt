-- ===== src/Broker/Spool.antt =====
-- `clean_stale_spool` of crates/broker/src/main.rs: what an earlier process left in the spool directory.
pub mod Cleaned
use vaultr.Prelude.{
  ℕ, ◌+◌, Bool, true, false, ◌&&◌, ◌||◌, Option, none, some, List, [], ◌∷◌, if◌then◌else◌,
}
use vaultr.Text.{Text, chars, text_eq, strip_prefix}
use vaultr.Broker.Result.{Reason, Result, ok, err, spool_unread, entry_untyped, entry_not_removed}

-- The directory: its entries, none where reading one fails; whether an entry is a file, if that can be
-- told; and whether it can be removed.
pub record Directory : Type 0 where
  pub entries : Option (List (Option Text))
  pub is_file : Text → Option Bool
  pub remove_file : Text → Bool

abbrev is_there : Option Text → Bool
is_there none = false
is_there (some rest) = true

unfoldable pub starts_with : Text → Text → Bool
starts_with prefix s = is_there (strip_prefix prefix s)

unfoldable pub ends_with : Text → Text → Bool
ends_with suffix [] = text_eq [] suffix
ends_with suffix (c ∷ s) = text_eq (c ∷ s) suffix || ends_with suffix s

unfoldable pub is_spool_name : Text → Bool
unfolding starts_with ends_with
is_spool_name name = starts_with (chars "seal-") name && ends_with (chars ".upload") name

-- The result so far, with the names that stay.
abbrev pub Cleaning : Type 0
Cleaning = Result ℕ × List Text

abbrev pub keep : Text → Cleaning → Cleaning
keep name (r, left) = (r, name ∷ left)

-- The names of the entries that are not reached.
unfoldable pub names : List (Option Text) → List Text
names [] = []
names (none ∷ es) = names es
names (some name ∷ es) = name ∷ names es

-- A spool name, by what kind of entry it is. `next` gives the rest of the loop for the count so far.
abbrev pub spool_entry :
    Directory → ℕ → Text → List (Option Text) → Option Bool → Cleaning → Cleaning → Cleaning
spool_entry d removed name es none more same = (err entry_untyped, name ∷ names es)
spool_entry d removed name es (some false) more same = keep name same
spool_entry d removed name es (some true) more same =
    if d.remove_file name then more else (err entry_not_removed, name ∷ names es)

unfoldable pub clean_entries : Directory → ℕ → List (Option Text) → Cleaning
unfolding names
clean_entries d removed [] = (ok removed, [])
clean_entries d removed (none ∷ es) = (err spool_unread, names es)
clean_entries d removed (some name ∷ es) =
    if is_spool_name name
    then spool_entry d removed name es (d.is_file name) (clean_entries d (removed + 1) es)
        (clean_entries d removed es)
    else keep name (clean_entries d removed es)

abbrev pub clean_directory : Directory → Option (List (Option Text)) → Cleaning
clean_directory d none = (err spool_unread, [])
clean_directory d (some entries) = clean_entries d 0 entries

unfoldable pub clean_stale_spool : Directory → Cleaning
unfolding clean_entries
clean_stale_spool d = clean_directory d d.entries
