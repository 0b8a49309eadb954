-- ===== src/Secrets/Policy/Loading.antt =====
-- `load` of crates/vaultr/src/secrets/allow.rs: .secretsignore and .secrets-allow.toml.
use vaultr.Prelude.{
  ℕ, ◌≡◌, refl, ap, Bool, true, false, Option, none, some, List, [], ◌∷◌, ◌++◌, ◌⊎◌, inl, inr, All,
  if◌then◌else◌,
}
use vaultr.Text.{Text, lines}
use vaultr.Secrets.Policy.{
  AllowEntry, LoadError, unread_ignore, bad_globs, unread_allow, bad_allow, is_section, push_secret,
  with_glob, read_lines,
}

pub record LoadedPolicy : Type 0 where
  pub globs : List Text
  pub ignored_secrets : List (List ℕ)
  pub allows : List AllowEntry

-- What lies outside: a file is absent, unreadable or has a text; the builder of the crate `ignore`; and
-- `toml::from_str`.
pub record Files : Type 0 where
  pub ignore_file : Option (Option Text)
  pub allow_file : Option (Option Text)
  pub add_line : Text → Bool
  pub build : List Text → Bool
  pub from_str : Text → Option (List AllowEntry)

unfoldable pub load_ignore : Files → Option (Option Text) → LoadError ⊎ (List Text × List (List ℕ))
unfolding read_lines
load_ignore files none = inr ([], [])
load_ignore files (some none) = inl unread_ignore
load_ignore files (some (some contents)) = read_lines files.add_line false (lines contents)

abbrev pub parsed_allows : Option (List AllowEntry) → LoadError ⊎ List AllowEntry
parsed_allows none = inl bad_allow
parsed_allows (some allows) = inr allows

unfoldable pub load_allows : Files → Option (Option Text) → LoadError ⊎ List AllowEntry
load_allows files none = inr []
load_allows files (some none) = inl unread_allow
load_allows files (some (some contents)) = parsed_allows (files.from_str contents)

abbrev pub with_allows :
    List Text → List (List ℕ) → LoadError ⊎ List AllowEntry → LoadError ⊎ LoadedPolicy
with_allows globs secrets (inl e) = inl e
with_allows globs secrets (inr allows) =
    inr (record { globs = globs; ignored_secrets = secrets; allows = allows })

abbrev pub with_ignored : Files → LoadError ⊎ (List Text × List (List ℕ)) → LoadError ⊎ LoadedPolicy
with_ignored files (inl e) = inl e
with_ignored files (inr (globs, secrets)) =
    if files.build globs
    then with_allows globs secrets (load_allows files files.allow_file)
    else inl bad_globs

unfoldable pub load : Files → LoadError ⊎ LoadedPolicy
unfolding load_ignore load_allows
load files = with_ignored files (load_ignore files files.ignore_file)

-- The secrets of the lines behind the section's.
pub secrets_in : List Text → List (List ℕ)
secrets_in [] = []
secrets_in (line ∷ rest) =
    let secrets = secrets_in rest in if is_section line then secrets else push_secret line secrets

read_lines-secrets :
    (add_line : Text → Bool) (after : List Text)
    → read_lines add_line true after ≡ inr ([], secrets_in after)
unfolding read_lines secrets_in
read_lines-secrets add_line [] = refl
read_lines-secrets add_line (line ∷ rest) =
    rw (read_lines-secrets add_line rest) (by_test (is_section line))
  where
    by_test :
        (b : Bool)
        → ◌≡◌ {A = LoadError ⊎ (List Text × List (List ℕ))}
            (if b then inr ([], secrets_in rest) else inr ([], push_secret line (secrets_in rest)))
            (inr ([], if b then secrets_in rest else push_secret line (secrets_in rest)))
    by_test true = refl
    by_test false = refl

-- The lines before the section's header, each accepted by the builder, are the globs; those behind it
-- that are neither blank nor comments nor a header again are the ignored secrets.
pub read_lines-sections :
    (add_line : Text → Bool) (before : List Text) (header : Text) (after : List Text)
    → All (λ line. (is_section line ≡ false) × (add_line line ≡ true)) before
    → is_section header ≡ true
    → read_lines add_line false (before ++ (header ∷ after)) ≡ inr (before, secrets_in after)
unfolding read_lines
read_lines-sections add_line [] header after h s = rw s (read_lines-secrets add_line after)
read_lines-sections add_line (line ∷ before) header after h s =
    rw (h.0.0, h.0.1) (ap (with_glob line) (read_lines-sections add_line before header after h.1 s))
