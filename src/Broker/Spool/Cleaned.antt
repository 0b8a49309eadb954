-- ===== src/Broker/Spool/Cleaned.antt =====
-- What a cleaning removes.
use vaultr.Prelude.{
  ℕ, ◌+◌, ◌≡◌, refl, ap, ◌∙◌, Bool, true, false, not, ◌&&◌, arith, some, List, [], ◌∷◌, All, filter,
  length, map, if◌then◌else◌,
}
use vaultr.Text.{Text}
use vaultr.Broker.Result.{ok}
use vaultr.Broker.Spool.{
  Directory, Cleaning, is_spool_name, keep, spool_entry, clean_entries, clean_stale_spool,
  clean_directory,
}

-- A left-over upload: a file of a spool name.
pub is_stale : (Text → Bool) → Text → Bool
is_stale files name = is_spool_name name && files name

-- Every entry can be typed, and every file removed.
abbrev pub Accessible : Directory → (Text → Bool) → Text → Type 0
Accessible d files name = (d.is_file name ≡ some (files name)) × (d.remove_file name ≡ true)

count_on :
    (removed a b : ℕ) (left : List Text) → a ≡ b → ◌≡◌ {A = Cleaning} (ok a, left) (ok b, left)
count_on removed a b left e = ap (λ (n : ℕ). (ok n, left)) e

clean_entries-stale :
    (d : Directory) (files : Text → Bool) (names : List Text) (removed : ℕ)
    → All (Accessible d files) names
    → clean_entries d removed (map some names) ≡ (
      ok (removed + length (filter (is_stale files) names)),
      filter (λ n. not (is_stale files n)) names,
    )
unfolding clean_entries is_stale
clean_entries-stale d files [] removed h = count_on removed _ _ [] (omega arith)
clean_entries-stale d files (name ∷ names) removed h =
    rw
      (
        h.0.0,
        clean_entries-stale d files names (removed + 1) h.1,
        clean_entries-stale d files names removed h.1,
      )
      (by_tests (is_spool_name name) (files name))
  where
    n : ℕ
    n = length (filter (is_stale files) names)

    left : List Text
    left = filter (λ n. not (is_stale files n)) names

    by_tests :
        (spool file : Bool)
        → (if spool
            then spool_entry d removed name
                (map some names)
                (some file)
                (ok (removed + 1 + n), left)
                (ok (removed + n), left)
            else keep name (ok (removed + n), left))
          ≡ (
            ok (
                removed
                + length (
                    if spool && file
                    then name ∷ filter (is_stale files) names
                    else filter (is_stale files) names)),
            (if not (spool && file) then name ∷ left else left),
          )
    by_tests false file = refl
    by_tests true false = refl
    by_tests true true = rw h.0.1 (count_on removed _ _ left (omega arith))

-- Where every entry can be read, typed and removed, the files of spool names are removed and counted,
-- and every other entry stays.
pub clean_stale_spool-stale :
    (d : Directory) (files : Text → Bool) (names : List Text)
    → d.entries ≡ some (map some names)
    → All (Accessible d files) names
    → clean_stale_spool d
      ≡ (ok (length (filter (is_stale files) names)), filter (λ n. not (is_stale files n)) names)
unfolding clean_stale_spool
clean_stale_spool-stale d files names e h =
    ap (clean_directory d) e
    ∙ clean_entries-stale d files names 0 h
    ∙ count_on 0 _ _ _ (omega arith)
