-- ===== src/Plant/Jobs/Buckets.antt =====
-- The jobs of a host's own directory against the shared ones.
use vaultr.Prelude.{
  ◌≡◌, ◌∙◌, refl, ap, sym, Bool, true, false, Option, none, some, List, [], ◌∷◌, find,
  if◌then◌else◌, arith,
}
use vaultr.Text.{Text, text_eq, text_eq_iff}
use vaultr.Plant.Adapter.{or}
use vaultr.Plant.Jobs.{Job, overlay_one, overlay}

abbrev pub has_name : Text → Job → Bool
has_name name job = text_eq job.name name

-- The last job of this name.
abbrev pub find_last : Text → List Job → Option Job
find_last name [] = none
find_last name (job ∷ jobs) =
    or (find_last name jobs) (if has_name name job then some job else none)

find-overlay_one :
    (name : Text) (jobs : List Job) (job : Job)
    → find (has_name name) (overlay_one jobs job)
      ≡ (if has_name name job then some job else find (has_name name) jobs)
unfolding overlay_one
find-overlay_one name [] job = refl
find-overlay_one name (existing ∷ jobs) job = ground (
  arith,
  find-overlay_one name jobs job,
  text_eq_iff existing.name job.name,
  text_eq_iff job.name name,
  text_eq_iff existing.name name,
)

or_assoc : (a b c : Option Job) → or (or a b) c ≡ or a (or b c)
or_assoc none b c = refl
or_assoc (some j) b c = refl

if_or :
    (b : Bool) (j : Job) (o : Option Job)
    → (if b then some j else o) ≡ or (if b then some j else none) o
if_or true j o = refl
if_or false j o = refl

-- Under each name, the jobs of a host are the last one of its own directory, or else the shared one.
pub find-overlay :
    (name : Text) (jobs specific : List Job)
    → find (has_name name) (overlay jobs specific)
      ≡ or (find_last name specific) (find (has_name name) jobs)
unfolding overlay
find-overlay name jobs [] = refl
find-overlay name jobs (job ∷ specific) =
    find-overlay name (overlay_one jobs job) specific
    ∙ ap (or (find_last name specific))
        (find-overlay_one name jobs job ∙ if_or (has_name name job) job (find (has_name name) jobs))
    ∙ sym (
        or_assoc (find_last name specific) (if has_name name job then some job else none)
          (find (has_name name) jobs))
