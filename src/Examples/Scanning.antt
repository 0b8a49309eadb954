-- ===== src/Examples/Scanning.antt =====
-- Scans with one pattern that matches a fixed place.
use vaultr.Prelude.{
  ℕ, suc, ◌+◌, ◌-◌, ◌*◌, ◌/◌, ◌^◌, ◌≡◌, ◌≢◌, refl, true, false, arith, none, some, List, [], ◌∷◌,
  All, Any, take, ltb,
}
use vaultr.Text.{chars, text_eq, trim, split, join, is_whitespace}
use vaultr.Secrets.Random.{Float, num_distinct_configurations_aux}
use vaultr.Secrets.Random.Fuel.{num_distinct_configurations-fuel}
use vaultr.Secrets.Matcher.{Range, CompiledPattern, Judge, candidates, find, slice}
use vaultr.Secrets.Matcher.Sorting.{Pairwise}
use vaultr.Secrets.Matcher.Kept.{Apart, Covers, WellMatched, find-Apart, find-Covers}
use vaultr.Secrets.Policy.{Policy, relative_string, is_section}
use vaultr.Secrets.Scan.{scan_bytes, line_col}
use vaultr.Secrets.Scan.Position.{IsPosition, line_col-IsPosition}
use vaultr.Secrets.Scan.Allowed.{reviewed, scan_bytes-reviewed}

abbrev some_text : List ℕ
some_text = chars "a\nkey=abcdef\nkey=abcdef\n"

abbrev early_range : Range
early_range = record { first = 2; behind = 12 }

abbrev late_range : Range
late_range = record { first = 13; behind = 23 }

abbrev key_pattern : CompiledPattern
key_pattern = record {
  id = chars "key";
  captures_iter = λ _. (λ _. some early_range) ∷ (λ _. some late_range) ∷ [];
  secret_group = none;
}

abbrev plain_judge : Judge
plain_judge = record { random = λ _. true; ignored_secrets = [] }

ranges-WellMatched : All (WellMatched some_text) (key_pattern ∷ key_pattern ∷ [])
ranges-WellMatched = ((omega arith, (omega arith, tt)), ((omega arith, (omega arith, tt)), tt))

find-Apart_example : Pairwise Apart (find plain_judge some_text (key_pattern ∷ key_pattern ∷ []))
find-Apart_example =
    find-Apart plain_judge some_text (key_pattern ∷ key_pattern ∷ []) ranges-WellMatched

find-Covers_example :
    All
      (λ c. Any (Covers c) (find plain_judge some_text (key_pattern ∷ key_pattern ∷ [])))
      (candidates plain_judge some_text 0 (key_pattern ∷ key_pattern ∷ []))
find-Covers_example = find-Covers plain_judge some_text (key_pattern ∷ key_pattern ∷ [])

line_col-IsPosition_example :
    IsPosition (take 14 some_text) (line_col some_text 14).0 (line_col some_text 14).1
line_col-IsPosition_example = line_col-IsPosition some_text 14

abbrev plain_policy : Policy
plain_policy = record {
  ignored_path = λ _. false;
  judge = plain_judge;
  allows = [];
  patterns = key_pattern ∷ [];
  digest = λ bs. bs;
}

one_path : relative_string (chars "a/b.txt") ≡ some (chars "a/b.txt")
unfolding relative_string split text_eq join
one_path = refl

other_path : relative_string (chars "c.txt") ≡ some (chars "c.txt")
unfolding relative_string split text_eq join
other_path = refl

paths-differ : relative_string (chars "c.txt") ≢ some (chars "a/b.txt")
paths-differ = rw other_path differ
  where
    differ : some (chars "c.txt") ≢ some (chars "a/b.txt")
    differ e = cc

scan_bytes-reviewed_example :
    All
      (λ h. ¬ ((h.rule ≡ chars "key") × (slice some_text h.span ≡ chars "key=abcdef")))
      (scan_bytes some_text
        (chars "a/b.txt")
        (reviewed plain_policy (chars "a/b.txt") (chars "key") (chars "key=abcdef") [] []))
scan_bytes-reviewed_example =
    scan_bytes-reviewed plain_policy (chars "a/b.txt") (chars "key") (chars "key=abcdef") [] []
      (chars "a/b.txt") some_text one_path

header-section : is_section (chars "[secrets]") ≡ true
unfolding trim text_eq is_whitespace
header-section = refl

globs-accepted :
    All (λ line. (is_section line ≡ false) × (true ≡ true)) (chars "mail/" ∷ chars "*.log" ∷ [])
unfolding trim text_eq is_whitespace
globs-accepted = ((refl, refl), ((refl, refl), tt))

-- Whole numbers for `f64`.
abbrev whole : Float
whole = record {
  F64 = ℕ;
  of_usize = λ n. n;
  infinity = 0;
  add = λ a b. a + b;
  sub = λ a b. a - b;
  mul = λ a b. a * b;
  div = λ a b. a / b;
  powi = λ a b. a ^ b;
  less = ltb;
}

num_distinct_configurations-fuel_example :
    num_distinct_configurations_aux whole (4 + suc 5) 3 0 (5 - 3)
    ≡ num_distinct_configurations_aux whole (suc 5) 3 0 (5 - 3)
num_distinct_configurations-fuel_example =
    num_distinct_configurations-fuel whole 5 3 4 (omega arith)
