-- ===== src/Secrets/Matcher.antt =====
-- crates/vaultr/src/secrets/matcher.rs: the matches of the patterns, and which of them are kept. The
-- crate `regex` is a parameter: what a pattern captures, in the order of `captures_iter`.
pub mod Sorting
pub mod Kept
use vaultr.Prelude.{
  ℕ, suc, ◌-◌, max, Bool, true, false, not, ◌&&◌, ◌||◌, Option, none, some, List, [], ◌∷◌, ◌++◌,
  leb, ltb, ◌==◌, any, length, take, drop, if◌then◌else◌,
}
use vaultr.Text.{Text, chars, text_eq, bytes, strip_prefix}
use vaultr.Secrets.Random.{Float, Matches, p_random}

-- std::ops::Range
pub record Range : Type 0 where
  pub first : ℕ
  pub behind : ℕ

-- The groups of one match.
abbrev pub Captures : Type 0
Captures = ℕ → Option Range

pub record CompiledPattern : Type 0 where
  pub id : Text
  pub captures_iter : List ℕ → List Captures
  pub secret_group : Option ℕ

pub record Detected : Type 0 where
  pub rule : Text
  pub full : Range
  pub span : Range

abbrev pub slice : List ℕ → Range → List ℕ
slice haystack r = take (r.behind - r.first) (drop r.first haystack)

abbrev pub capture_span : Captures → Option ℕ → Option Range
capture_span captures (some group) = captures group
capture_span captures none = captures 0

-- \n, \t, \" or \\
unfoldable pub is_escape : ℕ → ℕ → Bool
is_escape a b = a == b'\\' && (b == b'n' || b == b't' || b == b'"' || b == b'\\')

unfoldable pub contains_json_escape : List ℕ → Bool
contains_json_escape [] = false
contains_json_escape (a ∷ []) = false
contains_json_escape (a ∷ b ∷ s) = is_escape a b || contains_json_escape (b ∷ s)

abbrev is_digit_byte : ℕ → Bool
is_digit_byte b = leb b'0' b && leb b b'9'

-- p < 1.0 / n
abbrev pub below : (f : Float) → f.F64 → ℕ → Bool
below f p n = f.less p (f.div (f.of_usize 1) (f.of_usize n))

unfoldable pub is_random : Float → Matches → Text → List ℕ → Bool
unfolding contains_json_escape
is_random f m listed candidate =
    let p = p_random f m listed candidate in
    if contains_json_escape candidate || below f p 100000
    then false
    else any is_digit_byte candidate || not (below f p 10000)

abbrev is_prefix : Option (List ℕ) → Bool
is_prefix none = false
is_prefix (some rest) = true

-- The bytes up to the newline, and whether the marker is in them.
unfoldable pub to_newline : List ℕ → List ℕ
to_newline [] = []
to_newline (b ∷ s) = let rest = to_newline s in if b == b'\n' then [] else b ∷ rest

unfoldable pub contains : List ℕ → List ℕ → Bool
contains marker [] = is_prefix (strip_prefix marker [])
contains marker (b ∷ s) = is_prefix (strip_prefix marker (b ∷ s)) || contains marker s

unfoldable pub has_allowlist_pragma : List ℕ → ℕ → Bool
unfolding to_newline contains
has_allowlist_pragma haystack start =
    contains (chars "pragma: allowlist secret") (to_newline (drop start haystack))

-- What the matches are judged by: the test for random strings and the ignored secrets.
pub record Judge : Type 0 where
  pub random : List ℕ → Bool
  pub ignored_secrets : List (List ℕ)

-- A candidate with its sort key.
pub record Candidate : Type 0 where
  pub pattern_index : ℕ
  pub detected : Detected

-- One turn of the inner loop.
unfoldable pub judged : Judge → List ℕ → ℕ → Text → Range → Range → List Candidate
judged j haystack index id full span =
    if text_eq id (chars "random-string") && not (j.random (slice haystack span))
    then []
    else if any (λ s. text_eq s (slice haystack span)) j.ignored_secrets
        || has_allowlist_pragma haystack span.behind
    then []
    else record { pattern_index = index; detected = record { rule = id; full = full; span = span } }
      ∷ []

abbrev pub with_ranges : Judge → List ℕ → ℕ → Text → Option Range → Option Range → List Candidate
with_ranges j haystack index id none span = []
with_ranges j haystack index id (some full) none = []
with_ranges j haystack index id (some full) (some span) = judged j haystack index id full span

unfoldable pub of_pattern : Judge → List ℕ → ℕ → CompiledPattern → List Captures → List Candidate
unfolding judged
of_pattern j haystack index pattern [] = []
of_pattern j haystack index pattern (captures ∷ more) =
    with_ranges j haystack index pattern.id (captures 0)
      (capture_span captures pattern.secret_group)
    ++ of_pattern j haystack index pattern more

unfoldable pub candidates : Judge → List ℕ → ℕ → List CompiledPattern → List Candidate
unfolding of_pattern
candidates j haystack index [] = []
candidates j haystack index (pattern ∷ patterns) =
    of_pattern j haystack index pattern (pattern.captures_iter haystack)
    ++ candidates j haystack (suc index) patterns

-- The order of (full.start, pattern index), and that of span.start.
abbrev pub by_match : Candidate → Candidate → Bool
by_match c d =
    ltb c.detected.full.first d.detected.full.first
    || (c.detected.full.first == d.detected.full.first && leb c.pattern_index d.pattern_index)

abbrev pub by_span : Detected → Detected → Bool
by_span c d = leb c.span.first d.span.first

-- slice::sort_by_key, which is stable.
module _ {ℓ} {A : Type ℓ} (le : A → A → Bool) where
  unfoldable pub insert : A → List A → List A
  insert x [] = x ∷ []
  insert x (y ∷ ys) = let rest = insert x ys in if le x y then x ∷ y ∷ ys else y ∷ rest

  unfoldable pub sort : List A → List A
  unfolding insert
  sort [] = []
  sort (x ∷ xs) = insert x (sort xs)

-- Where the cursor stands behind a match.
abbrev pub end_of : Detected → ℕ
end_of d = max d.full.behind d.span.behind

-- The loop that discards overlapping matches.
unfoldable pub accept : ℕ → List Candidate → List Detected
accept cursor [] = []
accept cursor (c ∷ cs) =
    let overlaps = ltb c.detected.full.first cursor in
    let rest = accept (if overlaps then cursor else end_of c.detected) cs in
    if overlaps then rest else c.detected ∷ rest

unfoldable pub find : Judge → List ℕ → List CompiledPattern → List Detected
unfolding candidates sort accept
find j haystack patterns =
    sort by_span (accept 0 (sort by_match (candidates j haystack 0 patterns)))
