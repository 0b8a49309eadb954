-- ===== src/Secrets/Scan.antt =====
-- crates/vaultr/src/secrets/mod.rs: scanning a file, and redacting a line.
pub mod Position
pub mod Allowed
use vaultr.Prelude.{
  ℕ, zero, suc, ◌+◌, ◌-◌, Bool, true, false, not, ◌&&◌, ◌||◌, Option, none, some, List, [], ◌∷◌,
  ◌++◌, leb, ltb, ◌==◌, any, filter, length, take, drop, map, is_empty, if◌then◌else◌,
}
use vaultr.Text.{Text, chars, text_eq, bytes, rsplit_once}
use vaultr.Secrets.Matcher.{Range, Detected, slice, sort, find}
use vaultr.Secrets.Policy.{
  Policy, Component, normal, cur_dir, parent_dir, root_dir, components, is_allowed, is_policy_file,
}

pub record Hit : Type 0 where
  pub rule : Text
  pub line : ℕ
  pub col : ℕ
  pub span : Range

unfoldable pub count_newlines : List ℕ → ℕ
count_newlines [] = 0
count_newlines (b ∷ s) = (if b == b'\n' then 1 else 0) + count_newlines s

-- The bytes behind the last newline: before.len() - newline - 1 of them, or all.
unfoldable pub last_line : List ℕ → List ℕ
last_line [] = []
last_line (b ∷ s) =
    let rest = last_line s in
    if any (λ c. c == b'\n') s then rest else if b == b'\n' then s else b ∷ s

unfoldable pub line_col : List ℕ → ℕ → ℕ × ℕ
unfolding count_newlines last_line
line_col haystack offset =
    let before = take offset haystack in (count_newlines before + 1, length (last_line before) + 1)

-- The last component, if it is a name.
unfoldable pub file_name : List Component → Option Text
file_name [] = none
file_name (normal name ∷ []) = some name
file_name (c ∷ []) = none
file_name (c ∷ d ∷ cs) = file_name (d ∷ cs)

abbrev pub extension_of : Option (Text × Text) → Option Text
extension_of none = none
extension_of (some (stem, extension)) = if is_empty stem then none else some extension

abbrev pub is_zst : Option Text → Bool
is_zst none = false
is_zst (some extension) = text_eq extension (chars "zst")

abbrev pub and_extension : Option Text → Option Text
and_extension none = none
and_extension (some name) = extension_of (rsplit_once b'.' name)

unfoldable pub text_path : Text → Bool
unfolding file_name components
text_path rel_path = not (is_zst (and_extension (file_name (components rel_path))))

unfoldable pub text_bytes : List ℕ → Bool
text_bytes haystack = not (any (λ b. b == 0) haystack)

unfoldable pub detected_hit : List ℕ → Detected → Hit
unfolding line_col
detected_hit haystack d =
    let (line, col) = line_col haystack d.span.first in
    record { rule = d.rule; line = line; col = col; span = d.span }

-- Policy::allows
unfoldable pub allows : Policy → Text → List ℕ → Detected → Bool
unfolding is_allowed
allows p rel_path haystack d = is_allowed p.digest p.allows rel_path d.rule (slice haystack d.span)

abbrev pub is_skipped : Policy → Text → List ℕ → Bool
is_skipped p rel_path haystack =
    not (text_path rel_path)
    || (not (text_bytes haystack) || (is_policy_file rel_path || p.ignored_path rel_path))

unfoldable pub scan_bytes : List ℕ → Text → Policy → List Hit
unfolding allows detected_hit
scan_bytes haystack rel_path p =
    if is_skipped p rel_path haystack
    then []
    else map (detected_hit haystack)
        (filter (λ d. not (allows p rel_path haystack d)) (find p.judge haystack p.patterns))

-- Not a continuation byte of UTF-8, and within the string.
unfoldable pub is_char_boundary : List ℕ → ℕ → Bool
is_char_boundary s zero = true
is_char_boundary [] (suc i) = false
is_char_boundary (b ∷ []) (suc zero) = true
is_char_boundary (b ∷ []) (suc (suc i)) = false
is_char_boundary (b ∷ c ∷ s) (suc zero) = ltb c 128 || leb 192 c
is_char_boundary (b ∷ c ∷ s) (suc (suc i)) = is_char_boundary (c ∷ s) (suc i)

abbrev pub replace_range : List ℕ → Range → List ℕ → List ℕ
replace_range s r text = take r.first s ++ (text ++ drop r.behind s)

unfoldable pub redact : List Range → List ℕ → List ℕ
unfolding is_char_boundary
redact [] output = output
redact (r ∷ rs) output = redact rs (
    if is_char_boundary output r.first && is_char_boundary output r.behind
    then replace_range output r (chars "[REDACTED]")
    else output)

unfoldable pub redact_line : List ℕ → Policy → List ℕ × ℕ
unfolding redact
redact_line line p =
    let detections = find p.judge line p.patterns in
    (
      redact (sort (λ r s. leb s.first r.first) (map (λ d. d.span) detections)) line,
      length detections,
    )
