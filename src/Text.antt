-- ===== src/Text.antt =====
-- Text as the program handles it: a `str` is the list of its code points, and bytes are numbers
-- below 256. The functions are those of Rust's standard library (core::str, char, u64::from_str)
-- that the modelled code calls.
pub mod Decimal
pub mod Prefix
pub mod Split
pub mod Lines
pub mod Trim
use Prim.Native.Char.{code}
use vaultr.Prelude.{
  ℕ, ◌+◌, ◌-◌, ◌*◌, ◌/◌, ◌%◌, ◌^◌, String, ◌≡◌, refl, ◌↔◌, Bool, true, false, ◌&&◌, ◌||◌, Option,
  none, some, List, [], ◌∷◌, ◌++◌, map, arith, ◌==◌, ltb, between, if◌then◌else◌, Eq, ==_iff,
  is_empty, all, not,
}

abbrev pub Text : Type 0
Text = List ℕ

-- A literal of the source.
abbrev pub chars : String → Text
chars String.[] = []
chars (String.◌∷◌ c s) = code c ∷ chars s

unfoldable pub text_eq : Text → Text → Bool
text_eq [] [] = true
text_eq (c ∷ s) (d ∷ t) = c == d && text_eq s t
text_eq _ _ = false

pub text_eq_iff : (s t : Text) → (text_eq s t ≡ true) ↔ (s ≡ t)
unfolding text_eq
text_eq_iff [] [] = ground arith
text_eq_iff [] (d ∷ t) = ground arith
text_eq_iff (c ∷ s) [] = ground arith
text_eq_iff (c ∷ s) (d ∷ t) = ground (arith, text_eq_iff s t)

pub text_eq_refl : (s : Text) → text_eq s s ≡ true
text_eq_refl s = (text_eq_iff s s).1 refl

instance abbrev pub text_key : Eq Text
text_key = record { beq = text_eq; beq_iff = text_eq_iff }

-- char::is_ascii_digit, is_ascii_alphanumeric, to_ascii_lowercase
abbrev pub is_ascii_digit : ℕ → Bool
is_ascii_digit c = between 48 57 c

abbrev pub is_ascii_alphanumeric : ℕ → Bool
is_ascii_alphanumeric c = between 48 57 c || between 65 90 c || between 97 122 c

unfoldable pub to_ascii_lowercase : ℕ → ℕ
to_ascii_lowercase c = if between 65 90 c then c + 32 else c

-- char::is_whitespace: the code points with the property White_Space.
unfoldable pub is_whitespace : ℕ → Bool
is_whitespace c =
    between 9 13 c
    || c == 32
    || c == 0x85
    || c == 0xa0
    || c == 0x1680
    || between 0x2000 0x200a c
    || between 0x2028 0x2029 c
    || c == 0x202f
    || c == 0x205f
    || c == 0x3000

-- The UTF-8 bytes of a code point; `str::len` and `str::bytes` go by them.
unfoldable pub utf8 : ℕ → List ℕ
utf8 c =
    if ltb c 0x80
    then c ∷ []
    else if ltb c 0x800
    then (0xc0 + c / 64) ∷ (0x80 + c % 64) ∷ []
    else if ltb c 0x10000
    then (0xe0 + c / 4096) ∷ (0x80 + c / 64 % 64) ∷ (0x80 + c % 64) ∷ []
    else (0xf0 + c / 262144) ∷ (0x80 + c / 4096 % 64) ∷ (0x80 + c / 64 % 64) ∷ (0x80 + c % 64) ∷ []

unfoldable pub bytes : Text → List ℕ
unfolding utf8
bytes [] = []
bytes (c ∷ s) = utf8 c ++ bytes s

-- trim_start_matches, trim_end_matches
unfoldable pub trim_start : (ℕ → Bool) → Text → Text
trim_start p [] = []
trim_start p (c ∷ s) = let rest = trim_start p s in if p c then rest else c ∷ s

unfoldable pub trim_end : (ℕ → Bool) → Text → Text
trim_end p [] = []
trim_end p (c ∷ s) = elim (trim_end p s) [ [] ↦ if p c then [] else c ∷ [] | d ∷ r ↦ c ∷ d ∷ r ]

unfoldable pub trim_matches : (ℕ → Bool) → Text → Text
unfolding trim_start trim_end
trim_matches p s = trim_end p (trim_start p s)

-- str::trim
unfoldable pub trim : Text → Text
unfolding trim_matches is_whitespace
trim s = trim_matches is_whitespace s

-- str::split by one character: never empty.
abbrev pub push_head : ℕ → List Text → List Text
push_head c [] = (c ∷ []) ∷ []
push_head c (w ∷ ws) = (c ∷ w) ∷ ws

unfoldable pub split : ℕ → Text → List Text
split d [] = [] ∷ []
split d (c ∷ s) = let rest = split d s in if c == d then [] ∷ rest else push_head c rest

-- `[T]::join` with a one-character separator
unfoldable pub join : ℕ → List Text → Text
join d [] = []
join d (w ∷ []) = w
join d (w ∷ v ∷ ws) = w ++ (d ∷ join d (v ∷ ws))

-- !str::contains(d)
abbrev pub lacks : ℕ → Text → Bool
lacks d = all λ c. not (c == d)

-- split_once at the first, rsplit_once at the last occurrence
unfoldable pub split_once : ℕ → Text → Option (Text × Text)
split_once d [] = none
split_once d (c ∷ s) = elim (c == d) [
  | true ↦ some ([], s)
  | false ↦ elim (split_once d s) [ none ↦ none | some (a, b) ↦ some (c ∷ a, b) ]
]

unfoldable pub rsplit_once : ℕ → Text → Option (Text × Text)
rsplit_once d [] = none
rsplit_once d (c ∷ s) = elim (rsplit_once d s) [
  | some (a, b) ↦ some (c ∷ a, b)
  | none ↦ if c == d then some ([], s) else none
]

-- strip_prefix
unfoldable pub strip_prefix : Text → Text → Option Text
strip_prefix [] s = some s
strip_prefix (p ∷ ps) [] = none
strip_prefix (p ∷ ps) (c ∷ s) = let rest = strip_prefix ps s in if p == c then rest else none

-- str::lines: a line ends in "\n" or "\r\n"; an empty piece after the last end is no line.
unfoldable pub strip_cr : Text → Text
strip_cr [] = []
strip_cr (c ∷ []) = if c == 13 then [] else c ∷ []
strip_cr (c ∷ d ∷ s) = c ∷ strip_cr (d ∷ s)

unfoldable pub line_list : List Text → List Text
unfolding strip_cr
line_list [] = []
line_list (l ∷ []) = if is_empty l then [] else l ∷ []
line_list (l ∷ m ∷ ls) = strip_cr l ∷ line_list (m ∷ ls)

unfoldable pub lines : Text → List Text
unfolding split line_list
lines s = line_list (split 10 s)

-- u64::from_str: digits behind an optional plus sign, refused on overflow.
abbrev pub u64_limit : ℕ
u64_limit = 2 ^ 64

unfoldable pub parse_digits : ℕ → Text → Option ℕ
parse_digits acc [] = some acc
parse_digits acc (c ∷ s) =
    let rest = parse_digits (acc * 10 + (c - 48)) s in
    if is_ascii_digit c && ltb (acc * 10 + (c - 48)) u64_limit then rest else none

unfoldable pub parse_u64 : Text → Option ℕ
unfolding parse_digits
parse_u64 [] = none
parse_u64 (c ∷ s) =
    if c == b'+' then (if is_empty s then none else parse_digits 0 s) else parse_digits 0 (c ∷ s)

-- `{}` of an unsigned integer. A number has no more digits than its value, so the value is fuel.
unfoldable pub show_onto : ℕ → ℕ → Text → Text
show_onto ℕ.zero n out = (48 + n % 10) ∷ out
show_onto (ℕ.suc f) n out =
    let rest = show_onto f (n / 10) ((48 + n % 10) ∷ out) in
    if ltb n 10 then (48 + n) ∷ out else rest

unfoldable pub show : ℕ → Text
unfolding show_onto
show n = show_onto n n []
