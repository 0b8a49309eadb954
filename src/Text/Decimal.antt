-- ===== src/Text/Decimal.antt =====
-- Printing a number and reading it back.
use vaultr.Prelude.{
  ℕ, zero, suc, ◌+◌, ◌*◌, ◌/◌, ◌%◌, ◌<◌, ◌≤◌, ◌≡◌, refl, ap, ◌∙◌, inl, inr, true, some, [], ◌∷◌,
  arith, ltb, all, Bool-cases,
}
use vaultr.Text.{Text, u64_limit, is_ascii_digit, parse_digits, parse_u64, show, show_onto}

parse_digits-digit :
    (acc d : ℕ) (out : Text)
    → d < 10
    → acc * 10 + d < u64_limit
    → parse_digits acc ((48 + d) ∷ out) ≡ parse_digits (acc * 10 + d) out
unfolding parse_digits
parse_digits-digit acc d out h b = ground arith

parse_digits-show_onto :
    (f n : ℕ) (out : Text)
    → n ≤ f
    → n < u64_limit
    → parse_digits 0 (show_onto f n out) ≡ parse_digits n out
unfolding show_onto
parse_digits-show_onto zero n out h b =
    parse_digits-digit 0 (n % 10) out (omega arith) (omega arith)
    ∙ ap (λ m. parse_digits m out) (omega arith)
parse_digits-show_onto (suc f) n out h b = elim (Bool-cases (ltb n 10)) [
  | inl small ↦ rw small (
      parse_digits-digit 0 n out (ground arith) (omega arith)
      ∙ ap (λ m. parse_digits m out) (omega arith))
  | inr large ↦ rw large (
      parse_digits-show_onto f (n / 10) ((48 + n % 10) ∷ out) (ground arith) (omega arith)
      ∙ parse_digits-digit (n / 10) (n % 10) out (omega arith) (omega arith)
      ∙ ap (λ m. parse_digits m out) (omega arith))
]

-- The characters of a printed number are digits, and there is at least one.
show_onto-digits :
    (f n : ℕ) (out : Text)
    → all is_ascii_digit out ≡ true
    → all is_ascii_digit (show_onto f n out) ≡ true
unfolding show_onto
show_onto-digits zero n out h = ground arith
show_onto-digits (suc f) n out h = ground (arith, show_onto-digits f (n / 10) ((48 + n % 10) ∷ out))

pub show-digits : (n : ℕ) → all is_ascii_digit (show n) ≡ true
unfolding show
show-digits n = show_onto-digits n n [] refl

show_onto-cons : (f n : ℕ) (out : Text) → (c : ℕ) × (s : Text) × (show_onto f n out ≡ c ∷ s)
unfolding show_onto
show_onto-cons zero n out = (48 + n % 10, out, refl)
show_onto-cons (suc f) n out = elim (Bool-cases (ltb n 10)) [
  | inl small ↦ rw small (48 + n, out, refl)
  | inr large ↦ rw large (show_onto-cons f (n / 10) ((48 + n % 10) ∷ out))
]

pub show-cons : (n : ℕ) → (c : ℕ) × (s : Text) × (show n ≡ c ∷ s)
unfolding show
show-cons n = show_onto-cons n n []

parse_u64-of_digits :
    (s : Text) (c : ℕ) (t : Text)
    → s ≡ c ∷ t
    → all is_ascii_digit s ≡ true
    → parse_u64 s ≡ parse_digits 0 s
unfolding parse_u64
parse_u64-of_digits s c t e h = ground arith

-- Every 64-bit number that is printed is read back.
pub parse_u64-show : (n : ℕ) → n < u64_limit → parse_u64 (show n) ≡ some n
parse_u64-show n h =
    let (c, s, e) = show-cons n in
    parse_u64-of_digits (show n) c s e (show-digits n)
    ∙ (unfold show parse_digits in parse_digits-show_onto n n [] (omega arith) h)
