-- ===== src/Secrets/Random.antt =====
-- crates/vaultr/src/secrets/p_random.rs: how probable a string is, if it is random. The arithmetic of
-- `f64` and the crate `regex` are parameters.
pub mod Fuel
use vaultr.Prelude.{
  ℕ, zero, suc, ◌+◌, ◌-◌, ◌%◌, Bool, true, false, not, ◌&&◌, ◌||◌, List, [], ◌∷◌, leb, ltb, ◌==◌,
  any, length, if◌then◌else◌,
}
use vaultr.Text.{Text, chars, text_eq, split, u64_limit}

-- `f64`, with what the file uses of it.
pub record Float : Type 1 where
  pub F64 : Type 0
  pub of_usize : ℕ → F64
  pub infinity : F64
  pub add : F64 → F64 → F64
  pub sub : F64 → F64 → F64
  pub mul : F64 → F64 → F64
  pub div : F64 → F64 → F64
  pub powi : F64 → ℕ → F64
  pub less : F64 → F64 → Bool

-- regex::bytes::Regex::is_match, by the expression.
pub record Matches : Type 0 where
  pub is_match : Text → List ℕ → Bool

abbrev pub is_in : Text → List Text → Bool
is_in t = any λ u. text_eq t u

-- HashSet::from_iter, as a list without repetitions.
unfoldable pub distinct : List Text → List Text
distinct [] = []
distinct (t ∷ ts) = let rest = distinct ts in if is_in t rest then rest else t ∷ rest

abbrev is_value : ℕ → List ℕ → Bool
is_value b = any λ c. c == b

unfoldable pub count_distinct_values : List ℕ → ℕ
count_distinct_values [] = 0
count_distinct_values (b ∷ s) =
    let rest = count_distinct_values s in if is_value b s then rest else suc rest

-- The windows of two bytes that are in the set. (Of an empty string the loop's bound would wrap; a
-- candidate has 15 bytes at least.)
unfoldable pub count_bigrams : List Text → List ℕ → ℕ
count_bigrams set [] = 0
count_bigrams set (a ∷ []) = 0
count_bigrams set (a ∷ b ∷ s) =
    (if is_in (a ∷ b ∷ []) set then 1 else 0) + count_bigrams set (b ∷ s)

-- *b >= min && *b < max
unfoldable pub count_class : ℕ → ℕ → List ℕ → ℕ
count_class min max [] = 0
count_class min max (b ∷ s) = (if leb min b && ltb b max then 1 else 0) + count_class min max s

-- The bases.
pub data Base : Type 0 where
  hex capitals base64 : Base

abbrev pub base_size : Base → ℕ
base_size hex = 16
base_size capitals = 36
base_size base64 = 64

module _ (f : Float) where
  open f use {F64, of_usize, infinity, add, sub, mul, div, powi, less}

  -- The loop from 2 to n, the last factor last.
  unfoldable pub factorial : ℕ → F64
  factorial zero = of_usize 1
  factorial (suc zero) = of_usize 1
  factorial (suc (suc n)) = mul (factorial (suc n)) (of_usize (suc (suc n)))

  unfoldable pub binomial_term : ℕ → F64 → ℕ → F64
  unfolding factorial
  binomial_term n p i =
      mul (mul (div (factorial n) (mul (factorial (n - i)) (factorial i))) (powi p i))
        (powi (sub (of_usize 1) p) (n - i))

  -- The loop over `count` values of i from `first`.
  unfoldable pub sum_terms : ℕ → F64 → ℕ → ℕ → F64 → F64
  unfolding binomial_term
  sum_terms n p first zero total = total
  sum_terms n p first (suc count) total =
      sum_terms n p (suc first) count (add total (binomial_term n p first))

  unfoldable pub p_binomial : ℕ → ℕ → F64 → F64
  unfolding sum_terms
  p_binomial n x p =
      if less (of_usize x) (mul (of_usize n) p)
      then sum_terms n p 0 (suc x) (of_usize 0)
      else sum_terms n p x (suc n - x) (of_usize 0)

  unfoldable pub p_random_char_class_aux : List ℕ → ℕ → ℕ → F64 → F64
  unfolding p_binomial count_class
  p_random_char_class_aux s min max base =
      p_binomial (length s) (count_class min max s) (div (of_usize (max - min + 1)) base)

  -- if p < min_p { min_p = p }
  abbrev pub lesser : F64 → F64 → F64
  lesser p min_p = if less p min_p then p else min_p

  unfoldable pub p_random_char_class : List ℕ → Base → F64
  unfolding p_random_char_class_aux
  p_random_char_class s hex = p_random_char_class_aux s b'0' b'9' (of_usize 16)
  p_random_char_class s capitals =
      let base = of_usize 36 in
      let digits = lesser (p_random_char_class_aux s b'0' b'9' base) infinity in
      lesser (p_random_char_class_aux s b'A' b'Z' base) digits
  p_random_char_class s base64 =
      let base = of_usize 64 in
      let digits = lesser (p_random_char_class_aux s b'0' b'9' base) infinity in
      let upper = lesser (p_random_char_class_aux s b'A' b'Z' base) digits in
      lesser (p_random_char_class_aux s b'a' b'z' base) upper

  -- The two terms of the sum, the first only below the last position.
  abbrev pub sum_configurations : Bool → ℕ → F64 → F64 → F64
  sum_configurations true position further here =
      add (add (of_usize 0) further) (mul (of_usize (suc position)) here)
  sum_configurations false position further here =
      add (of_usize 0) (mul (of_usize (suc position)) here)

  -- `fuel` bounds the calls; each makes `remaining` smaller, or `position` larger below `positions`.
  unfoldable pub num_distinct_configurations_aux : ℕ → ℕ → ℕ → ℕ → F64
  num_distinct_configurations_aux zero positions position remaining = of_usize 0
  num_distinct_configurations_aux (suc fuel) positions position zero = of_usize 1
  num_distinct_configurations_aux (suc fuel) positions position (suc remaining) =
      let further = num_distinct_configurations_aux fuel positions (suc position) (suc remaining) in
      let here = num_distinct_configurations_aux fuel positions position remaining in
      sum_configurations (ltb (suc position) positions) position further here

  unfoldable pub num_distinct_configurations : ℕ → ℕ → F64
  unfolding num_distinct_configurations_aux
  num_distinct_configurations num_values num_distinct_values =
      if num_distinct_values == 1 || num_distinct_values == num_values
      then of_usize 1
      else num_distinct_configurations_aux (suc num_values) num_distinct_values 0
          (num_values - num_distinct_values)

  -- The loop over i from 1 on. `base - i` wraps, as it does where overflow is not checked.
  unfoldable pub outcome_product : ℕ → ℕ → ℕ → F64 → F64
  outcome_product base i zero res = res
  outcome_product base i (suc count) res =
      outcome_product base (suc i) count (mul res (of_usize ((base + u64_limit - i) % u64_limit)))

  unfoldable pub num_possible_outcomes : ℕ → ℕ → ℕ → F64
  unfolding outcome_product num_distinct_configurations
  num_possible_outcomes num_values num_distinct_values base =
      mul (outcome_product base 1 (num_distinct_values - 1) (of_usize base))
        (num_distinct_configurations num_values num_distinct_values)

  unfoldable pub sum_outcomes : ℕ → ℕ → ℕ → ℕ → F64 → F64
  unfolding num_possible_outcomes
  sum_outcomes values base i zero total = total
  sum_outcomes values base i (suc count) total =
      sum_outcomes values base (suc i) count (add total (num_possible_outcomes values i base))

  unfoldable pub p_random_distinct_values : List ℕ → ℕ → F64
  unfolding sum_outcomes count_distinct_values
  p_random_distinct_values s base =
      div (sum_outcomes (length s) base 1 (count_distinct_values s) (of_usize 0))
        (powi (of_usize base) (length s))

  -- `listed` is the literal of bigrams.
  unfoldable pub p_random_bigrams : Text → List ℕ → F64
  unfolding distinct count_bigrams p_binomial
  p_random_bigrams listed s =
      let set = distinct (split b',' listed) in
      p_binomial (length s) (count_bigrams set s)
        (div (of_usize (length set)) (mul (of_usize 64) (of_usize 64)))

  unfoldable pub base_of : Matches → List ℕ → Base
  base_of m s =
      if m.is_match (chars "^[0-9a-fA-F]{16,}$") s
      then hex
      else if m.is_match (chars "^[0-9A-Z]{16,}$") s
      then capitals
      else base64

  unfoldable pub p_of_base : Text → List ℕ → Base → F64
  unfolding p_random_distinct_values p_random_char_class p_random_bigrams
  p_of_base listed s base64 =
      mul (mul (p_random_distinct_values s 64) (p_random_char_class s base64))
        (p_random_bigrams listed s)
  p_of_base listed s base =
      mul (p_random_distinct_values s (base_size base)) (p_random_char_class s base)

  unfoldable pub p_random : Matches → Text → List ℕ → F64
  unfolding p_of_base base_of
  p_random m listed s = p_of_base listed s (base_of m s)
