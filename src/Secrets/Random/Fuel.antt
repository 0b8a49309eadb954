-- ===== src/Secrets/Random/Fuel.antt =====
-- The recursion of `num_distinct_configurations_aux`.
use vaultr.Prelude.{
  ℕ, zero, suc, ◌+◌, ◌-◌, ◌≤◌, ◌<◌, ◌≡◌, refl, ap, ◌∙◌, Bool, true, false, arith, ltb,
}
use vaultr.Secrets.Random.{Float, sum_configurations, num_distinct_configurations_aux}

module _ (f : Float) where
  sum-same :
      (b : Bool) (position : ℕ) (x y a c : f.F64)
      → (b ≡ true → x ≡ y)
      → a ≡ c
      → sum_configurations f b position x a ≡ sum_configurations f b position y c
  sum-same true position x y a c h k = λ i. sum_configurations f true position (h refl i) (k i)
  sum-same false position x y a c h k = λ i. sum_configurations f false position x (k i)

  one_more :
      (fuel positions position remaining : ℕ)
      → remaining + (positions - position) < fuel
      → num_distinct_configurations_aux f (suc fuel) positions position remaining
        ≡ num_distinct_configurations_aux f fuel positions position remaining
  unfolding num_distinct_configurations_aux
  one_more zero positions position remaining h = absurd (none_below h)
    where
      none_below : remaining + (positions - position) < 0 → ⊥
      none_below k = omega arith
  one_more (suc fuel) positions position zero h = refl
  one_more (suc fuel) positions position (suc remaining) h =
      sum-same (ltb (suc position) positions) position _ _ _ _
        (λ inside. one_more fuel positions (suc position) (suc remaining) (ground arith))
        (one_more fuel positions position remaining (omega arith))

  with_fuel :
      (n k a b : ℕ)
      → a ≡ b
      → num_distinct_configurations_aux f a k 0 (n - k)
        ≡ num_distinct_configurations_aux f b k 0 (n - k)
  with_fuel n k a b e = ap (λ (m : ℕ). num_distinct_configurations_aux f m k 0 (n - k)) e

  more :
      (extra n k : ℕ)
      → k ≤ n
      → num_distinct_configurations_aux f (extra + suc n) k 0 (n - k)
        ≡ num_distinct_configurations_aux f (suc n) k 0 (n - k)
  more zero n k h = with_fuel n k _ _ (omega arith)
  more (suc extra) n k h =
      with_fuel n k _ (suc (extra + suc n)) (omega arith)
      ∙ one_more (extra + suc n) k 0 (n - k) (omega arith)
      ∙ more extra n k h

-- The fuel of one more than the number of values, which `num_distinct_configurations` gives, is enough:
-- with any larger fuel the recursion returns the same, where there are not more distinct values than
-- values.
pub num_distinct_configurations-fuel :
    (f : Float) (num_values num_distinct_values extra : ℕ)
    → num_distinct_values ≤ num_values
    → num_distinct_configurations_aux f
        (extra + suc num_values)
        num_distinct_values
        0
        (num_values - num_distinct_values)
      ≡ num_distinct_configurations_aux f
          (suc num_values)
          num_distinct_values
          0
          (num_values - num_distinct_values)
num_distinct_configurations-fuel f num_values num_distinct_values extra h =
    more f extra num_values num_distinct_values h
