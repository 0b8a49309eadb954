-- ===== src/Recon/Records/Whole.antt =====
-- Segments made of whole records, one behind another.
use vaultr.Prelude.{
  ℕ, ◌==◌, ◌≡◌, refl, ap, ◌∙◌, true, inl, inr, Option, none, some, List, [], ◌∷◌, ◌++◌, Bool-cases,
}
use mathlib.Core.List.{append_assoc}
use vaultr.Json.{Value, and_then}
use vaultr.Recon.Records.{
  PhysicalRecord, led_by, records, Segment, Stream, run_records, run_record, run_segment,
}

-- No bytes, or bytes that a newline ends.
pub data IsWhole : List ℕ → Type 0 where
  no_bytes : IsWhole []
  terminated : (bs : List ℕ) → IsWhole (bs ++ 10 ∷ [])

led_by-++ :
    (b : ℕ) (rs ts : List PhysicalRecord)
    → (r : PhysicalRecord) × (more : List PhysicalRecord) × (rs ≡ r ∷ more)
    → led_by b (rs ++ ts) ≡ led_by b rs ++ ts
led_by-++ b rs ts (r, more, e) = rw e refl

-- Bytes that a newline ends have a record.
records-newline :
    (bs : List ℕ)
    → (r : PhysicalRecord) × (more : List PhysicalRecord) × (records (bs ++ 10 ∷ []) ≡ r ∷ more)
unfolding records
records-newline [] = (_, _, refl)
records-newline (b ∷ bs) = elim (Bool-cases (b == 10)) [
  | inl e ↦ (([], true), records (bs ++ 10 ∷ []), rw e refl)
  | inr e ↦ let (r, more, h) = records-newline bs in ((b ∷ r.0, r.1), more, rw (e, h) refl)
]

-- The records of whole bytes stand before the others.
records-++ : (xs ys : List ℕ) → records (xs ++ 10 ∷ ys) ≡ records (xs ++ 10 ∷ []) ++ records ys
unfolding records
records-++ [] ys = refl
records-++ (x ∷ xs) ys = elim (Bool-cases (x == 10)) [
  | inl e ↦ rw (e, records-++ xs ys) refl
  | inr e ↦
      rw (e, records-++ xs ys)
        (led_by-++ x (records (xs ++ 10 ∷ [])) (records ys) (records-newline xs))
]

whole-++ : (xs ys : List ℕ) → IsWhole xs → records (xs ++ ys) ≡ records xs ++ records ys
unfolding records
whole-++ xs ys no_bytes = refl
whole-++ xs ys (terminated bs) = ap records (append_assoc bs (10 ∷ []) ys) ∙ records-++ bs ys

module _ {ℓ} {S : Type ℓ} (stream : Stream) (visit : Value → S → Option S) where
  run_records-++ :
      (segment : Segment) (rs ts : List PhysicalRecord) (s : S)
      → run_records stream visit segment (rs ++ ts) s
        ≡ and_then (run_records stream visit segment ts) (run_records stream visit segment rs s)
  unfolding run_records
  run_records-++ segment [] ts s = refl
  run_records-++ segment (r ∷ rs) ts s =
      behind (run_record stream visit segment r s) (run_records-++ segment rs ts)
    where
      behind :
          (o : Option S)
          → ((s1 : S)
              → run_records stream visit segment (rs ++ ts) s1
                ≡ and_then
                    (run_records stream visit segment ts)
                    (run_records stream visit segment rs s1))
          → and_then (run_records stream visit segment (rs ++ ts)) o
            ≡ and_then
                (run_records stream visit segment ts)
                (and_then (run_records stream visit segment rs) o)
      behind none ih = refl
      behind (some s1) ih = ih s1

  -- A segment behind whole records is run behind them.
  pub run_segment-++ :
      (segment : Segment) (xs ys : List ℕ) (s : S)
      → IsWhole xs
      → run_segment stream visit segment (xs ++ ys) s
        ≡ and_then (run_segment stream visit segment ys) (run_segment stream visit segment xs s)
  unfolding run_segment
  run_segment-++ segment xs ys s w =
      ap (λ (rs : List PhysicalRecord). run_records stream visit segment rs s) (whole-++ xs ys w)
      ∙ run_records-++ segment (records xs) (records ys) s
