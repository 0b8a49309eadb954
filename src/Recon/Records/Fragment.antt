-- ===== src/Recon/Records/Fragment.antt =====
-- The unterminated fragment at the end of a capture that still grows.
use vaultr.Prelude.{
  ℕ, ◌≡◌, ◌∙◌, refl, sym, ap, Bool, true, false, inl, inr, Option, none, some, List, [], ◌∷◌, ◌++◌,
  ◌||◌, ◌==◌, Bool-cases, if◌then◌else◌, arith,
}
use mathlib.Core.List.{reverse, reverse-cons}
use vaultr.Json.{Value, and_then}
use vaultr.Recon.Records.{
  PhysicalRecord, records, Segment, sealed, live_raw, Stream, run_records, run_record, run_trimmed,
  skip_whitespace, is_ascii_whitespace, run_segment, trim_record, has_residue, on_error, run_values,
}
use vaultr.Recon.Records.Whole.{IsWhole, run_segment-++}

any-++ : (xs ys : List ℕ) → has_residue (xs ++ ys) ≡ has_residue xs || has_residue ys
unfolding has_residue
any-++ [] ys = refl
any-++ (x ∷ xs) ys = elim (Bool-cases (is_ascii_whitespace x)) [
  | inl e ↦ rw (e, any-++ xs ys) refl
  | inr e ↦ rw e refl
]

residue-skip_whitespace : (bs : List ℕ) → has_residue (skip_whitespace bs) ≡ has_residue bs
unfolding has_residue skip_whitespace
residue-skip_whitespace [] = refl
residue-skip_whitespace (b ∷ bs) = elim (Bool-cases (is_ascii_whitespace b)) [
  | inl e ↦ rw (e, residue-skip_whitespace bs) refl
  | inr e ↦ ap (λ (t : Bool). has_residue (if t then skip_whitespace bs else b ∷ bs)) e
]

or_comm : (a b : Bool) → (a || b) ≡ (b || a)
or_comm true true = refl
or_comm true false = refl
or_comm false true = refl
or_comm false false = refl

residue-reverse : (bs : List ℕ) → has_residue (reverse bs) ≡ has_residue bs
unfolding has_residue
residue-reverse [] = refl
residue-reverse (b ∷ bs) =
    ap has_residue (reverse-cons b bs)
    ∙ any-++ (reverse bs) (b ∷ [])
    ∙ ap (λ (t : Bool). t || has_residue (b ∷ [])) (residue-reverse bs)
    ∙ or_comm (has_residue bs) (has_residue (b ∷ []))
    ∙ sym (any-++ (b ∷ []) bs)

-- Trimming keeps what is not whitespace.
residue-trim_record : (bs : List ℕ) → has_residue (trim_record bs) ≡ has_residue bs
unfolding trim_record
residue-trim_record bs =
    residue-reverse (skip_whitespace (reverse (skip_whitespace bs)))
    ∙ residue-skip_whitespace (reverse (skip_whitespace bs))
    ∙ residue-reverse (skip_whitespace bs)
    ∙ residue-skip_whitespace bs

-- Bytes of one unterminated record.
pub data IsFragment : List ℕ → Type 0 where
  last_byte : (b : ℕ) → (b == 10) ≡ false → IsFragment (b ∷ [])
  byte : {bs : List ℕ} (b : ℕ) → (b == 10) ≡ false → IsFragment bs → IsFragment (b ∷ bs)

records-fragment : (bs : List ℕ) → IsFragment bs → records bs ≡ (bs, false) ∷ []
unfolding records
records-fragment bs (last_byte b e) = rw e refl
records-fragment (b ∷ bs) (byte _ e more) = rw (e, records-fragment bs more) refl

module _ {ℓ} {S : Type ℓ} (stream : Stream) (visit : Value → S → Option S) where
  -- The outcome of an unterminated fragment.
  abbrev pub of_fragment : Segment → S → Option S
  of_fragment sealed s = none
  of_fragment live_raw s = some s

  run_values-fragment :
      (segment : Segment) (trimmed : List ℕ) (s : S)
      → has_residue trimmed ≡ true
      → run_values stream visit segment false trimmed 0 [] true s ≡ of_fragment segment s
  unfolding run_values on_error
  run_values-fragment sealed trimmed s h = rw h refl
  run_values-fragment live_raw trimmed s h = rw h refl

  kept-of_fragment :
      (segment : Segment) (s : S) → and_then some (of_fragment segment s) ≡ of_fragment segment s
  kept-of_fragment sealed s = refl
  kept-of_fragment live_raw s = refl

  run_trimmed-fragment :
      (segment : Segment) (trimmed : List ℕ) (s : S)
      → has_residue trimmed ≡ true
      → stream trimmed ≡ ([], true)
      → run_trimmed stream visit segment false trimmed s ≡ of_fragment segment s
  unfolding run_trimmed has_residue
  run_trimmed-fragment segment [] s h e = ground (arith, h)
  run_trimmed-fragment segment (b ∷ bs) s h e =
      ap
        (λ (d : List (Value × ℕ) × Bool).
          run_values stream visit segment false (b ∷ bs) 0 d.0 d.1 s)
        e
      ∙ run_values-fragment segment (b ∷ bs) s h

  run_segment-fragment :
      (segment : Segment) (bs : List ℕ) (s : S)
      → IsFragment bs
      → has_residue bs ≡ true
      → stream (trim_record bs) ≡ ([], true)
      → run_segment stream visit segment bs s ≡ of_fragment segment s
  unfolding run_segment run_records run_record
  run_segment-fragment segment bs s f h e =
      ap (λ (rs : List PhysicalRecord). run_records stream visit segment rs s)
        (records-fragment bs f)
      ∙ ap (and_then some)
          (run_trimmed-fragment segment (trim_record bs) s (residue-trim_record bs ∙ h) e)
      ∙ kept-of_fragment segment s

  and_then-identity :
      (f : S → Option S) → ((s : S) → f s ≡ some s) → (o : Option S) → and_then f o ≡ o
  and_then-identity f h none = refl
  and_then-identity f h (some s) = h s

  and_then-fails :
      (f : S → Option S) → ((s : S) → f s ≡ none) → (o : Option S) → and_then f o ≡ none
  and_then-fails f h none = refl
  and_then-fails f h (some s) = h s

  -- An unterminated record behind whole ones, in which the stream finds no value and that is not only
  -- whitespace, is ignored in a live segment and makes a sealed one fail.
  pub run_segment-unterminated :
      (whole bs : List ℕ) (s : S)
      → IsWhole whole
      → IsFragment bs
      → has_residue bs ≡ true
      → stream (trim_record bs) ≡ ([], true)
      → run_segment stream visit live_raw (whole ++ bs) s
          ≡ run_segment stream visit live_raw whole s
        × run_segment stream visit sealed (whole ++ bs) s ≡ none
  run_segment-unterminated whole bs s w f h e = (
    run_segment-++ stream visit live_raw whole bs s w
        ∙ and_then-identity (run_segment stream visit live_raw bs)
            (λ s1. run_segment-fragment live_raw bs s1 f h e)
            (run_segment stream visit live_raw whole s),
    run_segment-++ stream visit sealed whole bs s w
        ∙ and_then-fails (run_segment stream visit sealed bs)
            (λ s1. run_segment-fragment sealed bs s1 f h e)
            (run_segment stream visit sealed whole s),
  )
