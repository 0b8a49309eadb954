-- ===== src/Text/Trim.antt =====
-- What trimming leaves alone.
use vaultr.Prelude.{
  ℕ, ◌≡◌, refl, sym, ap, ◌∙◌, ◌⊎◌, Bool, true, false, not, [], ◌∷◌, ◌++◌, arith, all,
}
use mathlib.Core.List.{append-nil}
use vaultr.Text.{Text, trim_start, trim_end, trim_matches, trim, is_whitespace}

trim_end-step :
    (p : ℕ → Bool) (c : ℕ) (s t : Text)
    → p c ≡ false
    → trim_end p s ≡ t
    → trim_end p (c ∷ s) ≡ c ∷ t
unfolding trim_end
trim_end-step p c s [] h e = rw e (rw h refl)
trim_end-step p c s (d ∷ t) h e = rw e refl

-- Nothing is taken from behind a piece that has no character to trim.
pub trim_end-append :
    (p : ℕ → Bool) (w s : Text)
    → all (λ c. not (p c)) w ≡ true
    → trim_end p (w ++ s) ≡ w ++ trim_end p s
trim_end-append p [] s h = refl
trim_end-append p (c ∷ w) s h =
    trim_end-step p c (w ++ s) (w ++ trim_end p s) (ground arith)
      (trim_end-append p w s (ground arith))

pub trim_end-cons :
    (p : ℕ → Bool) (c : ℕ) (s : Text)
    → (trim_end p (c ∷ s) ≡ []) ⊎ (trim_end p (c ∷ s) ≡ c ∷ trim_end p s)
unfolding trim_end
trim_end-cons p c s = ground arith

pub trim_matches-append :
    (p : ℕ → Bool) (c : ℕ) (w s : Text)
    → all (λ d. not (p d)) (c ∷ w) ≡ true
    → trim_matches p (c ∷ (w ++ s)) ≡ c ∷ (w ++ trim_end p s)
unfolding trim_matches
trim_matches-append p c w s h = ap (trim_end p) starts ∙ trim_end-append p (c ∷ w) s h
  where
    starts : trim_start p (c ∷ (w ++ s)) ≡ c ∷ (w ++ s)
    starts = ground arith

-- A text of which no character is to be trimmed stays as it is.
pub trim_matches_id :
    (p : ℕ → Bool) (s : Text) → all (λ c. not (p c)) s ≡ true → trim_matches p s ≡ s
unfolding trim_matches
trim_matches_id p [] h = refl
trim_matches_id p (c ∷ s) h =
    (let e = trim_end-append p (c ∷ s) [] h in ground (arith, append-nil (c ∷ s)))

pub trim_id : (s : Text) → all (λ c. not (is_whitespace c)) s ≡ true → trim s ≡ s
unfolding trim
trim_id s h = trim_matches_id is_whitespace s h

pub trim_end-keeps :
    (p : ℕ → Bool) (c : ℕ) (u : Text) (x : ℕ) (y : Text)
    → u ≡ x ∷ y
    → trim_end p u ≡ u
    → trim_end p (c ∷ u) ≡ c ∷ u
unfolding trim_end
trim_end-keeps p c u x y q k = rw k (rw q refl)

-- What stands in front of a text that has nothing to trim at its end is kept too.
pub trim_end-behind :
    (p : ℕ → Bool) (s t : Text) (d : ℕ) (r : Text)
    → t ≡ d ∷ r
    → trim_end p t ≡ t
    → trim_end p (s ++ t) ≡ s ++ t
trim_end-behind p [] t d r e h = h
trim_end-behind p (c ∷ s) t d r e h =
    let (x, y, q) = nonempty s in trim_end-keeps p c (s ++ t) x y q (trim_end-behind p s t d r e h)
  where
    nonempty : (s : Text) → (x : ℕ) × (y : Text) × (s ++ t ≡ x ∷ y)
    nonempty [] = (d, r, e)
    nonempty (x ∷ s) = (x, s ++ t, refl)

pub trim_end_id : (p : ℕ → Bool) (s : Text) → all (λ c. not (p c)) s ≡ true → trim_end p s ≡ s
unfolding trim_end
trim_end_id p s h = sym (ap (trim_end p) (append-nil s)) ∙ trim_end-append p s [] h ∙ append-nil s

pub trim-framed :
    (c : ℕ) (s t : Text) (d : ℕ) (r : Text)
    → t ≡ d ∷ r
    → is_whitespace c ≡ false
    → trim_end is_whitespace t ≡ t
    → trim (c ∷ (s ++ t)) ≡ c ∷ (s ++ t)
unfolding trim trim_matches trim_start
trim-framed c s t d r e h k = rw h (trim_end-behind is_whitespace (c ∷ s) t d r e k)
