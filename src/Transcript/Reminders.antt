-- ===== src/Transcript/Reminders.antt =====
-- The removal of reminders from a text.
use vaultr.Prelude.{
  ℕ, zero, suc, ◌+◌, ◌≤◌, ◌<◌, ◌≡◌, ◌∙◌, refl, ap, sym, subst, Option, none, some, [], ◌∷◌, ◌++◌,
  length, length-append, arith,
}
use mathlib.Core.Option.{none-ne-some, some-injective}
use vaultr.Text.{Text, strip_prefix}
use vaultr.Text.Prefix.{append_of_strip_prefix}
use vaultr.Transcript.{
  split_at, found_or, before_char, reminder_open, reminder_close, behind_span, from_span,
  strip_spans, strip_system_reminders,
}

-- The text around an occurrence of a pattern.
abbrev Around : Text → Text → Text × Text → Type 0
Around pattern s (a, b) = s ≡ a ++ (pattern ++ b)

found-Around :
    (pattern s : Text) (o : Option Text) (later : Option (Text × Text)) (r : Text × Text)
    → strip_prefix pattern s ≡ o
    → found_or o later ≡ some r
    → (later ≡ some r → Around pattern s r)
    → Around pattern s r
found-Around pattern s none later r e f g = g f
found-Around pattern s (some rest) later r e f g =
    subst (Around pattern s) (some-injective ([], rest) r f)
      (append_of_strip_prefix pattern s rest e)

before-Around :
    (pattern s : Text) (c : ℕ) (o : Option (Text × Text)) (r : Text × Text)
    → before_char c o ≡ some r
    → ((q : Text × Text) → o ≡ some q → Around pattern s q)
    → Around pattern (c ∷ s) r
before-Around pattern s c none r e h = absurd (none-ne-some r e)
before-Around pattern s c (some (a, b)) r e h =
    subst (Around pattern (c ∷ s)) (some-injective (c ∷ a, b) r e) (ap (λ t. c ∷ t) (h (a, b) refl))

split_at-Around :
    (pattern s : Text) (r : Text × Text) → split_at pattern s ≡ some r → Around pattern s r
unfolding split_at
split_at-Around pattern [] r e =
    found-Around pattern [] (strip_prefix pattern []) none r refl e (λ f. absurd (none-ne-some r f))
split_at-Around pattern (c ∷ s) r e =
    found-Around pattern (c ∷ s) (strip_prefix pattern (c ∷ s)) (before_char c (split_at pattern s))
      r refl e
      (λ f.
        before-Around pattern s c (split_at pattern s) r f (λ q g. split_at-Around pattern s q g))

length-Around :
    (pattern s : Text) (r : Text × Text)
    → Around pattern s r
    → length r.0 + (length pattern + length r.1) ≡ length s
length-Around pattern s (a, b) e =
    omega (arith, ap length e, length-append a (pattern ++ b), length-append pattern b)

-- A round continues on a shorter text.
from_span-shorter :
    (rest : Text) (f g : Text → Text)
    → ((t : Text) → length t < length rest → f t ≡ g t)
    → from_span rest (split_at reminder_open rest) f
      ≡ from_span rest (split_at reminder_open rest) g
from_span-shorter rest f g h = of_open (split_at reminder_open rest) refl
  where
    of_close :
        (kept span : Text) (o : Option (Text × Text))
        → split_at reminder_open rest ≡ some (kept, span)
        → split_at reminder_close (reminder_open ++ span) ≡ o
        → behind_span kept o f ≡ behind_span kept o g
    of_close kept span none p q = refl
    of_close kept span (some (skipped, behind)) p q =
        ap (λ t. kept ++ t)
          (h behind (
            omega (
              arith,
              length-Around reminder_open rest (kept, span)
                  (split_at-Around reminder_open rest (kept, span) p),
              length-Around reminder_close (reminder_open ++ span) (skipped, behind)
                  (split_at-Around reminder_close (reminder_open ++ span) (skipped, behind) q),
              length-append reminder_open span,
            )))

    of_open :
        (o : Option (Text × Text))
        → split_at reminder_open rest ≡ o
        → from_span rest o f ≡ from_span rest o g
    of_open none p = refl
    of_open (some (kept, span)) p =
        of_close kept span (split_at reminder_close (reminder_open ++ span)) p refl

from_span-nothing : (f : Text → Text) → from_span [] (split_at reminder_open []) f ≡ []
unfolding split_at strip_prefix
from_span-nothing f = refl

-- Two amounts of fuel that are enough.
strip_spans-fuel :
    (n m : ℕ) (s : Text) → length s ≤ n → length s ≤ m → strip_spans n s ≡ strip_spans m s
unfolding strip_spans
strip_spans-fuel zero zero s a b = refl
strip_spans-fuel zero (suc m) [] a b = sym (from_span-nothing (strip_spans m))
strip_spans-fuel zero (suc m) (c ∷ s) a b = ground (arith, a)
strip_spans-fuel (suc n) zero [] a b = from_span-nothing (strip_spans n)
strip_spans-fuel (suc n) zero (c ∷ s) a b = ground (arith, b)
strip_spans-fuel (suc n) (suc m) s a b =
    from_span-shorter s (strip_spans n) (strip_spans m)
      (λ t l. strip_spans-fuel n m t (omega (arith, l, a)) (omega (arith, l, b)))

-- The removal of reminders is one round of the loop and the removal behind it.
pub strip_system_reminders-round :
    (s : Text)
    → strip_system_reminders s ≡ from_span s (split_at reminder_open s) strip_system_reminders
unfolding strip_system_reminders strip_spans
strip_system_reminders-round s =
    strip_spans-fuel (length s) (suc (length s)) s (omega arith) (omega arith)
    ∙ from_span-shorter s (strip_spans (length s)) (λ t. strip_spans (length t) t)
        (λ t l. strip_spans-fuel (length s) (length t) t (omega (arith, l)) (omega arith))
