-- ===== src/Plant/Jobs/Admission/Selection.antt =====
-- Which names a tick selects.
use vaultr.Prelude.{
  ℕ, zero, suc, ◌+◌, ◌≡◌, refl, ap, sym, subst, ltb, Bool, true, false, not, inl, inr, List, [],
  ◌∷◌, filter, take, drop, Bool-cases, arith,
}
use vaultr.Text.{Text}
use vaultr.Plant.Jobs.Admission.{is_ordinary, select, defer, take_from, take_with_reserved}

abbrev pub is_reserved : Text → Bool
is_reserved name = not (is_ordinary name)

-- All reserved names, and as many ordinary ones as there are turns left.
abbrev pub Splits : ℕ → List Text → List Text × List Text → Type 0
Splits turns pending (selected, deferred) =
    (filter is_ordinary selected ≡ take turns (filter is_ordinary pending))
    × (filter is_reserved selected ≡ filter is_reserved pending)
    × (deferred ≡ drop turns (filter is_ordinary pending))

pub ltb-taken : (taken left : ℕ) → ltb taken (taken + suc left) ≡ true
ltb-taken taken left = ground arith

pub ltb-all_taken : (taken : ℕ) → ltb taken (taken + 0) ≡ false
ltb-all_taken taken = ground arith

select-reserved :
    (left : ℕ) (name : Text) (pending : List Text) (r : List Text × List Text)
    → is_ordinary name ≡ false
    → Splits left pending r
    → Splits left (name ∷ pending) (select name r)
select-reserved left name pending (selected, deferred) e (o, r, d) =
    rw e (o, ap (λ (ns : List Text). name ∷ ns) r, d)

select-ordinary :
    (left : ℕ) (name : Text) (pending : List Text) (r : List Text × List Text)
    → is_ordinary name ≡ true
    → Splits left pending r
    → Splits (suc left) (name ∷ pending) (select name r)
select-ordinary left name pending (selected, deferred) e (o, r, d) =
    rw e (ap (λ (ns : List Text). name ∷ ns) o, r, d)

defer-ordinary :
    (name : Text) (pending : List Text) (r : List Text × List Text)
    → is_ordinary name ≡ true
    → Splits 0 pending r
    → Splits 0 (name ∷ pending) (defer name r)
defer-ordinary name pending (selected, deferred) e (o, r, d) =
    rw e (o, r, ap (λ (ns : List Text). name ∷ ns) d)

pub take_from-reserved :
    (turns taken : ℕ) (name : Text) (pending : List Text)
    → is_ordinary name ≡ false
    → take_from turns taken (name ∷ pending) ≡ select name (take_from turns taken pending)
unfolding take_from
take_from-reserved turns taken name pending e = rw e refl

pub take_from-ordinary :
    (left taken : ℕ) (name : Text) (pending : List Text)
    → is_ordinary name ≡ true
    → take_from (taken + suc left) taken (name ∷ pending)
      ≡ select name (take_from (suc taken + left) (suc taken) pending)
unfolding take_from
take_from-ordinary left taken name pending e =
    rw (e, ltb-taken taken left)
      (ap (λ (turns : ℕ). select name (take_from turns (suc taken) pending)) (moved_suc taken left))
  where
    moved_suc : (m n : ℕ) → m + suc n ≡ suc m + n
    moved_suc m n = omega arith

pub take_from-spent :
    (taken : ℕ) (name : Text) (pending : List Text)
    → is_ordinary name ≡ true
    → take_from (taken + 0) taken (name ∷ pending)
      ≡ defer name (take_from (taken + 0) taken pending)
unfolding take_from
take_from-spent taken name pending e = rw (e, ltb-all_taken taken) refl

take_from-Splits :
    (left taken : ℕ) (pending : List Text)
    → Splits left pending (take_from (taken + left) taken pending)
take_from-Splits zero taken [] = unfold take_from in (refl, refl, refl)
take_from-Splits (suc left) taken [] = unfold take_from in (refl, refl, refl)
take_from-Splits left taken (name ∷ pending) = elim (Bool-cases (is_ordinary name)) [
  | inr e ↦
      subst (Splits left (name ∷ pending))
        (sym (take_from-reserved (taken + left) taken name pending e))
        (select-reserved left name pending (take_from (taken + left) taken pending) e
          (take_from-Splits left taken pending))
  | inl e ↦ turn left e (λ l k. take_from-Splits l k pending)
]
  where
    turn :
        (l : ℕ)
        → is_ordinary name ≡ true
        → ((m k : ℕ) → Splits m pending (take_from (k + m) k pending))
        → Splits l (name ∷ pending) (take_from (taken + l) taken (name ∷ pending))
    turn zero e rest =
        subst (Splits 0 (name ∷ pending)) (sym (take_from-spent taken name pending e))
          (defer-ordinary name pending (take_from (taken + 0) taken pending) e (rest 0 taken))
    turn (suc l) e rest =
        subst (Splits (suc l) (name ∷ pending)) (sym (take_from-ordinary l taken name pending e)) (
          select-ordinary l name pending (take_from (suc taken + l) (suc taken) pending) e
            (rest l (suc taken)))

-- The names that are selected from a queue are all of those with a reserved lease and the first
-- ordinary ones, as many as there are turns; the other ordinary names stay queued. Each part is in the
-- order of the queue.
pub take_with_reserved-Splits :
    (pending : List Text) (turns : ℕ) → Splits turns pending (take_with_reserved pending turns)
unfolding take_with_reserved
take_with_reserved-Splits pending turns =
    subst (λ (t : ℕ). Splits turns pending (take_from t 0 pending)) (none_taken turns)
      (take_from-Splits turns 0 pending)
  where
    none_taken : (n : ℕ) → 0 + n ≡ n
    none_taken n = omega arith
