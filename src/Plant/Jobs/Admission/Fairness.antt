-- ===== src/Plant/Jobs/Admission/Fairness.antt =====
-- How long a due job waits for its turn.
use vaultr.Prelude.{
  ℕ, zero, suc, ◌+◌, ◌-◌, ◌*◌, ◌≤◌, ◌<◌, ◌≡◌, refl, sym, subst, Bool, true, false, ◌||◌, inl, inr,
  ◌⊎◌, List, [], ◌∷◌, All, filter, length, Bool-cases, arith,
}
use native.Mathlib.Nat.{suc-mul, zero-mul}
use vaultr.Text.{Text, text_eq, text_eq_iff, text_eq_refl}
use vaultr.Recon.Delta.{is_one_of}
use vaultr.Plant.Jobs.Admission.{
  is_ordinary, select, defer, take_from, take_with_reserved, refresh, requeue_all, Tick, tick,
}
use vaultr.Plant.Jobs.Admission.Selection.{take_from-reserved, take_from-ordinary, take_from-spent}
use vaultr.Plant.Jobs.Admission.Positions.{ahead, IsWithin, requeue_all-IsWithin, refresh-IsWithin}

-- The name is selected, or stays queued with so many fewer names in front of it.
abbrev Moves : Text → ℕ → List Text → List Text × List Text → Type 0
Moves name left pending (selected, deferred) =
    (is_one_of selected name ≡ true)
    ⊎ ((is_one_of deferred name ≡ true) × (ahead name deferred + left ≤ ahead name pending))

selected-Moves :
    (name : Text) (left : ℕ) (pending : List Text) (r : List Text × List Text)
    → Moves name left (name ∷ pending) (select name r)
selected-Moves name left pending (selected, deferred) = inl (rw (text_eq_refl name) refl)

deferred-Moves :
    (name : Text) (pending : List Text) (r : List Text × List Text)
    → Moves name 0 (name ∷ pending) (defer name r)
unfolding ahead
deferred-Moves name pending (selected, deferred) =
    inr (rw (text_eq_refl name) refl, rw (text_eq_refl name) (omega arith))

select-Moves :
    (name p : Text) (left fewer : ℕ) (pending : List Text) (r : List Text × List Text)
    → text_eq name p ≡ false
    → ahead name pending + left ≤ ahead name (p ∷ pending) + fewer
    → Moves name fewer pending r
    → Moves name left (p ∷ pending) (select p r)
select-Moves name p left fewer pending (selected, deferred) e h (inl s) = inl (rw (e, s) refl)
select-Moves name p left fewer pending (selected, deferred) e h (inr (d, n)) =
    inr (d, omega (arith, h, n))

defer-Moves :
    (name p : Text) (pending : List Text) (r : List Text × List Text)
    → text_eq name p ≡ false
    → is_ordinary p ≡ true
    → Moves name 0 pending r
    → Moves name 0 (p ∷ pending) (defer p r)
unfolding ahead
defer-Moves name p pending (selected, deferred) e o (inl s) = inl s
defer-Moves name p pending (selected, deferred) e o (inr (d, n)) =
    inr (rw (e, d) refl, rw (e, o) (omega (arith, n)))

ahead-ordinary :
    (name p : Text) (ps : List Text)
    → text_eq name p ≡ false
    → is_ordinary p ≡ true
    → ahead name (p ∷ ps) ≡ suc (ahead name ps)
unfolding ahead
ahead-ordinary name p ps e o = rw (e, o) refl

ahead-reserved :
    (name p : Text) (ps : List Text)
    → text_eq name p ≡ false
    → is_ordinary p ≡ false
    → ahead name (p ∷ ps) ≡ ahead name ps
unfolding ahead
ahead-reserved name p ps e o = rw (e, o) refl

-- The first name of the queue is this one, or another.
take_from-first :
    (name : Text) (left taken : ℕ) (pending : List Text)
    → is_ordinary name ≡ true
    → Moves name left (name ∷ pending) (take_from (taken + left) taken (name ∷ pending))
take_from-first name zero taken pending o =
    subst (Moves name 0 (name ∷ pending)) (sym (take_from-spent taken name pending o))
      (deferred-Moves name pending _)
take_from-first name (suc left) taken pending o =
    subst (Moves name (suc left) (name ∷ pending))
      (sym (take_from-ordinary left taken name pending o))
      (selected-Moves name (suc left) pending _)

take_from-other :
    (name p : Text) (left taken : ℕ) (pending : List Text)
    → text_eq name p ≡ false
    → is_ordinary p ≡ true
    → ((l k : ℕ) → Moves name l pending (take_from (k + l) k pending))
    → Moves name left (p ∷ pending) (take_from (taken + left) taken (p ∷ pending))
take_from-other name p zero taken pending e o rest =
    subst (Moves name 0 (p ∷ pending)) (sym (take_from-spent taken p pending o))
      (defer-Moves name p pending _ e o (rest 0 taken))
take_from-other name p (suc left) taken pending e o rest =
    subst (Moves name (suc left) (p ∷ pending)) (sym (take_from-ordinary left taken p pending o)) (
      select-Moves name p (suc left) left pending _ e
        (omega (arith, ahead-ordinary name p pending e o)) (rest left (suc taken)))

take_from-Moves :
    (name : Text) (left taken : ℕ) (pending : List Text)
    → is_ordinary name ≡ true
    → is_one_of pending name ≡ true
    → Moves name left pending (take_from (taken + left) taken pending)
take_from-Moves name left taken [] o q = ground (arith, q)
take_from-Moves name left taken (p ∷ pending) o q = elim (Bool-cases (text_eq name p)) [
  | inl e ↦
      subst
        (λ (n : Text). Moves name left (n ∷ pending) (take_from (taken + left) taken (n ∷ pending)))
        ((text_eq_iff name p).0 e) (take_from-first name left taken pending o)
  | inr e ↦
      let later = (rw e at q) in
      elim (Bool-cases (is_ordinary p)) [
        | inl op ↦
            take_from-other name p left taken pending e op
              (λ l k. take_from-Moves name l k pending o later)
        | inr op ↦
            subst (Moves name left (p ∷ pending))
              (sym (take_from-reserved (taken + left) taken p pending op))
              (select-Moves name p left left pending _ e
                (omega (arith, ahead-reserved name p pending e op))
                (take_from-Moves name left taken pending o later))
      ]
]

-- Whether one of the ticks selects the name.
unfoldable pub is_tried : ℕ → Text → List Text → List Tick → Bool
is_tried cap name pending [] = false
is_tried cap name pending (t ∷ ticks) =
    is_one_of (take_with_reserved (refresh pending t.due) cap).0 name
    || is_tried cap name (tick cap pending t).1 ticks

tick-Moves :
    (cap : ℕ) (name : Text) (bound : ℕ) (pending : List Text) (t : Tick)
    → is_ordinary name ≡ true
    → is_one_of t.due name ≡ true
    → IsWithin name bound pending
    → (is_one_of (take_with_reserved (refresh pending t.due) cap).0 name ≡ true)
      ⊎ ((cap ≤ bound) × IsWithin name (bound - cap) (tick cap pending t).1)
unfolding tick take_with_reserved
tick-Moves cap name bound pending t o d w = of_move (take_from cap 0 (refresh pending t.due)) (
    subst
      (λ (k : ℕ). Moves name cap (refresh pending t.due) (take_from k 0 (refresh pending t.due)))
      (none_taken cap) (take_from-Moves name cap 0 (refresh pending t.due) o within.queued))
  where
    none_taken : (n : ℕ) → 0 + n ≡ n
    none_taken n = omega arith

    within : IsWithin name bound (refresh pending t.due)
    within = refresh-IsWithin name bound pending t.due d w

    of_move :
        (r : List Text × List Text)
        → Moves name cap (refresh pending t.due) r
        → (is_one_of r.0 name ≡ true)
          ⊎ ((cap ≤ bound)
              × IsWithin name (bound - cap) (requeue_all r.1 (filter t.is_refused r.0)))
    of_move (selected, deferred) (inl s) = inl s
    of_move (selected, deferred) (inr (q, n)) = inr (
      omega (arith, n, within.near),
      requeue_all-IsWithin name (bound - cap) deferred (filter t.is_refused selected)
          record { queued = q; near = omega (arith, n, within.near) },
    )

tried-within :
    (cap : ℕ) (name : Text) (bound : ℕ) (pending : List Text) (ticks : List Tick)
    → is_ordinary name ≡ true
    → All (λ t. is_one_of t.due name ≡ true) ticks
    → bound < length ticks * cap
    → IsWithin name bound pending
    → is_tried cap name pending ticks ≡ true
unfolding is_tried
tried-within cap name bound pending [] o d l w = absurd (none_left cap l)
  where
    none_left : (n : ℕ) → bound < 0 * n → ⊥
    none_left n h = omega (arith, h, zero-mul n)
tried-within cap name bound pending (t ∷ ticks) o d l w =
    elim (tick-Moves cap name bound pending t o d.0 w) [
      | inl s ↦ rw s refl
      | inr (le, next) ↦
          rw
            (tried-within cap name (bound - cap) (tick cap pending t).1 ticks o d.1
              (omega (arith, l, le, suc-mul (length ticks) cap)) next)
            (or_true (is_one_of (take_with_reserved (refresh pending t.due) cap).0 name))
    ]
  where
    or_true : (b : Bool) → (b || true) ≡ true
    or_true true = refl
    or_true false = refl

-- An ordinary job that is queued, and due at each of the next ticks, is tried at one of them, if their
-- number times the capacity exceeds the number of ordinary jobs in front of it.
pub is_tried-due :
    (cap : ℕ) (name : Text) (pending : List Text) (ticks : List Tick)
    → is_ordinary name ≡ true
    → is_one_of pending name ≡ true
    → All (λ t. is_one_of t.due name ≡ true) ticks
    → ahead name pending < length ticks * cap
    → is_tried cap name pending ticks ≡ true
is_tried-due cap name pending ticks o q d h =
    tried-within cap name (ahead name pending) pending ticks o d h
      record { queued = q; near = omega arith }
