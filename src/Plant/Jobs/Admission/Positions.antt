-- ===== src/Plant/Jobs/Admission/Positions.antt =====
-- The position of a name in the queue of due jobs.
use vaultr.Prelude.{
  ℕ, suc, ◌≤◌, ◌≡◌, refl, true, inl, inr, List, [], ◌∷◌, ◌++◌, filter, Bool-cases, if◌then◌else◌,
  arith,
}
use vaultr.Text.{Text, text_eq, text_eq_iff, text_eq_refl}
use vaultr.Recon.Delta.{is_one_of}
use vaultr.Recon.Delta.Prefix.{is_one_of-append}
use vaultr.Plant.Jobs.Admission.{is_ordinary, refresh, requeue, requeue_all}

-- The ordinary names in front of a name.
unfoldable pub ahead : Text → List Text → ℕ
ahead name [] = 0
ahead name (p ∷ ps) =
    let rest = ahead name ps in
    if text_eq name p then 0 else if is_ordinary p then suc rest else rest

-- The name is queued, behind at most that many ordinary ones.
pub record IsWithin (name : Text) (bound : ℕ) (pending : List Text) : Type 0 where
  pub queued : is_one_of pending name ≡ true
  pub near : ahead name pending ≤ bound

ahead-append :
    (name : Text) (ps more : List Text)
    → is_one_of ps name ≡ true
    → ahead name (ps ++ more) ≡ ahead name ps
unfolding ahead
ahead-append name [] more q = ground (arith, q)
ahead-append name (p ∷ ps) more q = ground (arith, q, ahead-append name ps more)

append-IsWithin :
    (name : Text) (bound : ℕ) (pending more : List Text)
    → IsWithin name bound pending
    → IsWithin name bound (pending ++ more)
append-IsWithin name bound pending more w = record {
  queued = is_one_of-append name pending more w.queued;
  near = omega (arith, ahead-append name pending more w.queued, w.near);
}

queued-filter :
    (name : Text) (due ps : List Text)
    → is_one_of due name ≡ true
    → is_one_of ps name ≡ true
    → is_one_of (filter (is_one_of due) ps) name ≡ true
queued-filter name due [] d q = q
queued-filter name due (p ∷ ps) d q = elim (Bool-cases (text_eq name p)) [
  | inl e ↦ rw⁻¹ ((text_eq_iff name p).0 e) (rw d (rw (text_eq_refl name) refl))
  | inr e ↦ ground (arith, q, e, queued-filter name due ps d)
]

ahead-filter :
    (name : Text) (due ps : List Text)
    → is_one_of due name ≡ true
    → is_one_of ps name ≡ true
    → ahead name (filter (is_one_of due) ps) ≤ ahead name ps
unfolding ahead
ahead-filter name due [] d q = omega arith
ahead-filter name due (p ∷ ps) d q = elim (Bool-cases (text_eq name p)) [
  | inl e ↦ rw⁻¹ ((text_eq_iff name p).0 e) (rw d (rw (text_eq_refl name) (omega arith)))
  | inr e ↦ ground (arith, q, e, ahead-filter name due ps d)
]

requeue-IsWithin :
    (name other : Text) (bound : ℕ) (pending : List Text)
    → IsWithin name bound pending
    → IsWithin name bound (requeue pending other)
unfolding requeue
requeue-IsWithin name other bound pending w = elim (Bool-cases (is_one_of pending other)) [
  | inl e ↦ rw e w
  | inr e ↦ rw e (append-IsWithin name bound pending (other ∷ []) w)
]

pub requeue_all-IsWithin :
    (name : Text) (bound : ℕ) (pending others : List Text)
    → IsWithin name bound pending
    → IsWithin name bound (requeue_all pending others)
requeue_all-IsWithin name bound pending [] w = w
requeue_all-IsWithin name bound pending (other ∷ others) w =
    requeue_all-IsWithin name bound (requeue pending other) others
      (requeue-IsWithin name other bound pending w)

pub refresh-IsWithin :
    (name : Text) (bound : ℕ) (pending due : List Text)
    → is_one_of due name ≡ true
    → IsWithin name bound pending
    → IsWithin name bound (refresh pending due)
unfolding refresh
refresh-IsWithin name bound pending due d w =
    requeue_all-IsWithin name bound (filter (is_one_of due) pending) due record {
      queued = queued-filter name due pending d w.queued;
      near = omega (arith, ahead-filter name due pending d w.queued, w.near);
    }
