-- ===== src/Text/Split.antt =====
-- Splitting at a character and joining again are inverse on pieces that lack it.
use vaultr.Prelude.{
  ℕ, ◌≡◌, refl, ap, ◌∙◌, inl, inr, true, false, none, some, List, [], ◌∷◌, ◌++◌, arith, ◌==◌, All,
  Bool-cases,
}
use vaultr.Text.{Text, split, join, lacks, push_head, rsplit_once}

-- `split` returns at least one piece.
pub split-cons : (d : ℕ) (s : Text) → (w : Text) × (ws : List Text) × (split d s ≡ w ∷ ws)
unfolding split
split-cons d [] = ([], [], refl)
split-cons d (c ∷ s) = elim (Bool-cases (c == d)) [
  | inl hit ↦ rw hit ([], split d s, refl)
  | inr miss ↦ rw miss (let (w, ws, e) = split-cons d s in (c ∷ w, ws, ap (push_head c) e))
]

join-cons_nil :
    (d : ℕ) (ws : List Text) (w v : Text) (vs : List Text)
    → ws ≡ v ∷ vs
    → join d (w ∷ ws) ≡ w ++ (d ∷ join d ws)
unfolding join
join-cons_nil d ws w v vs e = rw e

join-push_head :
    (d c : ℕ) (ws : List Text) (v : Text) (vs : List Text)
    → ws ≡ v ∷ vs
    → join d (push_head c ws) ≡ c ∷ join d ws
unfolding join
join-push_head d c [] v vs e = cc
join-push_head d c (w ∷ []) v vs e = refl
join-push_head d c (w ∷ x ∷ ws) v vs e = refl

-- Joining the pieces gives the text back.
pub join-split : (d : ℕ) (s : Text) → join d (split d s) ≡ s
unfolding split
join-split d [] = unfold join in refl
join-split d (c ∷ s) =
    let (w, ws, e) = split-cons d s in
    elim (Bool-cases (c == d)) [
      | inl hit ↦ rw hit (join-cons_nil d (split d s) [] w ws e ∙ ground (arith, join-split d s))
      | inr miss ↦ rw miss (join-push_head d c (split d s) w ws e ∙ ap (◌∷◌ c) (join-split d s))
    ]

All-push_head :
    (d c : ℕ) (ws : List Text)
    → (c == d) ≡ false
    → All (λ w. lacks d w ≡ true) ws
    → All (λ w. lacks d w ≡ true) (push_head c ws)
All-push_head d c [] m h = ground arith
All-push_head d c (w ∷ ws) m h = (rw m h.0, h.1)

-- No piece has the separator.
pub split-lacks : (d : ℕ) (s : Text) → All (λ w. lacks d w ≡ true) (split d s)
unfolding split
split-lacks d [] = (refl, tt)
split-lacks d (c ∷ s) = elim (Bool-cases (c == d)) [
  | inl hit ↦ rw hit (refl, split-lacks d s)
  | inr miss ↦ rw miss (All-push_head d c (split d s) miss (split-lacks d s))
]

pub split-of_lacks : (d : ℕ) (w : Text) → lacks d w ≡ true → split d w ≡ w ∷ []
unfolding split
split-of_lacks d [] h = refl
split-of_lacks d (c ∷ w) h = ground (arith, split-of_lacks d w)

-- A piece in front of a separator is the first piece.
pub split-append : (d : ℕ) (w s : Text) → lacks d w ≡ true → split d (w ++ (d ∷ s)) ≡ w ∷ split d s
unfolding split
split-append d [] s h = ground arith
split-append d (c ∷ w) s h = ground (arith, split-append d w s)

-- Around its last separator a text is taken apart exactly.
pub rsplit_once-append :
    (d : ℕ) (w s : Text) → lacks d s ≡ true → rsplit_once d (w ++ (d ∷ s)) ≡ some (w, s)
unfolding rsplit_once
rsplit_once-append d [] s h = rw (rsplit_once-of_lacks d s h, rsplit_once) (ground arith)
  where
    rsplit_once-of_lacks : (d : ℕ) (s : Text) → lacks d s ≡ true → rsplit_once d s ≡ none
    rsplit_once-of_lacks d [] h = refl
    rsplit_once-of_lacks d (c ∷ s) h = ground (arith, rsplit_once-of_lacks d s)
rsplit_once-append d (c ∷ w) s h = ground (arith, rsplit_once-append d w s)
