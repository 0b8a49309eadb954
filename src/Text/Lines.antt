-- ===== src/Text/Lines.antt =====
-- A line that is appended to a text that ends in a newline is one of its lines.
use vaultr.Prelude.{
  ℕ, ◌≡◌, refl, sym, ap, ◌∙◌, subst, inl, inr, ◌⊎◌, true, List, [], ◌∷◌, ◌++◌, Any, Bool-cases,
  arith, ◌==◌,
}
use vaultr.Text.{Text, split, lines, line_list, lacks, strip_cr, push_head}
use vaultr.Text.Split.{split-cons, split-append}

-- The pieces behind a separator stay as they are.
split-behind :
    (d : ℕ) (s rest : Text)
    → (p : Text) × (ps : List Text) × (split d (s ++ (d ∷ rest)) ≡ p ∷ (ps ++ split d rest))
unfolding split
split-behind d [] rest = ([], [], ground arith)
split-behind d (c ∷ s) rest =
    let (p, ps, e) = split-behind d s rest in
    elim (Bool-cases (c == d)) [
      | inl hit ↦ rw hit ([], p ∷ ps, ap (◌∷◌ []) e)
      | inr miss ↦ rw miss (c ∷ p, ps, ap (push_head c) e)
    ]

ended_append : (s t : Text) → (s ++ (10 ∷ [])) ++ t ≡ s ++ (10 ∷ t)
ended_append [] t = refl
ended_append (c ∷ s) t = ap (◌∷◌ c) (ended_append s t)

module _ (P : Text → Type 0) where
  Any-line_list :
      (p : Text) (ps : List Text) (w : Text) (ws : List Text)
      → Any P (line_list (w ∷ ws))
      → Any P (line_list (p ∷ (ps ++ (w ∷ ws))))
  unfolding line_list
  Any-line_list p [] w ws h = inr h
  Any-line_list p (q ∷ ps) w ws h = inr (Any-line_list q ps w ws h)

  Any-behind : (s rest : Text) → Any P (lines rest) → Any P (lines (s ++ (10 ∷ rest)))
  unfolding lines
  Any-behind s rest h =
      let (p, ps, e) = split-behind 10 s rest in
      let (w, ws, f) = split-cons 10 rest in
      subst (λ ls. Any P (line_list ls)) (sym (e ∙ ap (λ ls. p ∷ (ps ++ ls)) f))
        (Any-line_list p ps w ws (subst (λ ls. Any P (line_list ls)) f h))

  pub Any-last_line :
      (line : Text)
      → lacks 10 line ≡ true
      → strip_cr line ≡ line
      → P line
      → Any P (lines (line ++ (10 ∷ [])))
  unfolding lines line_list split
  Any-last_line line l s p = rw (split-append 10 line [] l) (inl (rw s p))

  pub Any-ended :
      (text line : Text)
      → (text ≡ []) ⊎ ((s : Text) × (text ≡ s ++ (10 ∷ [])))
      → lacks 10 line ≡ true
      → strip_cr line ≡ line
      → P line
      → Any P (lines (text ++ (line ++ (10 ∷ []))))
  Any-ended text line (inl e) l c p = rw e (Any-last_line line l c p)
  Any-ended text line (inr (s, e)) l c p =
      subst (λ t. Any P (lines t))
        (sym (ap (λ t. t ++ (line ++ (10 ∷ []))) e ∙ ended_append s (line ++ (10 ∷ []))))
        (Any-behind s (line ++ (10 ∷ [])) (Any-last_line line l c p))
