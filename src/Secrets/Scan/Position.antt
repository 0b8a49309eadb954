-- ===== src/Secrets/Scan/Position.antt =====
-- The line and the column of a hit.
use vaultr.Prelude.{
  ℕ, ◌+◌, ◌≡◌, refl, sym, ap, ◌∙◌, ◌⊎◌, inl, inr, Bool, true, false, arith, List, [], ◌∷◌, ◌++◌,
  ◌==◌, any, length, take, Bool-cases,
}
use vaultr.Secrets.Scan.{count_newlines, last_line, line_col}

abbrev pub is_newline : ℕ → Bool
is_newline c = c == b'\n'

-- The bytes are whole lines, each with its newline, and a row without one.
pub record IsPosition (before : List ℕ) (line col : ℕ) : Type 0 where
  pub above : List ℕ
  pub row : List ℕ
  pub parts : before ≡ above ++ row
  pub row_lacks : any is_newline row ≡ false
  pub whole : (above ≡ []) ⊎ ((ls : List ℕ) × (above ≡ ls ++ (b'\n' ∷ [])))
  pub line_eq : line ≡ count_newlines above + 1
  pub col_eq : col ≡ length row + 1

count-none : (s : List ℕ) → any is_newline s ≡ false → count_newlines s ≡ 0
unfolding count_newlines
count-none [] h = refl
count-none (b ∷ s) h = ground (arith, count-none s)

last-none : (s : List ℕ) → any is_newline s ≡ false → last_line s ≡ s
unfolding last_line
last-none [] h = refl
last-none (b ∷ s) h = ground (arith, last-none s)

last-newline :
    (b : ℕ) (s : List ℕ) → is_newline b ≡ true → any is_newline s ≡ false → last_line (b ∷ s) ≡ s
unfolding last_line
last-newline b s h k = rw (k, h) refl

last-later : (b : ℕ) (s : List ℕ) → any is_newline s ≡ true → last_line (b ∷ s) ≡ last_line s
unfolding last_line
last-later b s h = rw h refl

abbrev AtRow : List ℕ → List ℕ → Type 0
AtRow s row =
    (above : List ℕ) × (s ≡ above ++ row)
    × (any is_newline row ≡ false)
    × ((above ≡ []) ⊎ ((ls : List ℕ) × (above ≡ ls ++ (b'\n' ∷ []))))
    × (count_newlines above ≡ count_newlines s)

last_line-AtRow : (s : List ℕ) → AtRow s (last_line s)
unfolding count_newlines
last_line-AtRow [] = unfold last_line count_newlines in ([], refl, refl, inl refl, refl)
last_line-AtRow (b ∷ s) = elim (Bool-cases (any is_newline s)) [
  | inl later ↦ rw (last-later b s later) (further later (last_line-AtRow s))
  | inr last ↦ elim (Bool-cases (is_newline b)) [
    | inl newline ↦
        rw (last-newline b s newline last)
          (b ∷ [], refl, last, inr ([], ap (λ c. c ∷ []) (is_lf newline)), one last)
    | inr plain ↦
        rw (last-none (b ∷ s) (both plain last))
          ([], refl, both plain last, inl refl, sym (count-none (b ∷ s) (both plain last)))
  ]
]
  where
    is_lf : is_newline b ≡ true → b ≡ b'\n'
    is_lf h = ground arith

    both : is_newline b ≡ false → any is_newline s ≡ false → any is_newline (b ∷ s) ≡ false
    both h k = ground arith

    one : any is_newline s ≡ false → count_newlines (b ∷ []) ≡ count_newlines (b ∷ s)
    one h = unfold count_newlines in rw (count-none s h) refl

    further : any is_newline s ≡ true → AtRow s (last_line s) → AtRow (b ∷ s) (last_line s)
    further later (above, e, lacks, whole, n) =
        (b ∷ above, ap (◌∷◌ b) e, lacks, inr (ends whole), unfold count_newlines in rw n refl)
      where
        never : above ≡ [] → ⊥
        never z =
            clash (
              sym later ∙ ap (any is_newline) (e ∙ ap (λ (a : List ℕ). a ++ last_line s) z) ∙ lacks)
          where
            clash : true ≡ false → ⊥
            clash q = cc

        ends :
            (above ≡ []) ⊎ ((ls : List ℕ) × (above ≡ ls ++ (b'\n' ∷ [])))
            → (ls : List ℕ) × (b ∷ above ≡ ls ++ (b'\n' ∷ []))
        ends (inl z) = absurd (never z)
        ends (inr (ls, q)) = (b ∷ ls, ap (◌∷◌ b) q)

-- The line and the column of an offset count from one the whole lines before it and the bytes behind
-- the last newline before it.
pub line_col-IsPosition :
    (haystack : List ℕ) (offset : ℕ)
    → IsPosition (take offset haystack) (line_col haystack offset).0 (line_col haystack offset).1
unfolding line_col
line_col-IsPosition haystack offset =
    let (above, e, lacks, whole, n) = last_line-AtRow (take offset haystack) in
    record {
      above = above;
      row = last_line (take offset haystack);
      parts = e;
      row_lacks = lacks;
      whole = whole;
      line_eq = ap (λ (k : ℕ). k + 1) (sym n);
      col_eq = refl;
    }
