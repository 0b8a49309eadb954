-- ===== src/Broker/Store/Rows.antt =====
-- A listing that is printed as rows of `<key>\t<size>` is read back.
use vaultr.Prelude.{
  ℕ, ◌<◌, ◌≡◌, refl, sym, ap, ◌∙◌, inl, inr, true, false, not, some, List, [], ◌∷◌, ◌++◌, arith,
  all, all-append, All, is_empty, Bool-cases, ◌==◌,
}
use vaultr.Text.{
  Text, chars, text_eq, text_eq_iff, trim, lines, line_list, strip_cr, split, rsplit_once, lacks,
  is_whitespace, is_ascii_digit, u64_limit, show,
}
use vaultr.Text.Decimal.{parse_u64-show, show-digits, show-cons}
use vaultr.Text.Split.{split-append, split-cons, rsplit_once-append}
use vaultr.Text.Trim.{trim_id, trim_end_id, trim_end-keeps, trim-framed}
use vaultr.Broker.Store.{Object, parse_row, pieces_object, is_row, parse_listing}

-- format!("{}\t{}", o.key, o.size)
abbrev pub row : Object → Text
row o = o.key ++ (9 ∷ show o.size)

-- The body of a listing: each row and a newline.
unfoldable pub print_rows : List Object → Text
print_rows [] = []
print_rows (o ∷ objects) = row o ++ (10 ∷ print_rows objects)

-- A key without white space and a size of 64 bits.
pub record IsPlain (o : Object) : Type 0 where
  pub first : ℕ
  pub rest : Text
  pub nonempty : o.key ≡ first ∷ rest
  pub no_space : all (λ c. not (is_whitespace c)) o.key ≡ true
  pub fits : o.size < u64_limit

cr_space : is_whitespace 13 ≡ true
unfolding is_whitespace
cr_space = refl

lf_space : is_whitespace 10 ≡ true
unfolding is_whitespace
lf_space = refl

tab_space : is_whitespace 9 ≡ true
unfolding is_whitespace
tab_space = refl

digit-no_space : (c : ℕ) → is_ascii_digit c ≡ true → is_whitespace c ≡ false
unfolding is_whitespace
digit-no_space c h = ground arith

digits-no_space :
    (s : Text) → all is_ascii_digit s ≡ true → all (λ c. not (is_whitespace c)) s ≡ true
digits-no_space [] h = refl
digits-no_space (c ∷ s) h = ground (arith, digit-no_space c, digits-no_space s)

no_space-lacks :
    (d : ℕ) (s : Text)
    → is_whitespace d ≡ true
    → all (λ c. not (is_whitespace c)) s ≡ true
    → lacks d s ≡ true
no_space-lacks d [] w h = refl
no_space-lacks d (c ∷ s) w h = ground (arith, no_space-lacks d s)

strip_cr-behind :
    (s t : Text) (d : ℕ) (r : Text) → t ≡ d ∷ r → strip_cr t ≡ t → strip_cr (s ++ t) ≡ s ++ t
unfolding strip_cr
strip_cr-behind [] t d r e h = h
strip_cr-behind (c ∷ []) t d r e h = rw (e, strip_cr) (ap (◌∷◌ c) (sym (ap strip_cr e) ∙ h ∙ e))
strip_cr-behind (c ∷ x ∷ s) t d r e h = ap (◌∷◌ c) (strip_cr-behind (x ∷ s) t d r e h)

strip_cr-digits : (s : Text) → all (λ c. not (is_whitespace c)) s ≡ true → strip_cr s ≡ s
unfolding strip_cr
strip_cr-digits [] h = refl
strip_cr-digits (c ∷ []) h = rw (ends c (ground arith)) refl
  where
    ends : (c : ℕ) → is_whitespace c ≡ false → (c == 13) ≡ false
    ends c h = ground (arith, cr_space)
strip_cr-digits (c ∷ d ∷ s) h = ap (◌∷◌ c) (strip_cr-digits (d ∷ s) (ground arith))

module _ (o : Object) (plain : IsPlain o) where
  size-no_space : all (λ c. not (is_whitespace c)) (show o.size) ≡ true
  size-no_space = digits-no_space (show o.size) (show-digits o.size)

  starts : is_whitespace plain.first ≡ false
  starts =
      first_char plain.first plain.rest
        (sym (ap (all (λ c. not (is_whitespace c))) plain.nonempty) ∙ plain.no_space)
    where
      first_char :
          (c : ℕ) (s : Text)
          → all (λ c. not (is_whitespace c)) (c ∷ s) ≡ true
          → is_whitespace c ≡ false
      first_char c s h = ground arith

  trim-row : trim (row o) ≡ row o
  trim-row =
      let (d, r, e) = show-cons o.size in
      rw plain.nonempty (
        trim-framed plain.first plain.rest (9 ∷ show o.size) 9 (show o.size) refl starts (
          trim_end-keeps is_whitespace 9 (show o.size) d r e
            (trim_end_id is_whitespace (show o.size) size-no_space)))

  row-lacks_lf : lacks 10 (row o) ≡ true
  row-lacks_lf = ground (
    arith,
    all-append (λ c. not (c == 10)) o.key (9 ∷ show o.size),
    no_space-lacks 10 o.key lf_space plain.no_space,
    no_space-lacks 10 (show o.size) lf_space size-no_space,
  )

  strip_cr-row : strip_cr (row o) ≡ row o
  strip_cr-row =
      let (d, r, e) = show-cons o.size in
      strip_cr-behind o.key (9 ∷ show o.size) 9 (show o.size) refl
        (strip_cr-behind (9 ∷ []) (show o.size) d r e (strip_cr-digits (show o.size) size-no_space))

  rsplit_once-row : rsplit_once 9 (row o) ≡ some (o.key, show o.size)
  rsplit_once-row =
      rsplit_once-append 9 o.key (show o.size)
        (no_space-lacks 9 (show o.size) tab_space size-no_space)

  -- A row has a tab, and the word None has none.
  row-ne_none : text_eq (row o) (chars "None") ≡ false
  row-ne_none = elim (Bool-cases (text_eq (row o) (chars "None"))) [
    | inl same ↦
        absurd (clash (sym rsplit_once-row ∙ ap (rsplit_once 9) ((text_eq_iff (row o) _).0 same)))
    | inr other ↦ other
  ]
    where
      clash : some (o.key, show o.size) ≡ rsplit_once 9 (chars "None") → ⊥
      clash e = unfold rsplit_once in cc e

  row-nonempty : is_empty (row o) ≡ false
  row-nonempty = rw plain.nonempty refl

  row-is_row : is_row (row o) ≡ true
  unfolding is_row
  row-is_row = rw (row-nonempty, row-ne_none) refl

  parse_row-row : parse_row (row o) ≡ some o
  unfolding parse_row
  parse_row-row =
      ap pieces_object rsplit_once-row
      ∙ rw (
        trim_id (show o.size) size-no_space,
        parse_u64-show o.size plain.fits,
        trim_id o.key plain.no_space,
      )

lines-row :
    (o : Object) (rest : Text) → IsPlain o → lines (row o ++ (10 ∷ rest)) ≡ row o ∷ lines rest
unfolding lines line_list
lines-row o rest plain =
    ap line_list (split-append 10 (row o) rest (row-lacks_lf o plain))
    ∙ by_rest (split 10 rest) (split-cons 10 rest)
    ∙ ap (λ (l : Text). l ∷ line_list (split 10 rest)) (strip_cr-row o plain)
  where
    by_rest :
        (ls : List Text)
        → (w : Text) × (ws : List Text) × (ls ≡ w ∷ ws)
        → line_list (row o ∷ ls) ≡ strip_cr (row o) ∷ line_list ls
    by_rest ls (w, ws, e) = rw e refl

parse_listing-row :
    (o : Object) (rest : Text)
    → IsPlain o
    → parse_listing (row o ++ (10 ∷ rest)) ≡ o ∷ parse_listing rest
unfolding parse_listing
parse_listing-row o rest plain =
    rw (lines-row o rest plain, trim-row o plain, row-is_row o plain, parse_row-row o plain)

-- The rows of objects with non-empty white-space-free keys and 64-bit sizes are read back as those
-- objects, in their order.
pub parse_listing-print_rows :
    (objects : List Object) → All IsPlain objects → parse_listing (print_rows objects) ≡ objects
unfolding print_rows
parse_listing-print_rows [] h = unfold parse_listing lines line_list split in refl
parse_listing-print_rows (o ∷ objects) h =
    parse_listing-row o (print_rows objects) h.0 ∙ ap (◌∷◌ o) (parse_listing-print_rows objects h.1)
