-- ===== src/Secrets/Scan/Allowed.antt =====
-- What a reviewed false positive changes.
use vaultr.Prelude.{
  ℕ, ◌≡◌, ◌≢◌, refl, sym, ap, subst, ◌∙◌, inl, inr, Bool, true, false, not, ◌||◌, arith, Option,
  none, some, List, [], ◌∷◌, ◌++◌, any, map, filter, All, Bool-cases, if◌then◌else◌,
}
use vaultr.Text.{Text, text_eq, text_eq_iff, text_eq_refl}
use vaultr.Secrets.Matcher.{Detected, slice, find}
use vaultr.Secrets.Policy.{
  Policy, AllowEntry, relative_string, is_allowed, allowed_at, grants, add_allow, entry_for,
  allow_false_positive, allow_at,
}
use vaultr.Secrets.Scan.{Hit, scan_bytes, allows, detected_hit, is_skipped}

any-append : {A : Type 0} (p : A → Bool) (xs ys : List A) → any p (xs ++ ys) ≡ any p xs || any p ys
any-append p [] ys = refl
any-append p (x ∷ xs) ys = ground (arith, any-append p xs ys)

filter-same :
    {A : Type 0} (p q : A → Bool) (xs : List A) → ((a : A) → p a ≡ q a) → filter p xs ≡ filter q xs
filter-same p q [] h = refl
filter-same p q (x ∷ xs) h = rw (h x, filter-same p q xs h)

module _ (p : Policy) (rel_path : Text) (haystack : List ℕ) where
  abbrev Unallowed : Hit → Type 0
  Unallowed h = is_allowed p.digest p.allows rel_path h.rule (slice haystack h.span) ≡ false

  hits-Unallowed :
      (ds : List Detected)
      → All Unallowed
          (map (detected_hit haystack) (filter (λ d. not (allows p rel_path haystack d)) ds))
  unfolding allows detected_hit
  hits-Unallowed [] = tt
  hits-Unallowed (d ∷ ds) = elim (Bool-cases (allows p rel_path haystack d)) [
    | inl allowed ↦ rw allowed (hits-Unallowed ds)
    | inr plain ↦ rw plain (plain, hits-Unallowed ds)
  ]

  scan_bytes-Unallowed : All Unallowed (scan_bytes haystack rel_path p)
  unfolding scan_bytes
  scan_bytes-Unallowed = elim (Bool-cases (is_skipped p rel_path haystack)) [
    | inl skipped ↦ rw skipped tt
    | inr scanned ↦ rw scanned (hits-Unallowed (find p.judge haystack p.patterns))
  ]

-- The policy behind a decision that could be written.
abbrev pub reviewed : Policy → Text → Text → List ℕ → Text → Text → Policy
reviewed p rel_path rule matched note added =
    (allow_false_positive (λ _. true) p rel_path rule matched note added).1

reviewed-path :
    (p : Policy) (rel_path rule : Text) (matched : List ℕ) (note added path : Text)
    → relative_string rel_path ≡ some path
    → reviewed p rel_path rule matched note added
      ≡ add_allow p (entry_for p.digest path rule matched note added)
unfolding allow_false_positive
reviewed-path p rel_path rule matched note added path e =
    ap (λ (o : Option Text). (allow_at (λ _. true) p rule matched note added o).1) e

All-map-implies :
    {A : Type 0} (P Q : A → Type 0) (xs : List A) → ((a : A) → P a → Q a) → All P xs → All Q xs
All-map-implies P Q [] f h = tt
All-map-implies P Q (x ∷ xs) f h = (f x h.0, All-map-implies P Q xs f h.1)

-- Once a match of a rule is allowed at a repository-relative path, and the decision was written, no
-- scan of that path reports a hit of this rule on these bytes.
pub scan_bytes-reviewed :
    (p : Policy) (rel_path rule : Text) (matched : List ℕ) (note added path : Text)
    (haystack : List ℕ)
    → relative_string rel_path ≡ some path
    → All
        (λ h. ¬ ((h.rule ≡ rule) × (slice haystack h.span ≡ matched)))
        (scan_bytes haystack rel_path (reviewed p rel_path rule matched note added))
unfolding is_allowed add_allow
scan_bytes-reviewed p rel_path rule matched note added path haystack e =
    subst
      (λ (q : Policy).
        All (λ h. ¬ ((h.rule ≡ rule) × (slice haystack h.span ≡ matched)))
          (scan_bytes haystack rel_path q))
      (sym (reviewed-path p rel_path rule matched note added path e))
      (All-map-implies _ _ _ refuted (scan_bytes-Unallowed q rel_path haystack))
  where
    q : Policy
    q = add_allow p (entry_for p.digest path rule matched note added)

    granted : allowed_at q.allows (p.digest matched) rule (some path) ≡ true
    granted =
        any-append (grants path (p.digest matched) rule) p.allows
          (entry_for p.digest path rule matched note added ∷ [])
        ∙ rw (text_eq_refl path, text_eq_refl (p.digest matched), text_eq_refl rule) (or_true _)
      where
        or_true : (b : Bool) → (b || true) ≡ true
        or_true true = refl
        or_true false = refl

    refuted :
        (h : Hit)
        → Unallowed q rel_path haystack h
        → ¬ ((h.rule ≡ rule) × (slice haystack h.span ≡ matched))
    refuted h u (r, s) = clash (sym (rw (r, s, e) at u) ∙ granted)
      where
        clash : false ≡ true → ⊥
        clash z = cc

-- Allowing a match at one repository-relative path changes no scan of a path that names another
-- file, or none, of the repository.
pub scan_bytes-elsewhere :
    (p : Policy) (rel_path rule : Text) (matched : List ℕ) (note added path other : Text)
    (haystack : List ℕ)
    → relative_string rel_path ≡ some path
    → relative_string other ≢ some path
    → scan_bytes haystack other (reviewed p rel_path rule matched note added)
      ≡ scan_bytes haystack other p
unfolding scan_bytes add_allow allows is_allowed
scan_bytes-elsewhere p rel_path rule matched note added path other haystack e d =
    ap (scan_bytes haystack other) (reviewed-path p rel_path rule matched note added path e)
    ∙ ap (λ (hits : List Hit). if is_skipped p other haystack then [] else hits)
        (ap (map (detected_hit haystack)) (filter-same _ _ (find p.judge haystack p.patterns) same))
  where
    entry : AllowEntry
    entry = entry_for p.digest path rule matched note added

    differs :
        (o : Option Text) (digest r : Text)
        → o ≢ some path
        → allowed_at (p.allows ++ (entry ∷ [])) digest r o ≡ allowed_at p.allows digest r o
    differs none digest r n = refl
    differs (some there) digest r n =
        any-append (grants there digest r) p.allows (entry ∷ []) ∙ by_path (text_eq path there) refl
      where
        by_path :
            (b : Bool)
            → text_eq path there ≡ b
            → (any (grants there digest r) p.allows || any (grants there digest r) (entry ∷ []))
              ≡ any (grants there digest r) p.allows
        by_path true h = absurd (n (ap some (sym ((text_eq_iff path there).0 h))))
        by_path false h = ground arith

    same :
        (x : Detected)
        → not (allows (add_allow p entry) other haystack x) ≡ not (allows p other haystack x)
    same x = ap not (differs (relative_string other) (p.digest (slice haystack x.span)) x.rule d)
