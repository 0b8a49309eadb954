-- ===== src/Secrets/Matcher/Kept.antt =====
-- Which matches `find` keeps.
use vaultr.Prelude.{
  ℕ, suc, ◌≤◌, ◌<◌, ◌≡◌, refl, sym, subst, ◌⊎◌, inl, inr, true, false, arith, Option, none, some,
  List, [], ◌∷◌, All, Any, Bool-cases, ltb,
}
use vaultr.Text.{Text}
use vaultr.Secrets.Matcher.Sorting.{
  Pairwise, All-append, All-implies, All-sort, All-of_sort, Any-sort, Pairwise-sort, sort-Pairwise,
}
use vaultr.Secrets.Matcher.{
  Range, Captures, CompiledPattern, Detected, Judge, Candidate, capture_span, with_ranges, judged,
  of_pattern, candidates, by_match, by_span, sort, end_of, accept, find,
}

-- Neither reaches into the other.
abbrev pub Apart : Detected → Detected → Type 0
Apart c d = (end_of c ≤ d.full.first) ⊎ (end_of d ≤ c.full.first)

Apart-swap : (c d : Detected) → Apart c d → Apart d c
Apart-swap c d (inl h) = inr h
Apart-swap c d (inr h) = inl h

-- A match does not end before it starts, as the crate `regex` promises.
abbrev pub IsRange : Option Range → Type 0
IsRange none = Unit
IsRange (some r) = r.first ≤ r.behind

abbrev pub WellMatched : List ℕ → CompiledPattern → Type 0
WellMatched haystack p = All (λ captures. IsRange (captures 0)) (p.captures_iter haystack)

abbrev Fine : Candidate → Type 0
Fine c = c.detected.full.first ≤ end_of c.detected

judged-Fine :
    (j : Judge) (haystack : List ℕ) (index : ℕ) (id : Text) (full span : Range)
    → full.first ≤ full.behind
    → All Fine (judged j haystack index id full span)
unfolding judged
judged-Fine j haystack index id full span h = ground arith

with_ranges-Fine :
    (j : Judge) (haystack : List ℕ) (index : ℕ) (id : Text) (full span : Option Range)
    → IsRange full
    → All Fine (with_ranges j haystack index id full span)
with_ranges-Fine j haystack index id none span h = tt
with_ranges-Fine j haystack index id (some full) none h = tt
with_ranges-Fine j haystack index id (some full) (some span) h =
    judged-Fine j haystack index id full span h

of_pattern-Fine :
    (j : Judge) (haystack : List ℕ) (index : ℕ) (p : CompiledPattern) (ms : List Captures)
    → All (λ captures. IsRange (captures 0)) ms
    → All Fine (of_pattern j haystack index p ms)
unfolding of_pattern
of_pattern-Fine j haystack index p [] h = tt
of_pattern-Fine j haystack index p (m ∷ ms) h =
    All-append Fine _ _
      (with_ranges-Fine j haystack index p.id (m 0) (capture_span m p.secret_group) h.0)
      (of_pattern-Fine j haystack index p ms h.1)

candidates-Fine :
    (j : Judge) (haystack : List ℕ) (index : ℕ) (ps : List CompiledPattern)
    → All (WellMatched haystack) ps
    → All Fine (candidates j haystack index ps)
unfolding candidates
candidates-Fine j haystack index [] h = tt
candidates-Fine j haystack index (p ∷ ps) h =
    All-append Fine _ _ (of_pattern-Fine j haystack index p (p.captures_iter haystack) h.0)
      (candidates-Fine j haystack (suc index) ps h.1)

-- All that is accepted from a cursor on starts there or later.
accept-from :
    (cursor at : ℕ) (cs : List Candidate)
    → at ≤ cursor
    → All Fine cs
    → All (λ d. at ≤ d.full.first) (accept cursor cs)
unfolding accept
accept-from cursor at [] h f = tt
accept-from cursor at (c ∷ cs) h f = elim (Bool-cases (ltb c.detected.full.first cursor)) [
  | inl overlaps ↦ rw overlaps (accept-from cursor at cs h f.1)
  | inr clear ↦
      rw clear (start clear, accept-from (end_of c.detected) at cs (later (start clear) f.0) f.1)
]
  where
    start : ltb c.detected.full.first cursor ≡ false → at ≤ c.detected.full.first
    start clear = ground arith

    later : at ≤ c.detected.full.first → Fine c → at ≤ end_of c.detected
    later a b = omega arith

accept-Apart : (cursor : ℕ) (cs : List Candidate) → All Fine cs → Pairwise Apart (accept cursor cs)
unfolding accept
accept-Apart cursor [] f = tt
accept-Apart cursor (c ∷ cs) f = elim (Bool-cases (ltb c.detected.full.first cursor)) [
  | inl overlaps ↦ rw overlaps (accept-Apart cursor cs f.1)
  | inr clear ↦ rw clear (
    All-implies (λ d. end_of c.detected ≤ d.full.first) (Apart c.detected) _ (λ d. inl)
        (accept-from (end_of c.detected) (end_of c.detected) cs (omega arith) f.1),
    accept-Apart (end_of c.detected) cs f.1,
  )
]

-- Where no match of a pattern ends before it starts, none of the matches that are kept reaches into
-- the whole match of another, with its whole match or with its secret.
pub find-Apart :
    (j : Judge) (haystack : List ℕ) (patterns : List CompiledPattern)
    → All (WellMatched haystack) patterns
    → Pairwise Apart (find j haystack patterns)
unfolding find
find-Apart j haystack patterns h =
    Pairwise-sort by_span Apart Apart-swap _
      (accept-Apart 0 _ (All-sort by_match Fine _ (candidates-Fine j haystack 0 patterns h)))

-- It is the match, or one that the match runs into.
abbrev pub Covers : Candidate → Detected → Type 0
Covers c d =
    (d ≡ c.detected) ⊎ ((d.full.first ≤ c.detected.full.first) × (c.detected.full.first < end_of d))

abbrev NotBefore : Candidate → Candidate → Type 0
NotBefore c d = c.detected.full.first ≤ d.detected.full.first

-- Each of the candidates lies before the cursor or is covered by one of the list.
abbrev Accounted : ℕ → List Candidate → List Detected → Type 0
Accounted cursor cs found = All (λ c. (c.detected.full.first < cursor) ⊎ Any (Covers c) found) cs

accept-overlapping :
    (cursor : ℕ) (c : Candidate) (cs : List Candidate)
    → ltb c.detected.full.first cursor ≡ true
    → accept cursor (c ∷ cs) ≡ accept cursor cs
unfolding accept
accept-overlapping cursor c cs h = rw h refl

accept-clear :
    (cursor : ℕ) (c : Candidate) (cs : List Candidate)
    → ltb c.detected.full.first cursor ≡ false
    → accept cursor (c ∷ cs) ≡ c.detected ∷ accept (end_of c.detected) cs
unfolding accept
accept-clear cursor c cs h = rw h refl

accept-Covers :
    (cursor : ℕ) (cs : List Candidate)
    → Pairwise NotBefore cs
    → Accounted cursor cs (accept cursor cs)
accept-Covers cursor [] s = tt
accept-Covers cursor (c ∷ cs) s = elim (Bool-cases (ltb c.detected.full.first cursor)) [
  | inl overlaps ↦
      subst (Accounted cursor (c ∷ cs)) (sym (accept-overlapping cursor c cs overlaps))
        (inl (ground arith), accept-Covers cursor cs s.1)
  | inr clear ↦
      subst (Accounted cursor (c ∷ cs)) (sym (accept-clear cursor c cs clear))
        (inr (inl (inl refl)), step cs s.0 (accept-Covers (end_of c.detected) cs s.1))
]
  where
    step :
        (xs : List Candidate)
        → All (NotBefore c) xs
        → All
            (λ x.
              (x.detected.full.first < end_of c.detected)
              ⊎ Any (Covers x) (accept (end_of c.detected) cs))
            xs
        → All
            (λ x.
              (x.detected.full.first < cursor)
              ⊎ Any (Covers x) (c.detected ∷ accept (end_of c.detected) cs))
            xs
    step [] n h = tt
    step (x ∷ xs) n (inl under, h) = (inr (inl (inr (n.0, under))), step xs n.1 h)
    step (x ∷ xs) n (inr found, h) = (inr (inr found), step xs n.1 h)

-- Every match that passes the tests is kept, or runs into one that is kept and starts no later.
pub find-Covers :
    (j : Judge) (haystack : List ℕ) (patterns : List CompiledPattern)
    → All (λ c. Any (Covers c) (find j haystack patterns)) (candidates j haystack 0 patterns)
unfolding find
find-Covers j haystack patterns = All-of_sort by_match _ cs (
    All-implies _ _ (sort by_match cs) final (
      accept-Covers 0 (sort by_match cs) (
        sort-Pairwise by_match NotBefore (λ a b h. ground arith) (λ a b h. ground arith)
          (λ a b c h k. omega arith) cs)))
  where
    cs : List Candidate
    cs = candidates j haystack 0 patterns

    final :
        (c : Candidate)
        → (c.detected.full.first < 0) ⊎ Any (Covers c) (accept 0 (sort by_match cs))
        → Any (Covers c) (sort by_span (accept 0 (sort by_match cs)))
    final c (inr found) = Any-sort by_span (Covers c) _ found
    final c (inl never) = absurd (none_below never)
      where
        none_below : c.detected.full.first < 0 → ⊥
        none_below h = omega arith
