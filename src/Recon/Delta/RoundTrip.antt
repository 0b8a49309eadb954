-- ===== src/Recon/Delta/RoundTrip.antt =====
-- `apply_body` undoes `encode_delta`.
use vaultr.Prelude.{
  ℕ, ◌≤◌, ◌≡◌, refl, sym, ap, subst, ◌∙◌, inl, inr, Bool, true, false, not, ◌&&◌, ◌||◌, arith,
  Option, none, some, List, [], ◌∷◌, ◌++◌, map, ltb, length, take, drop, Bool-cases, if◌then◌else◌,
}
use vaultr.Prelude.Map
use vaultr.Text.{Text, chars, text_eq, text_eq_iff, text_key}
use vaultr.Json.{
  Value, Entries, string, entries, of_entries, array_of, object_of, as_array, get, value_eq,
  and_then, satisfies,
}
use vaultr.Json.Object.{Distinct, insert, items-of_items, entries-of_entries, get-insert}
use vaultr.Recon.Delta.{
  common_prefix, history_in, history_delta, set_fields, removed_keys, is_some, first_of, or_else,
  is_one_of, is_left_out, encode_delta, apply_delta, apply_shape, extend, apply_body,
}
use vaultr.Recon.Delta.Prefix.{Same, same, equal, Agree, Agree-refl, prefix-le, kept-Agree}
use vaultr.Recon.Delta.Fields.{
  get-extend, extend-Distinct, set_value, set_fields-Distinct, get-set_fields, removed-keys,
  removed, remove_all-removed, get-removed,
}

-- What a delta of the encoder's shape does to a history.
pub apply-history_delta :
    (key : Text) (prefix : ℕ) (history msgs : List Value) (dict : Entries)
    → prefix ≤ length msgs
    → apply_delta (history_delta key prefix history) (msgs, dict)
      ≡ some (take prefix msgs ++ drop prefix history, dict)
unfolding apply_delta apply_shape entries of_entries Map.get text_eq
apply-history_delta key prefix history msgs dict h =
    rw (items-of_items (drop prefix history)) (rw (fits h) refl)
  where
    fits : prefix ≤ length msgs → ltb (length msgs) prefix ≡ false
    fits k = ground arith

-- The same field: absent in both, or the same value.
abbrev pub SameField : Option Value → Option Value → Type 0
SameField none none = Unit
SameField (some v) (some w) = Same v w
SameField _ _ = ⊥

SameField-refl : (o : Option Value) → SameField o o
SameField-refl none = tt
SameField-refl (some v) = same

get-nothing : (j : Text) → Map.get {V = Value} j [] ≡ none
unfolding Map.get
get-nothing j = refl

module _ (key : Text) (big : List Text) (prior body : Entries) where
  -- The fields over the prior body.
  abbrev pub replayed : Entries
  replayed =
      removed (removed_keys key body prior)
        (extend prior (set_fields (object_of prior) key big [] body))

  abbrev looked : Text → Option Value
  looked j =
      if is_some (Map.get j prior) && (not (is_some (Map.get j body)) && not (text_eq j key))
      then none
      else first_of (first_of (set_value (object_of prior) key big j (Map.get j body)) none)
          (Map.get j prior)

  get-replayed : (j : Text) → Distinct prior → Distinct body → Map.get j replayed ≡ looked j
  get-replayed j p b =
      let set = set_fields (object_of prior) key big [] body in
      get-removed j (removed_keys key body prior) (extend prior set) (extend-Distinct prior set p)
      ∙ ap (λ (t : Bool). if t then none else Map.get j (extend prior set))
          (removed-keys key j body prior)
      ∙ ap
          (λ (o : Option Value).
            if is_some (Map.get j prior) && (not (is_some (Map.get j body)) && not (text_eq j key))
            then none
            else o)
          (get-extend j prior set (set_fields-Distinct (object_of prior) key big [] body tt)
            ∙ ap (λ (o : Option Value). first_of o (Map.get j prior))
                (get-set_fields (object_of prior) key big j [] body b
                  ∙ ap (first_of (set_value (object_of prior) key big j (Map.get j body)))
                      (get-nothing j)))

  -- A field that is left out is, but for the history, `==` to the prior one.
  left_out-Same :
      (j : Text) (v : Value)
      → text_eq j key ≡ false
      → is_left_out (object_of prior) key big j v ≡ true
      → (w : Value) × (Map.get j prior ≡ some w) × (value_eq w v ≡ true)
  unfolding is_left_out get
  left_out-Same j v ne h = by_prior (Map.get j prior) refl (found (is_one_of big j) _ (clear ne h))
    where
      clear :
          text_eq j key ≡ false
          → (text_eq j key
              || (is_one_of big j
                  && satisfies (λ w. value_eq w v) (Map.get j (entries (of_entries prior)))))
            ≡ true
          → (is_one_of big j && satisfies (λ w. value_eq w v) (Map.get j prior)) ≡ true
      clear n k = sym (rw (n, entries-of_entries prior) refl) ∙ k

      found : (a b : Bool) → (a && b) ≡ true → b ≡ true
      found true b k = k
      found false b k = cc

      by_prior :
          (o : Option Value)
          → Map.get j prior ≡ o
          → satisfies (λ w. value_eq w v) (Map.get j prior) ≡ true
          → (w : Value) × (Map.get j prior ≡ some w) × (value_eq w v ≡ true)
      by_prior none e k = absurd (never (rw e at k))
        where
          never : false ≡ true → ⊥
          never z = cc
      by_prior (some w) e k = (w, e, rw e at k)

  replayed-SameField :
      (j : Text)
      → Distinct prior
      → Distinct body
      → text_eq j key ≡ false
      → SameField (Map.get j replayed) (Map.get j body)
  replayed-SameField j p b ne =
      subst (λ (o : Option Value). SameField o (Map.get j body)) (sym (get-replayed j p b))
        (by_body (Map.get j body) refl)
    where
      ended : Option Value → Option Value → Option Value
      ended o q =
          if is_some q && (not (is_some o) && not (text_eq j key))
          then none
          else first_of (first_of (set_value (object_of prior) key big j o) none) q

      absent : (q : Option Value) → ended none q ≡ none
      absent none = refl
      absent (some w) = rw ne refl

      set :
          (v : Value) (q : Option Value)
          → is_left_out (object_of prior) key big j v ≡ false
          → ended (some v) q ≡ some v
      set v none l = rw l refl
      set v (some w) l = rw l refl

      left :
          (v w : Value)
          → is_left_out (object_of prior) key big j v ≡ true
          → ended (some v) (some w) ≡ some w
      left v w l = rw l refl

      by_body : (o : Option Value) → Map.get j body ≡ o → SameField (ended o (Map.get j prior)) o
      by_body none e =
          subst (λ (r : Option Value). SameField r none) (sym (absent (Map.get j prior))) tt
      by_body (some v) e = elim (Bool-cases (is_left_out (object_of prior) key big j v)) [
        | inr l ↦
            subst (λ (r : Option Value). SameField r (some v)) (sym (set v (Map.get j prior) l))
              same
        | inl l ↦
            let (w, at, eq) = left_out-Same j v ne l in
            subst (λ (r : Option Value). SameField r (some v))
              (sym (ap (ended (some v)) at ∙ left v w l)) (equal same eq)
      ]

-- What a delta holds under the names that the replay reads.
module _ (key : Text) (big : List Text) (prior body : Entries) (history : List Value) where
  read_history :
      Map.get key body ≡ some (array_of history) → history_in key (object_of body) ≡ history
  unfolding get
  read_history h =
      ap (λ (m : Entries). or_else [] (and_then as_array (Map.get key m))) (entries-of_entries body)
      ∙ ap (λ (o : Option Value). or_else [] (and_then as_array o)) h
      ∙ items-of_items history

  abbrev pub kept : ℕ
  kept = common_prefix (history_in key (object_of prior)) history

  -- The delta, spelled out.
  abbrev pub delta : Value
  delta = object_of (
      (chars "set", object_of (set_fields (object_of prior) key big [] body))
      ∷ (chars "remove", array_of (map string (removed_keys key body prior)))
      ∷ (chars "history", history_delta key kept history)
      ∷ [])

  encode_delta-delta :
      Map.get key body ≡ some (array_of history)
      → encode_delta (object_of prior) (object_of body) key big ≡ delta
  unfolding encode_delta
  encode_delta-delta h = rw (read_history h, entries-of_entries body, entries-of_entries prior) refl

  abbrev pub replayed_history : List Value
  replayed_history = take kept (history_in key (object_of prior)) ++ drop kept history

  apply_body-delta :
      apply_body (object_of prior) delta key
      ≡ some (object_of (insert key (array_of replayed_history) (replayed key big prior body)))
  unfolding apply_body get entries of_entries Map.get text_eq
  apply_body-delta =
      rw
        (
          fits,
          items-of_items (drop kept history),
          entries-of_entries (set_fields (object_of prior) key big [] body),
          items-of_items (map string (removed_keys key body prior)),
          entries-of_entries prior,
          remove_all-removed (removed_keys key body prior)
              (extend prior (set_fields (object_of prior) key big [] body)),
        )
        refl
    where
      fits : ltb (length (history_in key (object_of prior))) kept ≡ false
      fits = ground (arith, prefix-le (history_in key (object_of prior)) history)

-- The delta of a body against the prior one, both with distinct keys and the body with an array under
-- the history key, replayed over the prior body gives a body: its history agrees item by item with that
-- of the body, and each other field is absent from both or the same in both, up to `==` of values.
pub apply_body-encode_delta :
    (key : Text) (big : List Text) (prior body : Entries) (history : List Value)
    → Distinct prior
    → Distinct body
    → Map.get key body ≡ some (array_of history)
    → (out : Entries) × (msgs : List Value) × (apply_body
          (object_of prior)
          (encode_delta (object_of prior) (object_of body) key big)
          key
        ≡ some (object_of out))
      × (Map.get key out ≡ some (array_of msgs))
      × Agree msgs history
      × ((j : Text) → text_eq j key ≡ false → SameField (Map.get j out) (Map.get j body))
apply_body-encode_delta key big prior body history p b h =
    let msgs = replayed_history key big prior body history in
    let out = replayed key big prior body in
    (
      insert key (array_of msgs) out,
      msgs,
      ap (λ (d : Value). apply_body (object_of prior) d key)
            (encode_delta-delta key big prior body history h)
          ∙ apply_body-delta key big prior body history,
      get-insert key key (array_of msgs) out ∙ hit _ _,
      kept-Agree (history_in key (object_of prior)) (history_in key (object_of prior)) history
          (Agree-refl (history_in key (object_of prior))),
      λ j ne.
          subst (λ (o : Option Value). SameField o (Map.get j body))
            (sym (get-insert key j (array_of msgs) out ∙ miss _ _ j ne))
            (replayed-SameField key big prior body j p b ne),
    )
  where
    hit : (v : Value) (o : Option Value) → (if text_eq key key then some v else o) ≡ some v
    hit v o = rw ((text_eq_iff key key).1 refl) refl

    miss :
        (v : Value) (o : Option Value) (j : Text)
        → text_eq j key ≡ false
        → (if text_eq key j then some v else o) ≡ o
    miss v o j ne = rw (turn ne) refl
      where
        turn : text_eq j key ≡ false → text_eq key j ≡ false
        turn e = ground (arith, text_eq_iff j key, text_eq_iff key j)
