-- ===== src/Recon/Delta/Fields.antt =====
-- What setting and removing leave under each key of a body.
use vaultr.Prelude.{
  ◌≡◌, refl, sym, ap, subst, ◌∙◌, Bool, true, false, not, ◌&&◌, ◌||◌, arith, Option, none, some,
  List, [], ◌∷◌, map, if◌then◌else◌,
}
use vaultr.Prelude.Map
use vaultr.Text.{Text, text_eq, text_eq_iff, text_key}
use vaultr.Json.{Value, Entries, string}
use vaultr.Json.Object.{
  Distinct, insert, remove, get-insert, get-remove, insert-Distinct, remove-Distinct,
}
use vaultr.Recon.Delta.{
  is_some, first_of, is_one_of, is_left_out, set_fields, removed_keys, extend, remove_all,
}

-- Under a key of the first map its value, else that of the second.
pub get-extend :
    (j : Text) (m es : Entries)
    → Distinct es
    → Map.get j (extend m es) ≡ first_of (Map.get j es) (Map.get j m)
unfolding extend
get-extend j m [] d = unfold Map.get in refl
get-extend j m ((k, v) ∷ es) d =
    get-extend j (insert k v m) es d.1
    ∙ ap (first_of (Map.get j es)) (get-insert k j v m)
    ∙ by_key (text_eq k j) refl
  where
    by_key :
        (b : Bool)
        → text_eq k j ≡ b
        → first_of (Map.get j es) (if b then some v else Map.get j m)
          ≡ first_of (Map.get j ((k, v) ∷ es)) (Map.get j m)
    by_key true e =
        ap (λ o. first_of o (some v))
          (ap (λ (i : Text). Map.get i es) (sym ((text_eq_iff k j).0 e)) ∙ d.0)
        ∙ unfold Map.get in rw e refl
    by_key false e = unfold Map.get in rw e refl

pub extend-Distinct : (m es : Entries) → Distinct m → Distinct (extend m es)
unfolding extend
extend-Distinct m [] d = d
extend-Distinct m ((k, v) ∷ es) d = extend-Distinct (insert k v m) es (insert-Distinct k v m d)

module _ (prior : Value) (key : Text) (big : List Text) where
  -- What of a body's field is set.
  abbrev pub set_value : Text → Option Value → Option Value
  set_value j none = none
  set_value j (some v) = if is_left_out prior key big j v then none else some v

  pub set_fields-Distinct :
      (set body : Entries) → Distinct set → Distinct (set_fields prior key big set body)
  unfolding set_fields
  set_fields-Distinct set [] d = d
  set_fields-Distinct set ((k, v) ∷ body) d =
      set_fields-Distinct (if is_left_out prior key big k v then set else insert k v set) body
        (either (is_left_out prior key big k v))
    where
      either : (b : Bool) → Distinct (if b then set else insert k v set)
      either true = d
      either false = insert-Distinct k v set d

  pub get-set_fields :
      (j : Text) (set body : Entries)
      → Distinct body
      → Map.get j (set_fields prior key big set body)
        ≡ first_of (set_value j (Map.get j body)) (Map.get j set)
  unfolding set_fields
  get-set_fields j set [] d = unfold Map.get in refl
  get-set_fields j set ((k, v) ∷ body) d =
      get-set_fields j (if is_left_out prior key big k v then set else insert k v set) body d.1
      ∙ by_tests (text_eq k j) (is_left_out prior key big k v) refl refl
    where
      absent : text_eq k j ≡ true → Map.get j body ≡ none
      absent e = ap (λ (i : Text). Map.get i body) (sym ((text_eq_iff k j).0 e)) ∙ d.0

      there : text_eq k j ≡ true → Map.get j ((k, v) ∷ body) ≡ some v
      there e = unfold Map.get in rw e refl

      later : text_eq k j ≡ false → Map.get j ((k, v) ∷ body) ≡ Map.get j body
      later e = unfold Map.get in rw e refl

      left_at :
          {b : Bool}
          → text_eq k j ≡ true
          → is_left_out prior key big k v ≡ b
          → is_left_out prior key big j v ≡ b
      left_at e l =
          ap (λ (i : Text). is_left_out prior key big i v) (sym ((text_eq_iff k j).0 e)) ∙ l

      by_tests :
          (b l : Bool)
          → text_eq k j ≡ b
          → is_left_out prior key big k v ≡ l
          → first_of (set_value j (Map.get j body)) (Map.get j (if l then set else insert k v set))
            ≡ first_of (set_value j (Map.get j ((k, v) ∷ body))) (Map.get j set)
      by_tests true true e l = rw (absent e, there e, left_at e l) refl
      by_tests true false e l = rw (absent e, there e, left_at e l, get-insert k j v set, e) refl
      by_tests false true e l = rw (later e) refl
      by_tests false false e l = rw (later e, get-insert k j v set, e) refl

-- A key is removed if the prior body has it, the body does not, and it is not the history's.
pub removed-keys :
    (key j : Text) (body prior : Entries)
    → is_one_of (removed_keys key body prior) j
      ≡ is_some (Map.get j prior) && (not (is_some (Map.get j body)) && not (text_eq j key))
unfolding removed_keys Map.get
removed-keys key j body [] = refl
removed-keys key j body ((k, v) ∷ prior) = by_key (text_eq k j) refl (removed-keys key j body prior)
  where
    gone : Text → Bool
    gone i = not (is_some (Map.get i body)) && not (text_eq i key)

    Claim : Bool → Type 0
    Claim b =
        is_one_of (removed_keys key body prior) j ≡ is_some (Map.get j prior) && gone j
        → is_one_of
            (if gone k then k ∷ removed_keys key body prior else removed_keys key body prior) j
          ≡ is_some (if b then some v else Map.get j prior) && gone j

    at_key :
        (t : Bool)
        → gone k ≡ t
        → text_eq j k ≡ true
        → gone j ≡ t
        → is_one_of (removed_keys key body prior) j ≡ is_some (Map.get j prior) && t
        → is_one_of (if t then k ∷ removed_keys key body prior else removed_keys key body prior) j
          ≡ t
    at_key true g e f h = rw e refl
    at_key false g e f h = h ∙ and_false (is_some (Map.get j prior))
      where
        and_false : (b : Bool) → (b && false) ≡ false
        and_false true = refl
        and_false false = refl

    other_key :
        (t : Bool)
        → text_eq j k ≡ false
        → is_one_of (if t then k ∷ removed_keys key body prior else removed_keys key body prior) j
          ≡ is_one_of (removed_keys key body prior) j
    other_key true e = rw e refl
    other_key false e = refl

    turn : {b : Bool} → text_eq k j ≡ b → text_eq j k ≡ b
    turn e = ground (arith, text_eq_iff k j, text_eq_iff j k)

    by_key : (b : Bool) → text_eq k j ≡ b → Claim b
    by_key true e h =
        let g = ap gone ((text_eq_iff k j).0 e) in
        subst
          (λ (t : Bool).
            is_one_of
              (if gone k then k ∷ removed_keys key body prior else removed_keys key body prior) j
            ≡ t)
          g
          (at_key (gone k) refl (turn e) (sym g) (
            subst
              (λ (t : Bool).
                is_one_of (removed_keys key body prior) j ≡ is_some (Map.get j prior) && t)
              (sym g) h))
    by_key false e h = other_key (gone k) (turn e) ∙ h

unfoldable pub removed : List Text → Entries → Entries
removed [] m = m
removed (k ∷ keys) m = removed keys (remove k m)

pub remove_all-removed :
    (keys : List Text) (m : Entries) → remove_all (map string keys) m ≡ some (removed keys m)
unfolding remove_all removed
remove_all-removed [] m = refl
remove_all-removed (k ∷ keys) m = remove_all-removed keys (remove k m)

pub get-removed :
    (j : Text) (keys : List Text) (m : Entries)
    → Distinct m
    → Map.get j (removed keys m) ≡ (if is_one_of keys j then none else Map.get j m)
unfolding removed
get-removed j [] m d = refl
get-removed j (k ∷ keys) m d =
    get-removed j keys (remove k m) (remove-Distinct k m d)
    ∙ ap (λ (o : Option Value). if is_one_of keys j then none else o) (get-remove k j m d)
    ∙ by_tests (is_one_of keys j) (text_eq k j) (text_eq j k) refl refl
  where
    by_tests :
        (a b c : Bool)
        → text_eq k j ≡ b
        → text_eq j k ≡ c
        → (if a then none else if b then none else Map.get j m)
          ≡ (if c || a then none else Map.get j m)
    by_tests a b c e f = ground (arith, text_eq_iff k j, text_eq_iff j k)
