-- ===== src/Examples/Overlap.antt =====
-- A bucket of at most one seal, and a listing and an upload that overlap in front of it.
use vaultr.Prelude.{
  ℕ, ◌≡◌, refl, sym, ap, ◌∙◌, subst, inl, inr, Bool, true, false, ◌&&◌, Option, none, some, List,
  [], ◌∷◌, ◌++◌, All, Bool-cases, arith, if◌then◌else◌,
}
use vaultr.Text.{Text, chars, text_eq, text_eq_iff, lines, line_list, split, trim}
use vaultr.Broker.Result.{ok}
use vaultr.Broker.Store.{
  Aws, Output, Object, key_prefix, list_args, put_args, find_key, list, put, aws, read_output,
  parse_listing, is_row,
}
use vaultr.Broker.Store.Rows.{IsPlain, print_rows}
use vaultr.Broker.Store.Printed.{Prints, parse-Prints}
use vaultr.Broker.Server.Handlers.{relist, after_put}
use vaultr.Broker.Metrics.{observe_store}
use vaultr.Broker.Server.Interleaving.{
  Reach, here, next, start, free, begun, listed, ended, stored, dropped, Keeps, CacheShows,
}
use vaultr.Broker.Server.Interleaving.Current.{cache-shows_done}
use vaultr.Examples.Aws.{printed}
use vaultr.Examples.Seals.{day_key, day_object, day_object-IsPlain}
use vaultr.Examples.Serving.{small_broker, home_visit}

abbrev objects_of : Bool → List Object
objects_of true = day_object ∷ []
objects_of false = []

abbrev listing_of : Bool → Text
listing_of true = print_rows (day_object ∷ [])
listing_of false = chars "None\n"

abbrev put_one : Bool → Text → Option Output × Bool
put_one w key = if text_eq key day_key then (some (printed []), true) else (none, w)

unfoldable run_one : Bool → List Text → List ℕ → Option Output × Bool
run_one w (_ ∷ command ∷ _ ∷ _ ∷ _ ∷ key ∷ _) file =
    if text_eq command (chars "put-object")
    then put_one w key
    else (some (printed (listing_of w)), w)
run_one w _ file = (none, w)

abbrev one_aws : Aws
one_aws = record { World = Bool; exec = run_one }

run_one-put :
    (w : Bool) (bucket key path : Text) (body : List ℕ)
    → run_one w (put_args bucket key path) body ≡ put_one w key
unfolding run_one text_eq
run_one-put w bucket key path body = refl

run_one-list :
    (w : Bool) (bucket prefix : Text)
    → run_one w (list_args bucket prefix) [] ≡ (some (printed (listing_of w)), w)
unfolding run_one text_eq
run_one-list w bucket prefix = refl

abbrev holds_day : Bool → Text → Bool
holds_day w key = text_eq key day_key && w

held_put :
    (w w' : Bool) (key : Text) (s : Option Text)
    → put_one w key ≡ (some (record { success = true; stdout = s }), w')
    → holds_day w' key ≡ true
held_put w w' key s h = elim (Bool-cases (text_eq key day_key)) [
  | inl same ↦ rw same (sym (ap (λ p. p.1) (rw same at h)))
  | inr other ↦ absurd (unrun (rw other at h))
]
  where
    unrun : {o : Output} → ◌≡◌ {A = Option Output × Bool} (none, w) (some o, w') → ⊥
    unrun e = cc

kept_put :
    (w w' : Bool) (key j : Text) (o : Option Output)
    → put_one w key ≡ (o, w')
    → holds_day w j ≡ true
    → holds_day w' j ≡ true
kept_put w w' key j o h k = elim (Bool-cases (text_eq key day_key)) [
  | inl same ↦ by_world w' (ap (λ p. p.1) (rw same at h))
  | inr other ↦ subst (λ x. holds_day x j ≡ true) (ap (λ p. p.1) (rw other at h)) k
]
  where
    by_world : (x : Bool) → true ≡ x → holds_day x j ≡ true
    by_world x e = ground arith

covers_day :
    (w : Bool) (key : Text)
    → holds_day w key ≡ true
    → (n : ℕ) × (find_key key (objects_of w) ≡ some n)
covers_day true key h = (
  12,
  unfold find_key in
      rw ((text_eq_iff day_key key).1 (sym ((text_eq_iff key day_key).0 (ground arith)))),
)
covers_day false key h = ground arith

listing_of-Prints : (w : Bool) → Prints (listing_of w) (objects_of w)
listing_of-Prints true = inr refl
listing_of-Prints false = inl (refl, refl)

objects_of-IsPlain : (w : Bool) → All IsPlain (objects_of w)
objects_of-IsPlain true = (day_object-IsPlain, tt)
objects_of-IsPlain false = tt

one_Keeps : Keeps one_aws (chars "seals")
one_Keeps = record {
  holds = holds_day;
  put_holds = λ w w' key path body s h.
      held_put w w' key s (sym (run_one-put w (chars "seals") key path body) ∙ h);
  put_keeps = λ w w' key path j body o h.
      kept_put w w' key j o (sym (run_one-put w (chars "seals") key path body) ∙ h);
  list_keeps = λ w w' prefix j o h k.
      subst (λ x. holds_day x j ≡ true)
        (ap (λ p. p.1) (sym (run_one-list w (chars "seals") prefix) ∙ h)) k;
  list_covers = λ w w' s h. (
    objects_of w,
    subst (λ x. Prints x (objects_of w))
        (text (sym (run_one-list w (chars "seals") key_prefix) ∙ h)) (listing_of-Prints w),
    objects_of-IsPlain w,
    λ rest k. covers_day w (key_prefix ++ rest) k,
  );
}
  where
    text :
        {t s : Text} {w w' : Bool}
        → ◌≡◌ {A = Option Output × Bool} (some (printed t), w) (some (printed s), w')
        → t ≡ s
    text e = cc

empty_list : list one_aws (chars "seals") false ≡ (ok [], false)
unfolding list aws read_output run_one text_eq parse_listing lines line_list split is_row trim
empty_list = refl

day_list : list one_aws (chars "seals") true ≡ (ok (day_object ∷ []), true)
unfolding list aws read_output run_one text_eq
day_list =
    rw
      (parse-Prints (listing_of true) (day_object ∷ []) (listing_of-Prints true)
        (objects_of-IsPlain true))
      refl

day_put :
    put one_aws
      (chars "seals")
      day_key
      (some (chars "/spool/seal-1.upload"))
      (chars "twelve bytes")
      false
    ≡ (ok tt, true)
unfolding put aws read_output run_one text_eq
day_put = refl

-- A listing is begun, asks, and is overtaken by a put; the cache it leaves is dropped, and listed anew.
overlap : Reach (start {a = one_aws} small_broker false) (record {
  broker = (relist one_aws small_broker home_visit (ok (day_object ∷ []), true)).1;
  world = true;
  lock = free;
  pending = [];
  done = day_key ∷ [];
})
unfolding after_put relist observe_store
overlap =
    next
      (next
        (next
          (next
            (next
              (next
                (next (next here (begun _ home_visit refl refl))
                  (listed _ home_visit (ok []) false refl empty_list))
                (stored _ day_key (some (chars "/spool/seal-1.upload")) (chars "twelve bytes") true
                  (_, refl) day_put))
              (ended _ home_visit (ok []) refl))
            (dropped _ day_key 12 [] [] refl refl))
          (begun _ home_visit refl refl))
        (listed _ home_visit (ok (day_object ∷ [])) true refl day_list))
      (ended _ home_visit (ok (day_object ∷ [])) refl)

cache-shows_done_example : CacheShows (some (day_object ∷ [], 4)) (day_key ∷ [])
unfolding relist
cache-shows_done_example = cache-shows_done small_broker one_Keeps overlap
