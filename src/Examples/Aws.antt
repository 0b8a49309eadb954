-- ===== src/Examples/Aws.antt =====
-- A command `aws` over one bucket in memory: it keeps bodies under their keys, and lists a key by
-- itself where the key and the size can be printed as a row.
use vaultr.Prelude.{
  ℕ, ◌≡◌, ◌≢◌, refl, sym, ap, ◌∙◌, inl, inr, Bool, true, false, not, ◌&&◌, arith, Option, none,
  some, List, [], ◌∷◌, ltb, all, All, is_empty, length, Bool-cases, if◌then◌else◌,
}
use vaultr.Prelude.Map
use vaultr.Text.{Text, chars, text_eq, text_eq_iff, text_key, is_whitespace, u64_limit}
use vaultr.Broker.Store.{Aws, Output, Object, list_args, put_args, find_key}
use vaultr.Broker.Store.Rows.{IsPlain, print_rows}
use vaultr.Broker.Server.Bucket.{Bucket, size_in}
use vaultr.Broker.Store.Printed.{Prints}

abbrev pub Shelf : Type 0
Shelf = List (Text × List ℕ)

abbrev pub printed : Text → Output
printed s = record { success = true; stdout = some s }

abbrev pub failing : Output
failing = record { success = false; stdout = none }

unfoldable pub printable : Text → ℕ → Bool
printable key size =
    not (is_empty key) && all (λ c. not (is_whitespace c)) key && ltb size u64_limit

abbrev pub row_of : Text → ℕ → List Object
row_of key size = record { key = key; size = size } ∷ []

unfoldable pub shown : Text → Option (List ℕ) → Output
shown key none = printed (chars "None\n")
shown key (some body) =
    if printable key (length body) then printed (print_rows (row_of key (length body))) else failing

unfoldable pub run_aws : Shelf → List Text → List ℕ → Option Output × Shelf
run_aws shelf (_ ∷ command ∷ _ ∷ _ ∷ _ ∷ key ∷ _) file =
    if text_eq command (chars "put-object")
    then (some (printed (chars "{}")), Map.insert key file shelf)
    else (some (shown key (Map.get key shelf)), shelf)
run_aws shelf (_ ∷ command ∷ url ∷ _) file = (some (printed url), shelf)
run_aws shelf _ file = (some failing, shelf)

abbrev pub shelf_aws : Aws
shelf_aws = record { World = Shelf; exec = run_aws }

run-put :
    (shelf : Shelf) (bucket key path : Text) (body : List ℕ)
    → run_aws shelf (put_args bucket key path) body
      ≡ (some (printed (chars "{}")), Map.insert key body shelf)
unfolding run_aws text_eq
run-put shelf bucket key path body = refl

run-list :
    (shelf : Shelf) (bucket key : Text)
    → run_aws shelf (list_args bucket key) [] ≡ (some (shown key (Map.get key shelf)), shelf)
unfolding run_aws text_eq
run-list shelf bucket key = refl

row_of-IsPlain : (key : Text) (size : ℕ) → printable key size ≡ true → All IsPlain (row_of key size)
unfolding printable
row_of-IsPlain [] size h = cc
row_of-IsPlain (c ∷ s) size h = (
  record { first = c; rest = s; nonempty = refl; no_space = ground arith; fits = ground arith },
  tt,
)

find-row_of : (key : Text) (size : ℕ) → find_key key (row_of key size) ≡ some size
unfolding find_key
find-row_of key size = rw ((text_eq_iff key key).1 refl)

-- What is shown, if it is a success.
shown-Prints :
    (key s : Text) (held : Option (List ℕ))
    → shown key held ≡ printed s
    → (objects : List Object) × Prints s objects
      × All IsPlain objects
      × (find_key key objects ≡ size_in held)
unfolding shown
shown-Prints key s none h = ([], inl (refl, sym (text h)), tt, unfold find_key in refl)
  where
    text : {t : Text} → printed t ≡ printed s → t ≡ s
    text e = cc
shown-Prints key s (some body) h = elim (Bool-cases (printable key (length body))) [
  | inl fine ↦ (
    row_of key (length body),
    inr (sym (text (rw fine at h))),
    row_of-IsPlain key (length body) fine,
    find-row_of key (length body),
  )
  | inr unfit ↦ absurd (never (rw unfit at h))
]
  where
    text : {t : Text} → printed t ≡ printed s → t ≡ s
    text e = cc

    never : failing ≡ printed s → ⊥
    never e = cc

pub shelf_bucket : (bucket : Text) → Bucket shelf_aws bucket
shelf_bucket bucket = record {
  held = λ w key. Map.get key w;
  put_stores = λ w w' key path body s e.
      ap (Map.get key) (stays e (run-put w bucket key path body))
      ∙ Map.get-insert key key body w
      ∙ rw ((text_eq_iff key key).1 refl) refl;
  put_keeps = λ w w' key path j body o e d.
      ap (Map.get j) (stays e (run-put w bucket key path body))
      ∙ Map.get-insert key j body w
      ∙ by_key key j body w d (text_eq key j) refl;
  list_shows =
      λ w w' key s e. shown-Prints key s (Map.get key w) (output e (run-list w bucket key));
  list_keeps = λ w w' key j o e. ap (Map.get j) (stays e (run-list w bucket key));
}
  where
    stays :
        {x : Option Output × Shelf} {o p : Option Output} {w w' : Shelf}
        → x ≡ (o, w')
        → x ≡ (p, w)
        → w' ≡ w
    stays e f = ap (λ r. r.1) (sym e ∙ f)

    output :
        {x : Option Output × Shelf} {o p : Output} {w w' : Shelf}
        → x ≡ (some o, w')
        → x ≡ (some p, w)
        → p ≡ o
    output {o} {p} e f = inner (ap (λ r. r.0) (sym f ∙ e))
      where
        inner : some p ≡ some o → p ≡ o
        inner q = cc

    by_key :
        (key j : Text) (body : List ℕ) (w : Shelf)
        → j ≢ key
        → (t : Bool) → text_eq key j ≡ t
        → (if t then some body else Map.get j w) ≡ Map.get j w
    by_key key j body w d true e = absurd (d (sym ((text_eq_iff key j).0 e)))
    by_key key j body w d false e = refl
