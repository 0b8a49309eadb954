-- ===== src/Broker/Server/Bucket.antt =====
-- What the uploads rely on: the behaviour that AWS documents for `put-object` and `list-objects-v2`
-- (strong read-after-write consistency), and the rows that `--output text` prints.
use vaultr.Prelude.{
  ℕ, ◌≡◌, ◌≢◌, refl, sym, ap, ◌∙◌, Bool, true, false, arith, Option, none, some, List, [], All,
  length,
}
use vaultr.Text.{Text}
use vaultr.Broker.Result.{Result, ok, err}
use vaultr.Broker.Store.{
  Aws, Output, Object, list_args, put_args, find_key, parse_listing, read_output, aws, size_of, put,
  map_ok,
}
use vaultr.Broker.Store.Rows.{IsPlain}
use vaultr.Broker.Store.Printed.{Prints, parse-Prints}

abbrev pub size_in {ℓ} : {A : Type ℓ} → Option (List A) → Option ℕ
size_in none = none
size_in (some body) = some (length body)

pub record Bucket (a : Aws) (bucket : Text) : Type 0 where
  -- The body that the bucket holds under a key.
  pub held : a.World → Text → Option (List ℕ)
  -- A successful put stores its body under its key, and no call touches another key.
  pub put_stores :
      (w w' : a.World) (key path : Text) (body : List ℕ) (s : Option Text)
      → a.exec w (put_args bucket key path) body
        ≡ (some (record { success = true; stdout = s }), w')
      → held w' key ≡ some body
  pub put_keeps :
      (w w' : a.World) (key path j : Text) (body : List ℕ) (o : Option Output)
      → a.exec w (put_args bucket key path) body ≡ (o, w')
      → j ≢ key
      → held w' j ≡ held w j
  -- A successful listing by a key prints objects of which the one of that key has the size of what is
  -- held under it; a listing changes nothing.
  pub list_shows :
      (w w' : a.World) (key s : Text)
      → a.exec w (list_args bucket key) [] ≡ (some (record { success = true; stdout = some s }), w')
      → (objects : List Object) × Prints s objects
        × All IsPlain objects
        × (find_key key objects ≡ size_in (held w key))
  pub list_keeps :
      (w w' : a.World) (key j : Text) (o : Option Output)
      → a.exec w (list_args bucket key) [] ≡ (o, w')
      → held w' j ≡ held w j

-- A call whose output is read well has run, succeeded and printed text.
pub read_output-ok :
    (o : Option Output) (s : Text)
    → read_output o ≡ ok s
    → o ≡ some (record { success = true; stdout = some s })
unfolding read_output
read_output-ok none s h = cc
read_output-ok (some output) s h = by_fields output.success output.stdout h
  where
    by_fields :
        (success : Bool) (stdout : Option Text)
        → read_output (some (record { success = success; stdout = stdout })) ≡ ok s
        → ◌≡◌ {A = Option Output}
            (some (record { success = success; stdout = stdout }))
            (some (record { success = true; stdout = some s }))
    by_fields false stdout h = cc
    by_fields true none h = cc
    by_fields true (some t) h = ground arith

pub map_ok-ok {ℓ} :
    {B : Type ℓ} (f : Text → B) (r : Result Text) (x : B)
    → map_ok f r ≡ ok x
    → (s : Text) × (r ≡ ok s) × (f s ≡ x)
map_ok-ok f (err e) x h = cc
map_ok-ok f (ok s) x h = (s, refl, ground arith)

module _ {a : Aws} {bucket : Text} (b : Bucket a bucket) where
  -- If `size_of` answers, then with the size of what is held under the key, and changes nothing.
  pub size_of-held :
      (w w' : a.World) (key : Text) (n : Option ℕ)
      → size_of a bucket key w ≡ (ok n, w')
      → (n ≡ size_in (b.held w key)) × ((j : Text) → b.held w' j ≡ b.held w j)
  unfolding size_of aws
  size_of-held w w' key n h =
      let x = a.exec w (list_args bucket key) [] in
      let (s, r, f) =
        map_ok-ok (λ s. find_key key (parse_listing s)) (read_output x.0) n (ap (λ p. p.0) h) in
      let e : x ≡ (some (record { success = true; stdout = some s }), w') =
        λ i. (read_output-ok x.0 s r i, (h i).1) in
      let (objects, p, plain, q) = b.list_shows w w' key s e in
      (
        sym f ∙ ap (find_key key) (parse-Prints s objects p plain) ∙ q,
        λ j. b.list_keeps w w' key j _ e,
      )

  -- If `put` succeeds, the body is held under the key, and nothing else has changed.
  pub put-held :
      (w w' : a.World) (key : Text) (path : Option Text) (body : List ℕ)
      → put a bucket key path body w ≡ (ok tt, w')
      → (b.held w' key ≡ some body) × ((j : Text) → j ≢ key → b.held w' j ≡ b.held w j)
  unfolding put aws
  put-held w w' key none body h = cc
  put-held w w' key (some path) body h =
      let x = a.exec w (put_args bucket key path) body in
      let (s, r, f) = map_ok-ok (λ _. tt) (read_output x.0) tt (ap (λ p. p.0) h) in
      let e : x ≡ (some (record { success = true; stdout = some s }), w') =
        λ i. (read_output-ok x.0 s r i, (h i).1) in
      (b.put_stores w w' key path body (some s) e, λ j. b.put_keeps w w' key path j body _ e)
