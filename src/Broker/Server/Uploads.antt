-- ===== src/Broker/Server/Uploads.antt =====
-- What an acknowledged upload has done to the bucket.
use vaultr.Prelude.{
  ℕ, ◌<◌, ◌≡◌, ◌≢◌, refl, sym, ap, ◌∙◌, inl, inr, true, false, Option, none, some, List, arith,
  length, All, ==_iff, Bool-cases,
}
use vaultr.Text.{Text}
use vaultr.Broker.Result.{Result, ok, err}
use vaultr.Broker.Store.{Aws, size_of, put}
use vaultr.Broker.Http.{Request, content_length, spool_body}
use vaultr.Broker.Http.Spool.{payload, InMemory, isize_limit, spool_body-payload}
use vaultr.Broker.Server.{Broker, Stored, uploaded, unchanged}
use vaultr.Broker.Server.Handlers.{
  after_put, after_size, after_spool, same_size, disagrees, store_seal,
}
use vaultr.Broker.Server.Bucket.{Bucket, size_in, size_of-held, put-held}

same_size_eq : (o : Option ℕ) (n : ℕ) → same_size o n ≡ true → o ≡ some n
same_size_eq none n h = cc
same_size_eq (some m) n h = ap some ((==_iff m n).0 h)

same_size_ne : (o : Option ℕ) (n : ℕ) → same_size o n ≡ false → ¬ (o ≡ some n)
same_size_ne none n h e = cc
same_size_ne (some m) n h e = ground arith

-- What a result of `store_seal` says of the bucket, started in the world `w`. Stored: the bucket held
-- no body of that size under the key, holds this one now, has changed nowhere else, and the cached
-- listing is dropped. Unchanged: it held a body of that size and has not changed.
module _ {a : Aws} (b : Broker) (k : Bucket a b.bucket) (key : Text) (body : List ℕ)
    (w : a.World) where
  abbrev pub Settled : Result Stored × Broker × a.World → Type 0
  Settled (err reason, b', w') = Unit
  Settled (ok (uploaded n), b', w') =
      (n ≡ length body)
      × ¬ (size_in (k.held w key) ≡ some n)
      × (k.held w' key ≡ some body)
      × ((j : Text) → j ≢ key → k.held w' j ≡ k.held w j)
      × (b'.listing ≡ none)
  Settled (ok (unchanged n), b', w') =
      (n ≡ length body)
      × (size_in (k.held w key) ≡ some n)
      × ((j : Text) → k.held w' j ≡ k.held w j)
      × (b'.listing ≡ b.listing)

  after_put-Settled :
      (w1 : a.World) (path : Option Text) (n : ℕ)
      → n ≡ length body
      → ¬ (size_in (k.held w key) ≡ some n)
      → ((j : Text) → k.held w1 j ≡ k.held w j)
      → (r : Result Unit × a.World) → put a b.bucket key path body w1 ≡ r
      → Settled (after_put a b n r)
  unfolding after_put
  after_put-Settled w1 path n l ne same (err reason, w2) e = tt
  after_put-Settled w1 path n l ne same (ok u, w2) e =
      let (now, others) = put-held k w1 w2 key path body e in
      (l, ne, now, λ j d. others j d ∙ same j, refl)

  after_size-Settled :
      (path : Option Text) (n : ℕ)
      → n ≡ length body
      → (r : Result (Option ℕ) × a.World) → size_of a b.bucket key w ≡ r
      → Settled (after_size a b key path body n r)
  unfolding after_size
  after_size-Settled path n l (err reason, w1) e = tt
  after_size-Settled path n l (ok held, w1) e =
      let (shown, same) = size_of-held k w w1 key held e in
      elim (Bool-cases (same_size held n)) [
        | inl equal ↦ rw equal (l, sym shown ∙ same_size_eq held n equal, same, refl)
        | inr differs ↦ rw differs (
            after_put-Settled w1 path n l (λ q. same_size_ne held n differs (shown ∙ q)) same
              (put a b.bucket key path body w1) refl)
      ]

  after_spool-Settled :
      (path : Option Text) (declared : Option ℕ) (s : Result ℕ × List ℕ)
      → ((n : ℕ) → s.0 ≡ ok n → (s.1 ≡ body) × (n ≡ length body))
      → Settled (after_spool a b key path declared w s)
  unfolding after_spool
  after_spool-Settled path declared (err reason, file) f = tt
  after_spool-Settled path declared (ok n, file) f = elim (Bool-cases (disagrees declared n)) [
    | inl wrong ↦ rw wrong tt
    | inr right ↦
        let (same, l) = f n refl in
        rw (right, same) (after_size-Settled path n l (size_of a b.bucket key w) refl)
  ]

-- Where the limit and each chunk are below isize::MAX and the calls behave as documented, with listed
-- keys free of white space, what `store_seal` answers is true of the bucket. If it answers `uploaded`,
-- the size is that of the body, the bucket held no body of that size under the key, now holds this one
-- and has changed nowhere else, and the cached listing is dropped; if `unchanged`, the bucket held a
-- body of this size, and neither it nor the cached listing has changed.
pub store_seal-Settled :
    {a : Aws} (b : Broker) (k : Bucket a b.bucket) (q : Request) (key : Text) (w : a.World)
    → b.max_object_bytes < isize_limit
    → All InMemory q.body
    → Settled b k key (payload q.body) w (store_seal a q b key w)
unfolding store_seal
store_seal-Settled b k q key w small mem =
    after_spool-Settled b k key (payload q.body) w q.spool_path (content_length q.length_header)
      (spool_body q.disk b.max_object_bytes q.body)
      λ n e.
        let (file, l, fits) = spool_body-payload q.disk b.max_object_bytes q.body n small mem e in
        (file, l)
