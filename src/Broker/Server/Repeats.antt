-- ===== src/Broker/Server/Repeats.antt =====
-- Uploading the same body again.
use vaultr.Prelude.{
  ℕ, ◌<◌, ◌≡◌, refl, sym, ap, subst, ◌∙◌, ◌⊎◌, inl, inr, Bool, false, Option, none, some, List,
  length, All, Bool-cases, if◌then◌else◌, ==_iff,
}
use vaultr.Text.{Text}
use vaultr.Broker.Result.{Result, ok, err, length_mismatch}
use vaultr.Broker.Store.{Aws, size_of, put}
use vaultr.Broker.Http.{Request, content_length, spool_body}
use vaultr.Broker.Http.Spool.{payload, InMemory, isize_limit, spool_body-payload}
use vaultr.Broker.Server.{Broker, Stored, uploaded, unchanged}
use vaultr.Broker.Server.Handlers.{
  after_put, after_size, after_spool, same_size, disagrees, store_seal,
}
use vaultr.Broker.Server.Bucket.{Bucket, size_in, size_of-held}
use vaultr.Broker.Server.Uploads.{Settled, store_seal-Settled}

-- What `store_seal` can make of the broker.
abbrev pub OnlyListing : Broker → Broker → Type 0
OnlyListing b b' = (b' ≡ b) ⊎ (b' ≡ record b { listing = none })

module _ (a : Aws) (b : Broker) (key : Text) (path : Option Text) where
  after_put-OnlyListing : (n : ℕ) (r : Result Unit × a.World) → OnlyListing b (after_put a b n r).1
  unfolding after_put
  after_put-OnlyListing n (err reason, w) = inl refl
  after_put-OnlyListing n (ok u, w) = inr refl

  after_size-OnlyListing :
      (body : List ℕ) (n : ℕ) (r : Result (Option ℕ) × a.World)
      → OnlyListing b (after_size a b key path body n r).1
  unfolding after_size
  after_size-OnlyListing body n (err reason, w) = inl refl
  after_size-OnlyListing body n (ok held, w) = elim (Bool-cases (same_size held n)) [
    | inl equal ↦ rw equal (inl refl)
    | inr differs ↦ rw differs (after_put-OnlyListing n (put a b.bucket key path body w))
  ]

  after_spool-OnlyListing :
      (declared : Option ℕ) (w : a.World) (s : Result ℕ × List ℕ)
      → OnlyListing b (after_spool a b key path declared w s).1
  unfolding after_spool
  after_spool-OnlyListing declared w (err reason, file) = inl refl
  after_spool-OnlyListing declared w (ok n, file) = elim (Bool-cases (disagrees declared n)) [
    | inl wrong ↦ rw wrong (inl refl)
    | inr right ↦ rw right (after_size-OnlyListing file n (size_of a b.bucket key w))
  ]

  -- A result comes only from a spooled body of an agreeing length.
  after_spool-ok :
      (declared : Option ℕ) (w : a.World) (s : Result ℕ × List ℕ) (st : Stored)
      → (after_spool a b key path declared w s).0 ≡ ok st
      → (n : ℕ) × (s.0 ≡ ok n) × (disagrees declared n ≡ false)
  unfolding after_spool
  after_spool-ok declared w (err reason, file) st h = cc
  after_spool-ok declared w (ok n, file) st h = (
    n,
    refl,
    elim (Bool-cases (disagrees declared n)) [
      | inl wrong ↦ absurd (never (rw wrong at h))
      | inr right ↦ right
    ],
  )
    where
      never : ◌≡◌ {A = Result Stored} (err length_mismatch) (ok st) → ⊥
      never e = cc

  -- Where the store lists a body of the spooled size, nothing is sent.
  after_spool-unchanged :
      (declared : Option ℕ) (w w' : a.World) (s : Result ℕ × List ℕ) (n : ℕ)
      → s.0 ≡ ok n
      → disagrees declared n ≡ false
      → size_of a b.bucket key w ≡ (ok (some n), w')
      → after_spool a b key path declared w s ≡ (ok (unchanged n), b, w')
  unfolding after_spool after_size
  after_spool-unchanged declared w w' (err reason, file) n e d h = cc
  after_spool-unchanged declared w w' (ok m, file) n e d h =
      rw (same m n e, d, h)
        (ap
          (λ (t : Bool).
            if t
            then (ok (unchanged n), b, w')
            else after_put a b n (put a b.bucket key path file w'))
          ((==_iff n n).1 refl))
    where
      same : (m n : ℕ) → ◌≡◌ {A = Result ℕ} (ok m) (ok n) → m ≡ n
      same m n e = cc

store_seal-OnlyListing :
    (a : Aws) (b : Broker) (q : Request) (key : Text) (w : a.World)
    → OnlyListing b (store_seal a q b key w).1
unfolding store_seal
store_seal-OnlyListing a b q key w =
    after_spool-OnlyListing a b key q.spool_path (content_length q.length_header) w
      (spool_body q.disk b.max_object_bytes q.body)

Settled-size :
    {a : Aws} (b : Broker) (k : Bucket a b.bucket) (key : Text) (body : List ℕ) (w : a.World)
    (t : Result Stored × Broker × a.World) (st : Stored)
    → t.0 ≡ ok st
    → Settled b k key body w t
    → size_in (k.held t.2 key) ≡ some (length body)
Settled-size b k key body w (err reason, b', w') st e h = cc
Settled-size b k key body w (ok (uploaded n), b', w') st e h = ap size_in h.2
Settled-size b k key body w (ok (unchanged n), b', w') st e h =
    ap size_in (h.2 key) ∙ h.1 ∙ ap some h.0

store_seal-unchanged :
    (a : Aws) (b b' : Broker) (q : Request) (key : Text) (w w' : a.World) (n : ℕ)
    → OnlyListing b b'
    → (spool_body q.disk b.max_object_bytes q.body).0 ≡ ok n
    → disagrees (content_length q.length_header) n ≡ false
    → size_of a b.bucket key w ≡ (ok (some n), w')
    → store_seal a q b' key w ≡ (ok (unchanged n), b', w')
unfolding store_seal
store_seal-unchanged a b b' q key w w' n only e d h = elim only [
  | inl same ↦ back same (go b e h)
  | inr dropped ↦ back dropped (go (record b { listing = none }) e h)
]
  where
    go :
        (x : Broker)
        → (spool_body q.disk x.max_object_bytes q.body).0 ≡ ok n
        → size_of a x.bucket key w ≡ (ok (some n), w')
        → store_seal a q x key w ≡ (ok (unchanged n), x, w')
    go x e h =
        after_spool-unchanged a x key q.spool_path (content_length q.length_header) w w'
          (spool_body q.disk x.max_object_bytes q.body) n e d h

    back :
        {x y : Broker}
        → x ≡ y
        → store_seal a q y key w ≡ (ok (unchanged n), y, w')
        → store_seal a q x key w ≡ (ok (unchanged n), x, w')
    back p = subst (λ (z : Broker). store_seal a q z key w ≡ (ok (unchanged n), z, w')) (sym p)

-- On the documented behaviour of the calls, with the limit and each chunk below isize::MAX: after
-- an upload that was acknowledged, the same request again, where the store can be listed, sends
-- nothing. It is answered `unchanged` with the same size, and leaves the broker as it is and every
-- key's body in the bucket too.
pub store_seal_twice :
    {a : Aws} (b : Broker) (k : Bucket a b.bucket) (q : Request) (key : Text) (w w'' : a.World)
    (st : Stored) (held : Option ℕ)
    → b.max_object_bytes < isize_limit
    → All InMemory q.body
    → (store_seal a q b key w).0 ≡ ok st
    → size_of a b.bucket key (store_seal a q b key w).2 ≡ (ok held, w'')
    → let (r, b', w') = store_seal a q b key w in
      (store_seal a q b' key w' ≡ (ok (unchanged (length (payload q.body))), b', w''))
      × ((j : Text) → k.held w'' j ≡ k.held w' j)
unfolding store_seal
store_seal_twice {a} b k q key w w'' st held small mem h s =
    let t = store_seal a q b key w in
    let n = length (payload q.body) in
    let spooled = spool_body q.disk b.max_object_bytes q.body in
    let (m, e, d) =
      after_spool-ok a b key q.spool_path (content_length q.length_header) w spooled st h in
    let (file, l, fits) = spool_body-payload q.disk b.max_object_bytes q.body m small mem e in
    let (shown, kept) = size_of-held k t.2 w'' key held s in
    let now =
      Settled-size b k key (payload q.body) w t st h (store_seal-Settled b k q key w small mem) in
    (
      store_seal-unchanged a b t.1 q key t.2 w'' n (store_seal-OnlyListing a b q key w)
          (e ∙ ap ok l)
          (subst (λ (x : ℕ). disagrees (content_length q.length_header) x ≡ false) l d)
          (s ∙ ap (λ (o : Option ℕ). (ok o, w'')) (shown ∙ now)),
      kept,
    )
