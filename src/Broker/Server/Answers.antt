-- ===== src/Broker/Server/Answers.antt =====
-- When an upload succeeds.
use vaultr.Prelude.{
  ℕ, ◌≤◌, ◌<◌, ◌≡◌, ◌≢◌, refl, sym, ap, subst, Bool, true, false, Option, List, All, length,
  if◌then◌else◌,
}
use vaultr.Text.{Text}
use vaultr.Broker.Result.{Result, ok, err}
use vaultr.Broker.Store.{Aws, size_of, put}
use vaultr.Broker.Http.{Request, broken, content_length, spool_body}
use vaultr.Broker.Http.Spool.{payload, isize_limit, spool_body-total}
use vaultr.Broker.Server.{Broker, Stored, uploaded, unchanged}
use vaultr.Broker.Server.Handlers.{
  after_put, after_size, after_spool, same_size, disagrees, store_seal,
}

abbrev pub outcome_of : Option ℕ → ℕ → Stored
outcome_of held n = if same_size held n then unchanged n else uploaded n

module _ (a : Aws) (b : Broker) (key : Text) (path : Option Text) (w w1 w2 : a.World)
    (held : Option ℕ) where
  after_size-answers :
      (body : List ℕ) (n : ℕ)
      → put a b.bucket key path body w1 ≡ (ok tt, w2)
      → (after_size a b key path body n (ok held, w1)).0 ≡ ok (outcome_of held n)
  unfolding after_size after_put
  after_size-answers body n p = by_size (same_size held n)
    where
      by_size :
          (s : Bool)
          → (if s
              then (ok (unchanged n), b, w1)
              else after_put a b n (put a b.bucket key path body w1)).0
            ≡ ok (if s then unchanged n else uploaded n)
      by_size true = refl
      by_size false = ap (λ (r : Result (Unit {0}) × a.World). (after_put a b n r).0) p

  after_spool-answers :
      (declared : Option ℕ) (n : ℕ) (s : Result ℕ × List ℕ)
      → s.0 ≡ ok n
      → disagrees declared n ≡ false
      → size_of a b.bucket key w ≡ (ok held, w1)
      → put a b.bucket key path s.1 w1 ≡ (ok tt, w2)
      → (after_spool a b key path declared w s).0 ≡ ok (outcome_of held n)
  unfolding after_spool
  after_spool-answers declared n (err reason, body) e d z p = cc
  after_spool-answers declared n (ok m, body) e d z p =
      subst
        (λ (r : Result ℕ).
          (after_spool a b key path declared w (r, body)).0 ≡ ok (outcome_of held n))
        (sym e) (rw (d, z) (after_size-answers body n p))

-- With a limit below isize::MAX, an upload whose body arrives without errors and fits the limit, on
-- a disk that takes it, whose declared length agrees, and for which the store answers the listing
-- and takes the put, succeeds: `unchanged` if the listing shows the body's size under the key, else
-- `uploaded`.
pub store_seal-answers :
    (a : Aws) (b : Broker) (q : Request) (key : Text) (w w1 w2 : a.World) (held : Option ℕ)
    → b.max_object_bytes < isize_limit
    → q.disk.create ≡ true
    → q.disk.flush ≡ true
    → ((n : ℕ) → q.disk.write_all n ≡ true)
    → All (λ f. f ≢ broken) q.body
    → length (payload q.body) ≤ b.max_object_bytes
    → disagrees (content_length q.length_header) (length (payload q.body)) ≡ false
    → size_of a b.bucket key w ≡ (ok held, w1)
    → put a b.bucket key q.spool_path (spool_body q.disk b.max_object_bytes q.body).1 w1
      ≡ (ok tt, w2)
    → (store_seal a q b key w).0 ≡ ok (outcome_of held (length (payload q.body)))
unfolding store_seal
store_seal-answers a b q key w w1 w2 held limit create flush write whole fits agrees z p =
    after_spool-answers a b key q.spool_path w w1 w2 held (content_length q.length_header)
      (length (payload q.body)) (spool_body q.disk b.max_object_bytes q.body)
      (spool_body-total q.disk b.max_object_bytes q.body limit create flush write whole fits) agrees
      z p
