-- ===== src/Broker/Server/Listing.antt =====
-- What a listing answers, and what it leaves cached.
use vaultr.Prelude.{
  ℕ, ◌-◌, ◌<◌, ◌≤◌, ◌≡◌, refl, sym, ap, ◌∙◌, inl, inr, Option, none, some, List, [], ◌∷◌, Any,
  arith, length, Bool-cases, if◌then◌else◌,
}
use vaultr.Text.{Text}
use vaultr.Broker.Result.{Reason, Result, ok, err}
use vaultr.Broker.Store.{Aws, Object, list}
use vaultr.Broker.Store.Rows.{print_rows}
use vaultr.Broker.Metrics
use vaultr.Broker.Http.{Response, table, error}
use vaultr.Broker.Server.{Broker, Visit, listing_ttl, is_fresh_listing, listing_response, sum_sizes}
use vaultr.Broker.Server.Handlers.{Reply, listing, relist}

abbrev pub rows_response : List Object → Response
rows_response objects = record { status = 200; content = table (print_rows objects) }

-- No list is cached, or one of five minutes ago or more.
abbrev pub IsOld : ℕ → Option (List Object × ℕ) → Type 0
IsOld now none = Unit
IsOld now (some (objects, at)) = listing_ttl ≤ now - at

-- A broker with the objects of a list counted and cached.
abbrev relisted_broker : Broker → Visit → List Object → Broker
relisted_broker b v objects = record b {
  metrics = Metrics.observe_store b.metrics (length objects) (sum_sizes objects) v.observed_at;
  listing = some (objects, v.listed_at);
}

-- The three ways in which `listing` ends.
data Listed (a : Aws) (b : Broker) (v : Visit) (w : a.World) (r : Reply a) : Type 0 where
  from_cache :
      (objects : List Object) (at : ℕ)
      → b.listing ≡ some (objects, at)
      → v.looked_at - at < listing_ttl
      → r ≡ (rows_response objects, b, w)
      → Listed a b v w r
  relisted :
      (objects : List Object)
      → IsOld v.looked_at b.listing
      → (list a b.bucket w).0 ≡ ok objects
      → r ≡ (rows_response objects, relisted_broker b v objects, (list a b.bucket w).1)
      → Listed a b v w r
  not_listed :
      (reason : Reason)
      → IsOld v.looked_at b.listing
      → (list a b.bucket w).0 ≡ err reason
      → r ≡ (error 502 reason, b, (list a b.bucket w).1)
      → Listed a b v w r

listing-Listed : (a : Aws) (b : Broker) (v : Visit) (w : a.World) → Listed a b v w (listing a b v w)
unfolding listing relist
listing-Listed a b v w = by_cache b.listing refl
  where
    by_list :
        IsOld v.looked_at b.listing
        → (r : Result (List Object) × a.World) → list a b.bucket w ≡ r
        → Listed a b v w (relist a b v r)
    by_list old (err reason, w') e =
        not_listed reason old (ap (λ p. p.0) e) (ap (λ p. (error 502 reason, b, p.1)) (sym e))
    by_list old (ok objects, w') e =
        relisted objects old (ap (λ p. p.0) e)
          (ap (λ p. (rows_response objects, relisted_broker b v objects, p.1)) (sym e))

    by_cache :
        (c : Option (List Object × ℕ))
        → b.listing ≡ c
        → Listed a b v w (
            if is_fresh_listing v.looked_at c
            then (listing_response b, b, w)
            else relist a b v (list a b.bucket w))
    by_cache none e = by_list (rw e tt) (list a b.bucket w) refl
    by_cache (some (objects, at)) e =
        elim (Bool-cases (is_fresh_listing v.looked_at (some (objects, at)))) [
          | inl fresh ↦ rw fresh (from_cache objects at e (ground arith) (rw e refl))
          | inr stale ↦ rw stale (by_list (rw e (ground arith)) (list a b.bucket w) refl)
        ]

module _ (a : Aws) where
  -- What happens to the cache: a listing, over the world as others left it, and the drop behind a put.
  pub data Event : Type 0 where
    listed : Visit → a.World → Event
    dropped : Event

  abbrev pub run_event : Broker → Event → Broker
  run_event b (listed v w) = (listing a b v w).1
  run_event b dropped = record b { listing = none }

  -- The broker behind a history, the latest event first.
  unfoldable pub after : Broker → List Event → Broker
  after b [] = b
  after b (e ∷ earlier) = run_event (after b earlier) e

  -- In this event the store listed the objects, and they were cached at that time.
  abbrev pub WasListed : Text → List Object → ℕ → Event → Type 0
  WasListed bucket objects at (listed v w) = ((list a bucket w).0 ≡ ok objects) × (v.listed_at ≡ at)
  WasListed bucket objects at dropped = ⊥

  abbrev IsBacked : Text → List Event → Option (List Object × ℕ) → Type 0
  IsBacked bucket history none = Unit
  IsBacked bucket history (some (objects, at)) = Any (WasListed bucket objects at) history

  -- What a listing over the world `w` answers behind a history.
  pub data Answered (bucket : Text) (history : List Event) (b : Broker) (v : Visit) (w : a.World)
      (r : Reply a) : Type 0 where
    remembered :
        (objects : List Object) (at : ℕ)
        → Any (WasListed bucket objects at) history
        → v.looked_at - at < listing_ttl
        → r ≡ (rows_response objects, b, w)
        → Answered bucket history b v w r
    asked :
        (objects : List Object)
        → IsOld v.looked_at b.listing
        → (list a bucket w).0 ≡ ok objects
        → r.0 ≡ rows_response objects
        → r.1.listing ≡ some (objects, v.listed_at)
        → r.2 ≡ (list a bucket w).1
        → Answered bucket history b v w r
    refused :
        (reason : Reason)
        → IsOld v.looked_at b.listing
        → (list a bucket w).0 ≡ err reason
        → r ≡ (error 502 reason, b, (list a bucket w).1)
        → Answered bucket history b v w r

  module _ (b : Broker) where
    listing-bucket : (c : Broker) (v : Visit) (w : a.World) → (listing a c v w).1.bucket ≡ c.bucket
    listing-bucket c v w = elim (listing-Listed a c v w) [
      | from_cache objects at held young e ↦ rw e refl
      | relisted objects old l e ↦ rw e refl
      | not_listed reason old l e ↦ rw e refl
    ]

    after-bucket : (history : List Event) → (after b history).bucket ≡ b.bucket
    unfolding after
    after-bucket [] = refl
    after-bucket (listed v w ∷ earlier) =
        listing-bucket (after b earlier) v w ∙ after-bucket earlier
    after-bucket (dropped ∷ earlier) = after-bucket earlier

    later-Backed :
        (e : Event) (history : List Event) (c : Option (List Object × ℕ))
        → IsBacked b.bucket history c
        → IsBacked b.bucket (e ∷ history) c
    later-Backed e history none h = tt
    later-Backed e history (some (objects, at)) h = inr h

    listing-Backed :
        (history : List Event) (c : Broker) (v : Visit) (w : a.World)
        → c.bucket ≡ b.bucket
        → IsBacked b.bucket history c.listing
        → IsBacked b.bucket (listed v w ∷ history) (listing a c v w).1.listing
    listing-Backed history c v w same h = elim (listing-Listed a c v w) [
      | from_cache objects at held young e ↦ rw e (later-Backed (listed v w) history c.listing h)
      | relisted objects old l e ↦ rw e (inl (rw same at l, refl))
      | not_listed reason old l e ↦ rw e (later-Backed (listed v w) history c.listing h)
    ]

    after-Backed :
        b.listing ≡ none
        → (history : List Event) → IsBacked b.bucket history (after b history).listing
    unfolding after
    after-Backed empty [] = rw empty tt
    after-Backed empty (listed v w ∷ earlier) =
        listing-Backed earlier (after b earlier) v w (after-bucket earlier)
          (after-Backed empty earlier)
    after-Backed empty (dropped ∷ earlier) = tt

    -- After any history of listings and drops that began with no cached list, a listing either shows
    -- what the store listed in an earlier listing less than five minutes ago, and nothing is called or
    -- changed; or no list that young is cached and it shows what the store lists now, which is then
    -- cached; or that call fails, and the answer is an error that leaves the broker as it was.
    pub listing-Answered :
        b.listing ≡ none
        → (history : List Event) (v : Visit) (w : a.World)
        → Answered b.bucket history (after b history) v w (listing a (after b history) v w)
    listing-Answered empty history v w = elim (listing-Listed a (after b history) v w) [
      | from_cache objects at held young e ↦
          remembered objects at (rw held at (after-Backed empty history)) young e
      | relisted objects old l e ↦
          asked objects old (rw (after-bucket history) at l) (ap (λ r. r.0) e)
            (ap (λ r. r.1.listing) e)
            (ap (λ r. r.2) e ∙ ap (λ n. (list a n w).1) (after-bucket history))
      | not_listed reason old l e ↦
          refused reason old (rw (after-bucket history) at l) (
            e
            ∙ ap (λ n. (error 502 reason, after b history, (list a n w).1)) (after-bucket history))
    ]
