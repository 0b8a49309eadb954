-- ===== src/Broker/Server/Interleaving/Current.antt =====
-- What the cached list shows, however listings and uploads overlap.
use vaultr.Prelude.{
  ◌≡◌, refl, sym, ap, ◌∙◌, subst, true, Option, none, some, List, [], ◌∷◌, ◌++◌, All, ℕ,
}
use vaultr.Text.{Text}
use vaultr.Broker.Result.{Result, ok, err}
use vaultr.Broker.Store.{
  Aws, Object, key_prefix, list_args, put_args, parse_listing, read_output, aws, list, size_of, put,
  find_key,
}
use vaultr.Broker.Store.Printed.{parse-Prints}
use vaultr.Broker.Server.{Broker, Visit}
use vaultr.Broker.Server.Handlers.{relist, after_put}
use vaultr.Broker.Server.Bucket.{read_output-ok, map_ok-ok}
use vaultr.Broker.Server.Interleaving.{
  Lock, asking, answered, State, IsUnderPrefix, Step, shown, begun, listed, ended, sized, stored,
  not_stored, dropped, Reach, here, next, start, Keeps, Shows, CacheShows,
}

All-mono : {P Q : Text → Type 0} (f : (k : Text) → P k → Q k) (ks : List Text) → All P ks → All Q ks
All-mono f [] h = tt
All-mono f (k ∷ ks) h = (f k h.0, All-mono f ks h.1)

All-split :
    (P : Text → Type 0) (key : Text) (before behind : List Text)
    → All P (before ++ (key ∷ behind))
    → P key × All P (before ++ behind)
All-split P key [] behind h = (h.0, h.1)
All-split P key (k ∷ before) behind h =
    let (p, q) = All-split P key before behind h.1 in (p, (h.0, q))

abbrev LockShows : Lock → List Text → Type 0
LockShows (answered v (ok objects)) keys = All (Shows objects) keys
LockShows _ keys = Unit

module _ {a : Aws} (b : Broker) (bucket : Keeps a b.bucket) where
  abbrev IsHeld : a.World → Text → Type 0
  IsHeld w key = IsUnderPrefix key × (bucket.holds w key ≡ true)

  record IsCurrent (s : State a) : Type 0 where
    same : s.broker.bucket ≡ b.bucket
    waiting : All (IsHeld s.world) s.pending
    finished : All (IsHeld s.world) s.done
    lock_shows : LockShows s.lock s.done
    cache_shows : CacheShows s.broker.listing s.done

  list-shows :
      (w w' : a.World) (r : Result (List Object)) (v : Visit) (keys : List Text)
      → list a b.bucket w ≡ (r, w')
      → All (IsHeld w) keys
      → LockShows (answered v r) keys
  unfolding list aws
  list-shows w w' (err reason) v keys h held = tt
  list-shows w w' (ok found) v keys h held =
      let x = a.exec w (list_args b.bucket key_prefix) [] in
      let (s, r, f) = map_ok-ok parse_listing (read_output x.0) found (ap (λ p. p.0) h) in
      let e : x ≡ (some (record { success = true; stdout = some s }), w') =
        λ i. (read_output-ok x.0 s r i, (h i).1) in
      let (objects, p, plain, covers) = bucket.list_covers w w' s e in
      let same : found ≡ objects = sym f ∙ parse-Prints s objects p plain in
      All-mono
        (λ key k.
          let (n, q) = covers k.0.0 (subst (λ y. bucket.holds w y ≡ true) k.0.1 k.1) in
          (n, (λ i. find_key (k.0.1 i) (same i)) ∙ q))
        keys held

  Kept : a.World → a.World → Type 0
  Kept w w' = (j : Text) → bucket.holds w j ≡ true → bucket.holds w' j ≡ true

  list-Kept : (w w' : a.World) (r : Result (List Object)) → list a b.bucket w ≡ (r, w') → Kept w w'
  unfolding list aws Kept
  list-Kept w w' r h j =
      bucket.list_keeps w w' key_prefix j _
        (λ i. ((a.exec w (list_args b.bucket key_prefix) []).0, (h i).1))

  size_of-Kept :
      (w w' : a.World) (key : Text) (r : Result (Option ℕ))
      → size_of a b.bucket key w ≡ (r, w')
      → Kept w w'
  unfolding size_of aws Kept
  size_of-Kept w w' key r h j =
      bucket.list_keeps w w' key j _ (λ i. ((a.exec w (list_args b.bucket key) []).0, (h i).1))

  put-Kept :
      (w w' : a.World) (key : Text) (path : Option Text) (body : List ℕ) (r : Result (Unit {0}))
      → put a b.bucket key path body w ≡ (r, w')
      → Kept w w'
  unfolding put aws Kept
  put-Kept w w' key none body r h j = subst (λ x. bucket.holds x j ≡ true) (ap (λ p. p.1) h)
  put-Kept w w' key (some path) body r h j =
      bucket.put_keeps w w' key path j body _
        (λ i. ((a.exec w (put_args b.bucket key path) body).0, (h i).1))

  put-holds :
      (w w' : a.World) (key : Text) (path : Option Text) (body : List ℕ)
      → put a b.bucket key path body w ≡ (ok tt, w')
      → bucket.holds w' key ≡ true
  unfolding put aws
  put-holds w w' key none body h = cc
  put-holds w w' key (some path) body h =
      let x = a.exec w (put_args b.bucket key path) body in
      let (s, r, f) = map_ok-ok (λ _. tt) (read_output x.0) tt (ap (λ p. p.0) h) in
      bucket.put_holds w w' key path body (some s) (λ i. (read_output-ok x.0 s r i, (h i).1))

  IsHeld-Kept :
      (w w' : a.World) (keys : List Text) → Kept w w' → All (IsHeld w) keys → All (IsHeld w') keys
  unfolding Kept
  IsHeld-Kept w w' keys k h = All-mono (λ key p. (p.0, k key p.1)) keys h

  relist-same :
      (c : Broker) (v : Visit) (r : Result (List Object)) (w : a.World)
      → (relist a c v (r, w)).1.bucket ≡ c.bucket
  unfolding relist
  relist-same c v (err reason) w = refl
  relist-same c v (ok objects) w = refl

  relist-shows :
      (c : Broker) (v : Visit) (r : Result (List Object)) (w : a.World) (keys : List Text)
      → LockShows (answered v r) keys
      → CacheShows c.listing keys
      → CacheShows (relist a c v (r, w)).1.listing keys
  unfolding relist
  relist-shows c v (err reason) w keys l h = h
  relist-shows c v (ok objects) w keys l h = l

  -- A step that only moves the world keeps what is held.
  world-IsCurrent :
      (s : State a) (w : a.World)
      → Kept s.world w
      → IsCurrent s
      → IsCurrent (record s { world = w })
  world-IsCurrent s w k c = record {
    same = c.same;
    waiting = IsHeld-Kept s.world w s.pending k c.waiting;
    finished = IsHeld-Kept s.world w s.done k c.finished;
    lock_shows = c.lock_shows;
    cache_shows = c.cache_shows;
  }

  lock-IsCurrent :
      (s : State a) (l : Lock)
      → LockShows l s.done
      → IsCurrent s
      → IsCurrent (record s { lock = l })
  lock-IsCurrent s l h c = record {
    same = c.same;
    waiting = c.waiting;
    finished = c.finished;
    lock_shows = h;
    cache_shows = c.cache_shows;
  }

  Step-IsCurrent : {s t : State a} → Step a s t → IsCurrent s → IsCurrent t
  unfolding after_put
  Step-IsCurrent (shown s v f e) c = c
  Step-IsCurrent (begun s v f e) c = lock-IsCurrent s (asking v) tt c
  Step-IsCurrent (listed s v r w l e) c =
      let h : list a b.bucket s.world ≡ (r, w) = rw c.same at e in
      world-IsCurrent (record s { lock = answered v r }) w (list-Kept s.world w r h)
        (lock-IsCurrent s (answered v r) (list-shows s.world w r v s.done h c.finished) c)
  Step-IsCurrent (ended s v r l) c = record {
    same = relist-same s.broker v r s.world ∙ c.same;
    waiting = c.waiting;
    finished = c.finished;
    lock_shows = tt;
    cache_shows =
        relist-shows s.broker v r s.world s.done (subst (λ k. LockShows k s.done) l c.lock_shows)
          c.cache_shows;
  }
  Step-IsCurrent (sized s key r w e) c =
      world-IsCurrent s w (size_of-Kept s.world w key r (rw c.same at e)) c
  Step-IsCurrent (not_stored s key path body reason w e) c =
      world-IsCurrent s w (put-Kept s.world w key path body (err reason) (rw c.same at e)) c
  Step-IsCurrent (stored s key path body w p e) c =
      let h : put a b.bucket key path body s.world ≡ (ok tt, w) = rw c.same at e in
      let k = put-Kept s.world w key path body (ok tt) h in
      record {
        same = c.same;
        waiting =
            ((p, put-holds s.world w key path body h), IsHeld-Kept s.world w s.pending k c.waiting);
        finished = IsHeld-Kept s.world w s.done k c.finished;
        lock_shows = c.lock_shows;
        cache_shows = c.cache_shows;
      }
  Step-IsCurrent (dropped s key size before behind f e) c =
      let (p, q) = All-split (IsHeld s.world) key before behind (rw e at c.waiting) in
      record {
        same = c.same;
        waiting = q;
        finished = (p, c.finished);
        lock_shows = rw f tt;
        cache_shows = tt;
      }

  Reach-IsCurrent : {s t : State a} → IsCurrent s → Reach s t → IsCurrent t
  Reach-IsCurrent c here = c
  Reach-IsCurrent c (next r st) = Step-IsCurrent st (Reach-IsCurrent c r)

  -- However listings and uploads of keys under the prefix overlap, from an empty cache and over a
  -- bucket that keeps what is put and lists it in rows of white-space-free keys, a cached list has an
  -- object under every key whose upload was answered `uploaded`.
  pub cache-shows_done :
      {w : a.World} {s : State a} → Reach (start b w) s → CacheShows s.broker.listing s.done
  cache-shows_done r =
      (Reach-IsCurrent
        (record { same = refl; waiting = tt; finished = tt; lock_shows = tt; cache_shows = tt })
        r).cache_shows
