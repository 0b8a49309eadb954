-- ===== src/Broker/Server/Interleaving.antt =====
-- Listings and uploads that run at once (`listing` and the end of `store_seal` in
-- crates/broker/src/main.rs), cut where another task can run: a listing holds the lock of the cache
-- while it asks the store, and an upload takes the lock, after its put, to drop the cache. A call of
-- the `aws` command happens at one moment.
pub mod Current
use vaultr.Prelude.{
  ℕ, ◌≡◌, Bool, true, false, Option, none, some, List, [], ◌∷◌, ◌++◌, if◌then◌else◌, All,
}
use vaultr.Text.{Text}
use vaultr.Broker.Result.{Reason, Result, ok, err}
use vaultr.Broker.Store.{
  Aws, Output, Object, key_prefix, list_args, put_args, find_key, list, size_of, put,
}
use vaultr.Broker.Store.Rows.{IsPlain}
use vaultr.Broker.Store.Printed.{Prints}
use vaultr.Broker.Server.{Broker, Visit, is_fresh_listing}
use vaultr.Broker.Server.Handlers.{same_size, relist, after_put}

pub data Lock : Type 0 where
  free : Lock
  -- held by a listing that has found no fresh cache, and that has the store's answer
  asking : Visit → Lock
  answered : Visit → Result (List Object) → Lock

pub record State (a : Aws) : Type 0 where
  pub broker : Broker
  pub world : a.World
  pub lock : Lock
  -- the keys that are put, with the cache not yet dropped
  pub pending : List Text
  -- the keys whose upload was answered `uploaded`
  pub done : List Text

abbrev pub IsUnderPrefix : Text → Type 0
IsUnderPrefix key = (rest : Text) × (key ≡ key_prefix ++ rest)

pub data Step (a : Aws) : State a → State a → Type 0 where
  -- broker.listing.lock().await finds a fresh list, and answers with it
  shown :
      (s : State a) (v : Visit)
      → s.lock ≡ free
      → is_fresh_listing v.looked_at s.broker.listing ≡ true
      → Step a s s
  -- or finds none, and keeps the lock
  begun :
      (s : State a) (v : Visit)
      → s.lock ≡ free
      → is_fresh_listing v.looked_at s.broker.listing ≡ false
      → Step a s (record s { lock = asking v })
  -- broker.store.list()
  listed :
      (s : State a) (v : Visit) (r : Result (List Object)) (w : a.World)
      → s.lock ≡ asking v
      → list a s.broker.bucket s.world ≡ (r, w)
      → Step a s (record s { world = w; lock = answered v r })
  -- *cache = Some(…) or the return on an error, and the guard is dropped
  ended :
      (s : State a) (v : Visit) (r : Result (List Object))
      → s.lock ≡ answered v r
      → Step a s (record s { broker = (relist a s.broker v (r, s.world)).1; lock = free })
  -- broker.store.size_of(key): of an upload that goes on, fails, or is answered `unchanged` with the
  -- cache as it is
  sized :
      (s : State a) (key : Text) (r : Result (Option ℕ)) (w : a.World)
      → size_of a s.broker.bucket key s.world ≡ (r, w)
      → Step a s (record s { world = w })
  -- broker.store.put(key, spool) succeeds
  stored :
      (s : State a) (key : Text) (path : Option Text) (body : List ℕ) (w : a.World)
      → IsUnderPrefix key
      → put a s.broker.bucket key path body s.world ≡ (ok tt, w)
      → Step a s (record s { world = w; pending = key ∷ s.pending })
  -- or fails
  not_stored :
      (s : State a) (key : Text) (path : Option Text) (body : List ℕ) (reason : Reason)
      (w : a.World)
      → put a s.broker.bucket key path body s.world ≡ (err reason, w)
      → Step a s (record s { world = w })
  -- *broker.listing.lock().await = None, and the upload is answered `uploaded`
  dropped :
      (s : State a) (key : Text) (size : ℕ) (before behind : List Text)
      → s.lock ≡ free
      → s.pending ≡ before ++ (key ∷ behind)
      → Step a s (record s {
        broker = (after_put a s.broker size (ok tt, s.world)).1;
        pending = before ++ behind;
        done = key ∷ s.done;
      })

pub data Reach {a : Aws} (s : State a) : State a → Type 0 where
  here : Reach s s
  next : {t u : State a} → Reach s t → Step a t u → Reach s u

abbrev pub start : {a : Aws} → Broker → a.World → State a
start b w = record {
  broker = record b { listing = none };
  world = w;
  lock = free;
  pending = [];
  done = [];
}

-- What AWS documents of a bucket from which nothing is deleted: a key that was put is there, stays
-- there, and is among the objects that a later list prints.
pub record Keeps (a : Aws) (bucket : Text) : Type 0 where
  pub holds : a.World → Text → Bool
  pub put_holds :
      (w w' : a.World) (key path : Text) (body : List ℕ) (s : Option Text)
      → a.exec w (put_args bucket key path) body
        ≡ (some (record { success = true; stdout = s }), w')
      → holds w' key ≡ true
  pub put_keeps :
      (w w' : a.World) (key path j : Text) (body : List ℕ) (o : Option Output)
      → a.exec w (put_args bucket key path) body ≡ (o, w')
      → holds w j ≡ true
      → holds w' j ≡ true
  pub list_keeps :
      (w w' : a.World) (prefix j : Text) (o : Option Output)
      → a.exec w (list_args bucket prefix) [] ≡ (o, w')
      → holds w j ≡ true
      → holds w' j ≡ true
  pub list_covers :
      (w w' : a.World) (s : Text)
      → a.exec w (list_args bucket key_prefix) []
        ≡ (some (record { success = true; stdout = some s }), w')
      → (objects : List Object) × Prints s objects
        × All IsPlain objects
        × ((rest : Text)
            → holds w (key_prefix ++ rest) ≡ true
            → (n : ℕ) × (find_key (key_prefix ++ rest) objects ≡ some n))

abbrev pub Shows : List Object → Text → Type 0
Shows objects key = (n : ℕ) × (find_key key objects ≡ some n)

-- A cached list has an object under every one of the keys.
abbrev pub CacheShows : Option (List Object × ℕ) → List Text → Type 0
CacheShows none keys = Unit
CacheShows (some (objects, at)) keys = All (Shows objects) keys
