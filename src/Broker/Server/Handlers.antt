-- ===== src/Broker/Server/Handlers.antt =====
-- The handlers of crates/broker/src/main.rs behind authentication, over what lies behind `aws`:
-- `listing`, `read_seal`, `upload` and `store_seal`.
use vaultr.Prelude.{
  ℕ, Bool, false, not, Option, none, some, List, ltb, ◌==◌, length, any, if◌then◌else◌,
}
use vaultr.Text.{Text}
use vaultr.Broker.Result.{Result, ok, err, not_authorized_to_read, too_large, length_mismatch}
use vaultr.Broker.Tenant.{Tenant, tenant_eq}
use vaultr.Broker.Seal.{validate}
use vaultr.Broker.Store.{Aws, Object, list, size_of, presign, put}
use vaultr.Broker.Metrics
use vaultr.Broker.Metrics.{Metrics}
use vaultr.Broker.Http.{Request, Response, stored, located, error, content_length, spool_body}
use vaultr.Broker.Server.{
  Broker, Visit, Stored, uploaded, unchanged, presigned_url_expires_seconds, sum_sizes,
  is_fresh_listing, listing_response,
}

-- Some(size) == Some(n), a declared length that differs, and one above the limit.
abbrev pub same_size : Option ℕ → ℕ → Bool
same_size none size = false
same_size (some n) size = n == size

abbrev pub disagrees : Option ℕ → ℕ → Bool
disagrees none size = false
disagrees (some declared) size = not (declared == size)

abbrev pub exceeds : Option ℕ → ℕ → Bool
exceeds none limit = false
exceeds (some declared) limit = ltb limit declared

module _ (a : Aws) where
  open a use {World}

  -- What a handler leaves: its response, the broker and the world behind it.
  abbrev pub Reply : Type 0
  Reply = Response × Broker × World

  -- The relisting, on what `list` returned.
  unfoldable pub relist : Broker → Visit → Result (List Object) × World → Reply
  relist b v (err reason, w) = (error 502 reason, b, w)
  relist b v (ok objects, w) =
      let b' = record b {
        metrics =
            Metrics.observe_store b.metrics (length objects) (sum_sizes objects) v.observed_at;
        listing = some (objects, v.listed_at);
      } in
      (listing_response b', b', w)

  unfoldable pub listing : Broker → Visit → World → Reply
  unfolding relist
  listing b v w =
      if is_fresh_listing v.looked_at b.listing
      then (listing_response b, b, w)
      else relist b v (list a b.bucket w)

  unfoldable pub redirect : Broker → Result Text × World → Reply
  redirect b (err reason, w) = (error 502 reason, b, w)
  redirect b (ok url, w) = (record { status = 307; content = located url }, b, w)

  unfoldable pub sign_seal : Broker → Text → World → Result (Unit {0}) → Reply
  unfolding redirect
  sign_seal b key w (err reason) = (error 400 reason, b, w)
  sign_seal b key w (ok u) = redirect b (presign a b.bucket key presigned_url_expires_seconds w)

  unfoldable pub read_seal : Broker → Tenant → Text → World → Reply
  unfolding sign_seal
  read_seal b tenant key w =
      if any (tenant_eq tenant) b.read_tenants
      then sign_seal b key w (validate b.keys key)
      else (error 403 not_authorized_to_read, b, w)

  -- The end of `store_seal`, on what `put` returned.
  unfoldable pub after_put : Broker → ℕ → Result (Unit {0}) × World → Result Stored × Broker × World
  after_put b size (err reason, w) = (err reason, b, w)
  after_put b size (ok u, w) = (ok (uploaded size), record b { listing = none }, w)

  unfoldable pub after_size :
      Broker
      → Text
      → Option Text
      → List ℕ
      → ℕ
      → Result (Option ℕ) × World
      → Result Stored × Broker × World
  unfolding after_put
  after_size b key path body size (err reason, w) = (err reason, b, w)
  after_size b key path body size (ok held, w) =
      if same_size held size
      then (ok (unchanged size), b, w)
      else after_put b size (put a b.bucket key path body w)

  unfoldable pub after_spool :
      Broker
      → Text
      → Option Text
      → Option ℕ
      → World
      → Result ℕ × List ℕ
      → Result Stored × Broker × World
  unfolding after_size
  after_spool b key path declared w (err reason, body) = (err reason, b, w)
  after_spool b key path declared w (ok size, body) =
      if disagrees declared size
      then (err length_mismatch, b, w)
      else after_size b key path body size (size_of a b.bucket key w)

  unfoldable pub store_seal : Request → Broker → Text → World → Result Stored × Broker × World
  unfolding after_spool
  store_seal q b key w =
      after_spool b key q.spool_path (content_length q.length_header) w
        (spool_body q.disk b.max_object_bytes q.body)

  -- What `upload` makes of the result, with the outcome recorded.
  unfoldable pub report : Visit → Tenant → Text → Result Stored × Broker × World → Reply
  report v tenant key (ok (uploaded size), b, w) = (
    record { status = 200; content = stored Metrics.uploaded key size },
    record b {
      metrics = Metrics.record_outcome b.metrics tenant Metrics.uploaded size v.finished_at;
    },
    w,
  )
  report v tenant key (ok (unchanged size), b, w) = (
    record { status = 200; content = stored Metrics.unchanged key size },
    record b {
      metrics = Metrics.record_outcome b.metrics tenant Metrics.unchanged size v.finished_at;
    },
    w,
  )
  report v tenant key (err reason, b, w) = (
    error 502 reason,
    record b { metrics = Metrics.record_outcome b.metrics tenant Metrics.failed 0 v.finished_at },
    w,
  )

  unfoldable pub upload_checked :
      Request → Broker → Visit → Tenant → Text → World → Result (Unit {0}) → Reply
  unfolding report
  upload_checked q b v tenant key w (err reason) = (error 400 reason, b, w)
  upload_checked q b v tenant key w (ok u) =
      if exceeds (content_length q.length_header) b.max_object_bytes
      then (error 413 too_large, b, w)
      else report v tenant key (store_seal q b key w)

  unfoldable pub upload : Request → Broker → Visit → Tenant → Text → World → Reply
  unfolding upload_checked
  upload q b v tenant key w = upload_checked q b v tenant key w (validate b.keys key)
