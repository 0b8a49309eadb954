-- ===== src/Broker/Server.antt =====
-- The state that the routes of crates/broker/src/main.rs share, and what a request brings.
pub mod Handlers
pub mod Routes
pub mod Access
pub mod Bucket
pub mod Uploads
pub mod Repeats
pub mod Answers
pub mod Listing
pub mod Interleaving
use vaultr.Prelude.{
  ℕ, ◌+◌, ◌-◌, ◌*◌, ◌%◌, Bool, true, false, not, ◌&&◌, ◌||◌, Option, none, some, List, [], ◌∷◌,
  ◌++◌, ltb, ◌==◌, length, any, is_empty, if◌then◌else◌,
}
use vaultr.Text.{Text, chars, text_eq, strip_prefix, u64_limit}
use vaultr.Broker.Result.{
  Reason, Result, ok, err, no_route, not_authorized_to_read, too_large, length_mismatch,
}
use vaultr.Broker.Tenant.{Tenant, SocketAddr, tenant_eq}
use vaultr.Broker.Seal.{KeyPolicy, validate}
use vaultr.Broker.Kube.{nanos}
use vaultr.Broker.Resolver
use vaultr.Broker.Resolver.{Resolver}
use vaultr.Broker.Store
use vaultr.Broker.Store.{Aws, Object, list, size_of, presign, put}
use vaultr.Broker.Store.Rows.{print_rows}
use vaultr.Broker.Metrics
use vaultr.Broker.Metrics.{Metrics}
use vaultr.Broker.Http.{
  Method, Request, Response, Content, Header, get, other, plain, table, stored, located, error,
  gateway_subject, bearer_token, content_length, spool_body,
}
use vaultr.Broker.Http

pub record Broker : Type 0 where
  pub bucket : Text
  pub resolver : Resolver
  pub metrics : Metrics
  pub keys : KeyPolicy
  pub read_tenants : List Tenant
  pub max_object_bytes : ℕ
  pub listing : Option (List Object × ℕ)

-- Who asks, what lies outside of the identity legs, and the clock where the handlers read it.
pub record Visit : Type 0 where
  pub peer : SocketAddr
  pub outside : Resolver.Outside
  pub contacted_at : ℕ
  pub looked_at : ℕ
  pub observed_at : ℕ
  pub listed_at : ℕ
  pub finished_at : ℕ

abbrev pub listing_ttl : ℕ
listing_ttl = 300 * nanos

abbrev pub presigned_url_expires_seconds : ℕ
presigned_url_expires_seconds = 300

abbrev pub sum_sizes : List Object → ℕ
sum_sizes [] = 0
sum_sizes (o ∷ objects) = (o.size + sum_sizes objects) % u64_limit

abbrev pub is_fresh_listing : ℕ → Option (List Object × ℕ) → Bool
is_fresh_listing now none = false
is_fresh_listing now (some (objects, at)) = ltb (now - at) listing_ttl

-- The body of a listing; an empty cache would be an empty body.
abbrev pub listing_body : Option (List Object × ℕ) → Text
listing_body none = []
listing_body (some (objects, at)) = print_rows objects

abbrev pub listing_response : Broker → Response
listing_response b = record { status = 200; content = table (listing_body b.listing) }

pub data Stored : Type 0 where
  uploaded unchanged : ℕ → Stored

abbrev pub is_seals : Text → Bool
is_seals path = text_eq path (chars "/v1/seals")

abbrev pub seal_path : Text → Option Text
seal_path path = strip_prefix (chars "/v1/seals/") path
