-- ===== src/Broker/Kube.antt =====
-- crates/broker/src/tenant/kube.rs: the tenant behind a projected ServiceAccount token.
pub mod Verdict
pub mod Cache
pub mod History
pub mod Labels
use vaultr.Prelude.{
  ℕ, ◌+◌, ◌-◌, ◌*◌, ◌^◌, ◌≡◌, Bool, true, false, not, Option, none, some, List, [], ◌∷◌, ◌++◌, ltb,
  leb, if◌then◌else◌, any, is_empty, length,
}
use vaultr.Prelude.Map
use vaultr.Text.{Text, chars, text_eq, trim, strip_prefix, text_key}
use vaultr.Broker.Result.{
  Reason, Result, ok, err, ensure, context, ◌>>=◌, ◌>>◌, own_token_unreadable, own_token_empty,
  review_unsent, review_refused, review_unparsable, not_authenticated, wrong_audience,
  wrong_namespace, not_pod_bound, unusable_pod_name,
}
use vaultr.Broker.Tenant.{Tenant, from_pod_name}

-- `Instant` in nanoseconds since some start; `elapsed` stops at 0.
abbrev pub nanos : ℕ
nanos = 10 ^ 9

abbrev pub cache_ttl : ℕ
cache_ttl = 60 * nanos

abbrev pub max_cached : ℕ
max_cached = 512

pub record UserInfo : Type 0 where
  pub username : Text
  -- `HashMap<String, Vec<String>>`
  pub extra : List (Text × List Text)

pub record TokenReviewStatus : Type 0 where
  pub authenticated : Bool
  pub audiences : List Text
  pub user : UserInfo

-- `review_url` and the HTTP client are in `Api` below.
pub record Identities : Type 0 where
  pub token : Text
  pub audience : Text
  pub namespace : Text
  pub cache : List (Text × (Tenant × ℕ))

-- What lies outside: the file system, the API server behind reqwest, serde_json and sha2.
pub record Api : Type 0 where
  -- `std::fs::read_to_string`
  pub read_to_string : Text → Option Text
  -- POST of our own token, the caller's and the audience: none if nothing comes back, else whether
  -- the status is a success, and the body.
  pub post : Text → Text → Text → Option (Bool × Text)
  -- `serde_json::from_str`
  pub from_str : Text → Option TokenReviewStatus
  -- `Sha256::digest`
  pub digest : Text → Text

abbrev pub first {ℓ} : {A : Type ℓ} → List A → Option A
first [] = none
first (x ∷ xs) = some x

-- Option::filter, Option::and_then
abbrev pub filter_some {ℓ} : {A : Type ℓ} → (A → Bool) → Option A → Option A
filter_some p none = none
filter_some p (some a) = if p a then some a else none

abbrev pub and_then {ℓ κ} : {A : Type ℓ} {B : Type κ} → (A → Option B) → Option A → Option B
and_then f none = none
and_then f (some a) = f a

abbrev pub pod_name_extra : Text
pod_name_extra = chars "authentication.kubernetes.io/pod-name"

abbrev pub service_account_prefix : Text → Text
service_account_prefix namespace = chars "system:serviceaccount:" ++ (namespace ++ chars ":")

unfoldable pub read_token : Api → Text → Result Text
read_token api path = do
  contents ← context own_token_unreadable (api.read_to_string path)
  ensure (not (is_empty (trim contents))) own_token_empty
  ok (trim contents)

unfoldable pub review : Api → Identities → Text → Result TokenReviewStatus
review api ids token = do
  ours ← read_token api ids.token
  answer ← context review_unsent (api.post ours token ids.audience)
  ensure answer.0 review_refused
  context review_unparsable (api.from_str answer.1)

-- The pod that a verdict names, if it names one.
unfoldable pub pod_of : TokenReviewStatus → Option Text
pod_of status =
    filter_some (λ pod. not (is_empty (trim pod)))
      (and_then first (Map.get pod_name_extra status.user.extra))

unfoldable pub tenant_of : Identities → TokenReviewStatus → Result Tenant
tenant_of ids status = do
  ensure status.authenticated not_authenticated
  ensure (any (λ a. text_eq a ids.audience) status.audiences) wrong_audience
  service_account ←
      context wrong_namespace
        (strip_prefix (service_account_prefix ids.namespace) status.user.username)
  pod ← context not_pod_bound (pod_of status)
  context unusable_pod_name (from_pod_name pod)

-- Whether an entry made at `at` still serves at `now`.
abbrev pub is_fresh : ℕ → Tenant × ℕ → Bool
is_fresh now e = ltb (now - e.1) cache_ttl

unfoldable pub cached_entry :
    Identities → Text → ℕ → Option (Tenant × ℕ) → Option Tenant × Identities
cached_entry ids digest now none = (none, ids)
cached_entry ids digest now (some e) =
    if is_fresh now e
    then (some e.0, ids)
    else (none, record ids { cache = Map.remove digest ids.cache })

unfoldable pub cached : Identities → Text → ℕ → Option Tenant × Identities
unfolding cached_entry
cached ids digest now = cached_entry ids digest now (Map.get digest ids.cache)

-- The locked section at the end of `resolve`; the clock is read at `swept` for the sweep, and again
-- at `now` for the entry.
unfoldable pub remember : Identities → Text → Tenant → ℕ → ℕ → Identities
remember ids digest tenant swept now =
    if leb max_cached (length ids.cache)
    then (let live = Map.retain (λ _ e. is_fresh swept e) ids.cache in
        record ids {
          cache =
              if ltb (length live) max_cached then Map.insert digest (tenant, now) live else live;
        })
    else record ids { cache = Map.insert digest (tenant, now) ids.cache }

-- The verdict on a token that no entry answers for.
unfoldable pub judge : Api → Identities → Text → Result Tenant
judge api ids token = do status ← review api ids token; tenant_of ids status

unfoldable pub conclude : Identities → Text → ℕ → ℕ → Result Tenant → Result Tenant × Identities
conclude ids digest swept now (err r) = (err r, ids)
conclude ids digest swept now (ok tenant) = (ok tenant, remember ids digest tenant swept now)

unfoldable pub answer : Api → Identities → Text → ℕ → ℕ → Option Tenant → Result Tenant × Identities
answer api ids token swept later (some hit) = (ok hit, ids)
answer api ids token swept later none =
    conclude ids (api.digest token) swept later (judge api ids token)

-- `now` is the clock at the cache lookup, `swept` when old entries are swept from a full cache, and
-- `later` when the verdict is stored.
unfoldable pub resolve : Api → Identities → Text → ℕ → ℕ → ℕ → Result Tenant × Identities
unfolding answer conclude
resolve api ids token now swept later =
    let (hit, ids') = cached ids (api.digest token) now in answer api ids' token swept later hit
