-- ===== src/Broker/Config.antt =====
-- What `main` of crates/broker/src/main.rs reads from the environment, and the broker that it builds.
-- The listen addresses, the spool directory and the start-up log are not modelled.
pub mod Start
use vaultr.Prelude.{
  ℕ, Bool, true, false, not, Option, none, some, List, [], ◌∷◌, map, ◌==◌, filter, is_empty,
  if◌then◌else◌,
}
use vaultr.Text.{Text, chars, trim, split, parse_u64}
use vaultr.Broker.Result.{
  Reason, Result, ok, err, ensure, context, ◌>>=◌, ◌>>◌, empty_read_tenant, unusable_read_tenant,
  unusable_oidc_tenant, oidc_half_configured, bad_process_limit, bad_drain_timeout,
}
use vaultr.Broker.Tenant.{Tenant, from_node_name}
use vaultr.Broker.Seal.{default_policy}
use vaultr.Broker.Resolver
use vaultr.Broker.Resolver.{OidcIdentity}
use vaultr.Broker.Kube
use vaultr.Broker.Store.{max_object_bytes}
use vaultr.Broker.Metrics
use vaultr.Broker.Server.{Broker}

-- `std::env::var(key).ok()`
abbrev pub Environment : Type 0
Environment = Text → Option Text

abbrev pub nonempty_trimmed : Option Text → Option Text
nonempty_trimmed none = none
nonempty_trimmed (some v) = if is_empty (trim v) then none else some (trim v)

unfoldable pub env : Environment → Text → Option Text
env vars key = nonempty_trimmed (vars key)

-- The closures of `configured_read_tenants`; the set is a list.
unfoldable pub read_tenant : Text → Result Tenant
read_tenant name = do
  ensure (not (is_empty name)) empty_read_tenant
  context unusable_read_tenant (from_node_name name)

unfoldable pub collect_tenants : List Text → Result (List Tenant)
collect_tenants [] = ok []
collect_tenants (name ∷ names) = do
  tenant ← read_tenant name
  tenants ← collect_tenants names
  ok (tenant ∷ tenants)

unfoldable pub configured_read_tenants : Option Text → Result (List Tenant)
configured_read_tenants none = ok []
configured_read_tenants (some value) = collect_tenants (map trim (split b',' value))

unfoldable pub configured_oidc : Option Text → Option Text → Result (Option OidcIdentity)
configured_oidc none none = ok none
configured_oidc (some subject) (some name) = do
  tenant ← context unusable_oidc_tenant (from_node_name name)
  ok (some (record { expected_subject = subject; tenant = tenant }))
configured_oidc _ _ = err oidc_half_configured

unfoldable pub configured_seal_files : Option Text → List Text
configured_seal_files none = default_policy.seal_files
configured_seal_files (some value) = filter (λ s. not (is_empty s)) (map trim (split b',' value))

-- A positive integer, or the default.
unfoldable pub configured_positive : Reason → ℕ → Option Text → Result ℕ
configured_positive reason default none = ok default
configured_positive reason default (some value) = do
  n ← context reason (parse_u64 value)
  ensure (not (n == 0)) reason
  ok n

abbrev pub parsed_or : ℕ → Option ℕ → ℕ
parsed_or default none = default
parsed_or default (some n) = n

abbrev pub parse_option : Option Text → Option ℕ
parse_option none = none
parse_option (some value) = parse_u64 value

abbrev pub text_or : Text → Option Text → Text
text_or default none = default
text_or default (some value) = value

abbrev pub name_option : Option Text → Option Tenant
name_option none = none
name_option (some name) = from_node_name name

pub record Started : Type 0 where
  pub broker : Broker
  pub max_aws_processes : ℕ
  -- in seconds
  pub drain_timeout : ℕ

-- The broker of `main`, from what was read; `kube` is the TokenReview leg, if the cluster's files
-- are there.
unfoldable pub build :
    Environment → Option Kube.Identities → List Tenant → Option OidcIdentity → ℕ → ℕ → Started
build vars kube read_tenants oidc max_aws_processes drain_timeout = record {
  broker = record {
    bucket = text_or (chars "pantheon-vault-seals-athens") (env vars (chars "SEAL_BROKER_BUCKET"));
    resolver =
        Resolver.with_kube
          (Resolver.with_oidc
            (Resolver.new (env vars (chars "SEAL_BROKER_TAILSCALE_SOCKET"))
              (name_option (env vars (chars "SEAL_BROKER_DEV_TENANT"))))
            oidc)
          kube;
    metrics = Metrics.new;
    keys = record {
      seal_files = configured_seal_files (env vars (chars "SEAL_BROKER_SEAL_FILES"));
    };
    read_tenants = read_tenants;
    max_object_bytes =
        parsed_or max_object_bytes (parse_option (env vars (chars "SEAL_BROKER_MAX_OBJECT_BYTES")));
    listing = none;
  };
  max_aws_processes = max_aws_processes;
  drain_timeout = drain_timeout;
}

unfoldable pub start : Environment → Option Kube.Identities → Result Started
start vars kube = do
  read_tenants ← configured_read_tenants (env vars (chars "SEAL_BROKER_READ_TENANTS"))
  oidc ←
      configured_oidc (env vars (chars "SEAL_BROKER_OIDC_SUBJECT"))
        (env vars (chars "SEAL_BROKER_OIDC_TENANT"))
  max_aws_processes ←
      configured_positive bad_process_limit 6 (env vars (chars "SEAL_BROKER_MAX_AWS_PROCESSES"))
  drain_timeout ←
      configured_positive bad_drain_timeout 540 (env vars (chars "SEAL_BROKER_DRAIN_TIMEOUT"))
  ok (build vars kube read_tenants oidc max_aws_processes drain_timeout)
