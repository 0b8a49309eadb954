-- ===== src/Broker/Config/Start.antt =====
-- A broker that starts has sound names and positive limits.
use vaultr.Prelude.{
  ℕ, zero, suc, subst, ◌<◌, ◌≡◌, refl, Bool, true, false, not, Option, none, some, List, [], ◌∷◌,
  arith, All, map, ◌==◌, is_empty,
}
use vaultr.Text.{Text, chars, trim, split, parse_u64}
use vaultr.Broker.Result.{
  Reason, Result, ok, err, ensure, context, ◌>>=◌, ◌>>◌, bad_process_limit, bad_drain_timeout,
  empty_read_tenant, unusable_read_tenant, unusable_oidc_tenant,
}
use vaultr.Broker.Tenant.{Tenant, from_node_name}
use vaultr.Broker.Tenant.Label.{IsLabel, from_node_name-IsLabel}
use vaultr.Broker.Kube
use vaultr.Broker.Kube.Labels.{CachesLabels}
use vaultr.Broker.Resolver
use vaultr.Broker.Resolver.{OidcIdentity}
use vaultr.Broker.Resolver.Labels.{IsSound, IfSome}
use vaultr.Broker.Config.{
  Environment, Started, env, read_tenant, collect_tenants, configured_read_tenants, configured_oidc,
  configured_positive, name_option, build, start,
}

-- What holds of a result that is there.
abbrev Yields {ℓ} : {A : Type ℓ} → (A → Type 0) → Result A → Type 0
Yields P (ok a) = P a
Yields P (err r) = Unit

Yields-bind {ℓ κ} :
    {A : Type ℓ} {B : Type κ} (P : A → Type 0) (Q : B → Type 0) (m : Result A) (f : A → Result B)
    → Yields P m
    → ((a : A) → P a → Yields Q (f a))
    → Yields Q (m >>= f)
Yields-bind P Q (ok a) f h k = k a h
Yields-bind P Q (err r) f h k = tt

node-labels :
    (reason : Reason) (name : Text) → Yields IsLabel (context reason (from_node_name name))
node-labels reason name = by_name (from_node_name name) refl
  where
    by_name : (o : Option Tenant) → from_node_name name ≡ o → Yields IsLabel (context reason o)
    by_name none e = tt
    by_name (some t) e = from_node_name-IsLabel name t e

read_tenant-labels : (name : Text) → Yields IsLabel (read_tenant name)
unfolding read_tenant
read_tenant-labels name = by_test (not (is_empty name))
  where
    by_test :
        (t : Bool)
        → Yields IsLabel
            (ensure t empty_read_tenant >> context unusable_read_tenant (from_node_name name))
    by_test true = node-labels unusable_read_tenant name
    by_test false = tt

collect-labels : (names : List Text) → Yields (All IsLabel) (collect_tenants names)
unfolding collect_tenants
collect-labels [] = tt
collect-labels (n ∷ names) =
    Yields-bind IsLabel (All IsLabel) (read_tenant n) _ (read_tenant-labels n)
      (add (collect_tenants names) (collect-labels names))
  where
    add :
        (r : Result (List Tenant))
        → Yields (All IsLabel) r
        → (t : Tenant) → IsLabel t
        → Yields (All IsLabel) (r >>= λ ts. ok (t ∷ ts))
    add (ok ts) h t l = (l, h)
    add (err e) h t l = tt

read_tenants-labels : (o : Option Text) → Yields (All IsLabel) (configured_read_tenants o)
unfolding configured_read_tenants
read_tenants-labels none = tt
read_tenants-labels (some value) = collect-labels (map trim (split b',' value))

oidc-labels : (s n : Option Text) → Yields (IfSome (λ o. IsLabel o.tenant)) (configured_oidc s n)
unfolding configured_oidc
oidc-labels none none = tt
oidc-labels (some subject) (some name) =
    Yields-bind IsLabel (IfSome (λ o. IsLabel o.tenant))
      (context unusable_oidc_tenant (from_node_name name)) _ (node-labels unusable_oidc_tenant name)
      (λ t l. l)
oidc-labels none (some name) = tt
oidc-labels (some subject) none = tt

positive :
    (reason : Reason) (default : ℕ) (o : Option Text)
    → 0 < default
    → Yields (λ n. 0 < n) (configured_positive reason default o)
unfolding configured_positive
positive reason default none h = h
positive reason default (some value) h = by_number (parse_u64 value)
  where
    by_number :
        (o : Option ℕ)
        → Yields (λ n. 0 < n) (context reason o >>= λ n. ensure (not (n == 0)) reason >> ok n)
    by_number none = tt
    by_number (some zero) = tt
    by_number (some (suc n)) = ground arith

name_option-IsLabel : (o : Option Text) → IfSome IsLabel (name_option o)
name_option-IsLabel none = tt
name_option-IsLabel (some name) = by_name (from_node_name name) refl
  where
    by_name : (o : Option Tenant) → from_node_name name ≡ o → IfSome IsLabel o
    by_name none e = tt
    by_name (some t) e = from_node_name-IsLabel name t e

abbrev pub IsWellStarted : Started → Type 0
IsWellStarted s =
    IsSound s.broker.resolver
    × All IsLabel s.broker.read_tenants
    × (0 < s.max_aws_processes)
    × (0 < s.drain_timeout)

start-Yields :
    (vars : Environment) (kube : Option Kube.Identities)
    → IfSome CachesLabels kube
    → Yields IsWellStarted (start vars kube)
unfolding start build Resolver.new Resolver.with_oidc Resolver.with_kube
start-Yields vars kube k =
    Yields-bind (All IsLabel) IsWellStarted _ _
      (read_tenants-labels (env vars (chars "SEAL_BROKER_READ_TENANTS")))
      λ ts lts.
        Yields-bind (IfSome (λ o. IsLabel o.tenant)) IsWellStarted _ _
          (oidc-labels (env vars (chars "SEAL_BROKER_OIDC_SUBJECT"))
            (env vars (chars "SEAL_BROKER_OIDC_TENANT")))
          λ o lo.
            Yields-bind (λ n. 0 < n) IsWellStarted _ _
              (positive bad_process_limit 6 (env vars (chars "SEAL_BROKER_MAX_AWS_PROCESSES"))
                (omega arith))
              λ m lm.
                Yields-bind (λ n. 0 < n) IsWellStarted _ _
                  (positive bad_drain_timeout 540 (env vars (chars "SEAL_BROKER_DRAIN_TIMEOUT"))
                    (omega arith))
                  λ d ld. (
                    record {
                      oidc_label = lo;
                      dev_label = name_option-IsLabel (env vars (chars "SEAL_BROKER_DEV_TENANT"));
                      kube_labels = k;
                      cache_labels = tt;
                    },
                    lts,
                    lm,
                    ld,
                  )

-- If the verdicts that the TokenReview leg starts with are of labels, a broker that starts has
-- labels for all tenants of its configuration and its caches, none but tailnet addresses in the
-- address cache, and positive limits on processes and on the drain.
pub start-IsWellStarted :
    (vars : Environment) (kube : Option Kube.Identities) (s : Started)
    → IfSome CachesLabels kube
    → start vars kube ≡ ok s
    → IsWellStarted s
start-IsWellStarted vars kube s k h =
    subst (λ (r : Result Started). Yields IsWellStarted r) h (start-Yields vars kube k)
