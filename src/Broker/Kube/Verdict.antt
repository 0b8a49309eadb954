-- ===== src/Broker/Kube/Verdict.antt =====
-- Which verdicts of the API server name a tenant, and which tenant.
use vaultr.Prelude.{
  ◌≡◌, ◌↔◌, true, false, not, Option, none, some, List, [], ◌∷◌, ◌++◌, arith, any, is_empty,
}
use vaultr.Prelude.Map
use vaultr.Text.{Text, text_eq, trim, strip_prefix, text_key}
use vaultr.Text.Prefix.{strip_prefix-append, append_of_strip_prefix}
use vaultr.Broker.Result.{ok, context, unusable_pod_name, ensure-eq-ok, context-eq-ok}
use vaultr.Broker.Tenant.{Tenant, from_pod_name}
use vaultr.Broker.Kube.{
  Identities, TokenReviewStatus, first, filter_some, and_then, pod_name_extra,
  service_account_prefix, pod_of, tenant_of,
}

-- The verdict is positive, for our audience, on a ServiceAccount of our namespace, and bound to a
-- pod whose name is not blank and reduces to this tenant.
pub record NamesTenant (ids : Identities) (status : TokenReviewStatus) (t : Tenant) : Type 0 where
  pub authenticated : status.authenticated ≡ true
  pub for_us : any (λ a. text_eq a ids.audience) status.audiences ≡ true
  pub service_account : Text
  pub in_namespace : status.user.username ≡ service_account_prefix ids.namespace ++ service_account
  pub pod : Text
  pub others : List Text
  pub bound : Map.get pod_name_extra status.user.extra ≡ some (pod ∷ others)
  pub not_blank : is_empty (trim pod) ≡ false
  pub named : from_pod_name pod ≡ some t

pod_of_bound :
    (o : Option (List Text)) (pod : Text)
    → filter_some (λ p. not (is_empty (trim p))) (and_then first o) ≡ some pod
    → (others : List Text) × (o ≡ some (pod ∷ others)) × (is_empty (trim pod) ≡ false)
pod_of_bound none pod h = cc
pod_of_bound (some []) pod h = cc
pod_of_bound (some (p ∷ ps)) pod h = (ps, ground arith, ground arith)

last_context : (o : Option Tenant) (t : Tenant) → context unusable_pod_name o ≡ ok t → o ≡ some t
last_context none t h = cc
last_context (some u) t h = ground arith

names_of_ok :
    (ids : Identities) (status : TokenReviewStatus) (t : Tenant)
    → tenant_of ids status ≡ ok t
    → NamesTenant ids status t
unfolding tenant_of pod_of
names_of_ok ids status t h =
    let (a, h1) = ensure-eq-ok status.authenticated _ _ h in
    let (b, h2) = ensure-eq-ok (any (λ a. text_eq a ids.audience) status.audiences) _ _ h1 in
    let (sa, c, h3) =
      context-eq-ok _ (strip_prefix (service_account_prefix ids.namespace) status.user.username) _
        h2 in
    let (pod, d, h4) =
      context-eq-ok _
        (filter_some (λ p. not (is_empty (trim p)))
          (and_then first (Map.get pod_name_extra status.user.extra)))
        _ h3 in
    let (others, e, blank) = pod_of_bound (Map.get pod_name_extra status.user.extra) pod d in
    record {
      authenticated = a;
      for_us = b;
      service_account = sa;
      in_namespace =
          append_of_strip_prefix (service_account_prefix ids.namespace) status.user.username sa c;
      pod = pod;
      others = others;
      bound = e;
      not_blank = blank;
      named = last_context (from_pod_name pod) t h4;
    }

ok_of_names :
    (ids : Identities) (status : TokenReviewStatus) (t : Tenant)
    → NamesTenant ids status t
    → tenant_of ids status ≡ ok t
unfolding tenant_of pod_of
ok_of_names ids status t n = rw (
  n.authenticated,
  n.for_us,
  n.in_namespace,
  strip_prefix-append (service_account_prefix ids.namespace) n.service_account,
  n.bound,
  n.not_blank,
  n.named,
)

-- A verdict yields a tenant exactly when it is authenticated, lists our audience, is on a service
-- account of our namespace, and is bound to a pod whose name is not blank and names that tenant.
pub tenant_of_iff :
    (ids : Identities) (status : TokenReviewStatus) (t : Tenant)
    → (tenant_of ids status ≡ ok t) ↔ NamesTenant ids status t
tenant_of_iff ids status t = (names_of_ok ids status t, ok_of_names ids status t)
