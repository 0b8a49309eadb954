-- ===== src/Broker/Resolver/Labels.antt =====
-- Every caller that is named at all is named by a label.
use vaultr.Prelude.{ℕ, ◌≡◌, refl, inl, inr, true, Option, none, some, List, ◌∷◌, Bool-cases, All}
use vaultr.Prelude.Map
use vaultr.Text.{Text, text_eq}
use vaultr.Broker.Result.{Result, ok, err, context, ◌>>=◌, unusable_node_name}
use vaultr.Broker.Tenant.{
  Tenant, IpAddr, SocketAddr, ip_key, from_node_name, is_loopback, is_tailnet_addr,
}
use vaultr.Broker.Tenant.Label.{IsLabel, from_node_name-IsLabel}
use vaultr.Broker.Kube
use vaultr.Broker.Kube.{is_fresh}
use vaultr.Broker.Kube.Labels.{Labelled, CachesLabels, resolve-Labelled}
use vaultr.Broker.Resolver.{
  Resolver, Outside, OidcIdentity, gateway_leg, token_leg, address_leg, tailnet_leg, by_address,
  remember, judge_peer, whois, cached, cached_entry, resolve,
}

abbrev pub IfSome {ℓ} : {A : Type ℓ} → (A → Type 0) → Option A → Type 0
IfSome P none = Unit
IfSome P (some a) = P a

-- The configured names and the cached ones are labels, and only tailnet addresses are cached.
pub record IsSound (r : Resolver) : Type 0 where
  pub oidc_label : IfSome (λ o. IsLabel o.tenant) r.oidc
  pub dev_label : IfSome IsLabel r.dev_tenant
  pub kube_labels : IfSome CachesLabels r.kube
  pub cache_labels : All (λ e. (is_tailnet_addr e.0 ≡ true) × IsLabel e.1.0) r.cache

abbrev Sound : Result Tenant × Resolver → Type 0
Sound q = Labelled q.0 × IsSound q.1

record_cache :
    (r : Resolver) (m : List (IpAddr × (Tenant × ℕ)))
    → IsSound r
    → All (λ e. (is_tailnet_addr e.0 ≡ true) × IsLabel e.1.0) m
    → IsSound (record r { cache = m })
record_cache r m s h = record {
  oidc_label = s.oidc_label;
  dev_label = s.dev_label;
  kube_labels = s.kube_labels;
  cache_labels = h;
}

gateway-Labelled :
    (subject : Text) (o : Option OidcIdentity)
    → IfSome (λ o. IsLabel o.tenant) o
    → Labelled (gateway_leg subject o)
unfolding gateway_leg
gateway-Labelled subject none h = tt
gateway-Labelled subject (some o) h = elim (Bool-cases (text_eq subject o.expected_subject)) [
  | inl same ↦ rw same h
  | inr other ↦ rw other tt
]

token-Sound :
    (out : Outside) (r : Resolver) (token : Text) (k : Option Kube.Identities)
    → IsSound r
    → IfSome CachesLabels k
    → Sound (token_leg out r token k)
unfolding token_leg
token-Sound out r token none s h = (tt, s)
token-Sound out r token (some k) s h =
    let (l, c) = resolve-Labelled out.api k token out.now out.swept out.later h in
    (
      l,
      record {
        oidc_label = s.oidc_label;
        dev_label = s.dev_label;
        kube_labels = c;
        cache_labels = s.cache_labels;
      },
    )

judge_peer-Labelled :
    (out : Outside) (r : Resolver) (peer : SocketAddr) → Labelled (judge_peer out r peer)
unfolding judge_peer
judge_peer-Labelled out r peer = by_whois (whois out r peer)
  where
    by_name :
        (n : Text) (o : Option Tenant)
        → from_node_name n ≡ o
        → Labelled (context unusable_node_name o)
    by_name n none e = tt
    by_name n (some t) e = from_node_name-IsLabel n t e

    by_whois :
        (w : Result Text) → Labelled (◌>>=◌ w (λ n. context unusable_node_name (from_node_name n)))
    by_whois (err e) = tt
    by_whois (ok n) = by_name n (from_node_name n) refl

cached-Sound :
    (r : Resolver) (ip : IpAddr) (now : ℕ)
    → IsSound r
    → IfSome IsLabel (cached r ip now).0 × IsSound (cached r ip now).1
unfolding cached
cached-Sound r ip now s = by_entry (Map.get ip r.cache) refl
  where
    P : IpAddr × (Tenant × ℕ) → Type 0
    P e = (is_tailnet_addr e.0 ≡ true) × IsLabel e.1.0

    by_entry :
        (o : Option (Tenant × ℕ))
        → Map.get ip r.cache ≡ o
        → IfSome IsLabel (cached_entry r ip now o).0 × IsSound (cached_entry r ip now o).1
    by_entry none e = (tt, s)
    by_entry (some x) e = elim (Bool-cases (is_fresh now x)) [
      | inl fresh ↦ rw fresh ((Map.All-get P ip x r.cache s.cache_labels e).1, s)
      | inr old ↦ rw old (
        tt,
        record_cache r (Map.remove ip r.cache) s (Map.All-remove P ip r.cache s.cache_labels),
      )
    ]

remember-Sound :
    (r : Resolver) (ip : IpAddr) (now : ℕ) (j : Result Tenant)
    → is_tailnet_addr ip ≡ true
    → IsSound r
    → Labelled j
    → Sound (remember r ip now j)
unfolding remember Map.insert
remember-Sound r ip now (err e) inside s l = (tt, s)
remember-Sound r ip now (ok t) inside s l = (
  l,
  record_cache r ((ip, (t, now)) ∷ Map.remove ip r.cache) s (
    (inside, l),
    Map.All-remove (λ e. (is_tailnet_addr e.0 ≡ true) × IsLabel e.1.0) ip r.cache s.cache_labels,
  ),
)

by_address-Sound :
    (out : Outside) (peer : SocketAddr) (c : Option Tenant × Resolver)
    → is_tailnet_addr peer.ip ≡ true
    → IfSome IsLabel c.0 × IsSound c.1
    → Sound (by_address out c.1 peer c.0)
unfolding by_address
by_address-Sound out peer (some t, r) inside h = h
by_address-Sound out peer (none, r) inside h =
    remember-Sound r peer.ip out.later (judge_peer out r peer) inside h.1
      (judge_peer-Labelled out r peer)

tailnet-Sound :
    (out : Outside) (r : Resolver) (peer : SocketAddr) (o : Option Text)
    → IsSound r
    → Sound (tailnet_leg out r peer o)
unfolding tailnet_leg
tailnet-Sound out r peer none s = (tt, s)
tailnet-Sound out r peer (some socket) s = elim (Bool-cases (is_tailnet_addr peer.ip)) [
  | inl inside ↦ rw inside (
      by_address-Sound out peer (cached r peer.ip out.now) inside
        (cached-Sound r peer.ip out.now s))
  | inr outside ↦ rw outside (tt, s)
]

address-Sound :
    (out : Outside) (r : Resolver) (peer : SocketAddr) (dev : Option Tenant)
    → IsSound r
    → IfSome IsLabel dev
    → Sound (address_leg out r peer dev)
unfolding address_leg
address-Sound out r peer none s h = tailnet-Sound out r peer r.socket s
address-Sound out r peer (some t) s h = elim (Bool-cases (is_loopback peer.ip)) [
  | inl loop ↦ rw loop (h, s)
  | inr remote ↦ rw remote (tailnet-Sound out r peer r.socket s)
]

-- With labels configured and cached, every tenant that `resolve` names is a label, on every leg,
-- and the caches stay so: labels throughout, and none but tailnet addresses in the address cache.
pub resolve-IsSound :
    (out : Outside) (r : Resolver) (peer : SocketAddr) (bearer subject : Option Text)
    → IsSound r
    → Labelled (resolve out r peer bearer subject).0 × IsSound (resolve out r peer bearer subject).1
unfolding resolve
resolve-IsSound out r peer bearer (some subject) s =
    (gateway-Labelled subject r.oidc s.oidc_label, s)
resolve-IsSound out r peer (some token) none s = token-Sound out r token r.kube s s.kube_labels
resolve-IsSound out r peer none none s = address-Sound out r peer r.dev_tenant s s.dev_label
