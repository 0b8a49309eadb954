-- ===== src/Broker/Resolver/Legs.antt =====
-- Which leg answers, and that no leg falls back to another.
use vaultr.Prelude.{
  ℕ, ◌-◌, ◌<◌, ◌≡◌, ◌↔◌, refl, sym, ap, ◌∙◌, ◌⊎◌, inl, inr, true, false, Option, none, some, arith,
  Bool-cases,
}
use vaultr.Prelude.Map
use vaultr.Text.{Text, text_eq_iff}
use vaultr.Broker.Result.{Reason, Result, ok, err, not_tailnet_address}
use vaultr.Broker.Tenant.{Tenant, SocketAddr, ip_key, is_loopback, is_tailnet_addr}
use vaultr.Broker.Kube.{cache_ttl, is_fresh}
use vaultr.Broker.Resolver.{
  Resolver, Outside, OidcIdentity, gateway_leg, address_leg, tailnet_leg, by_address, remember,
  judge_peer, whois, cached, cached_entry, resolve,
}

-- A forwarded subject is accepted exactly if it is the one that the deployment binds, and then the
-- caller is the bound tenant, whatever bearer token, address and caches there are.
pub resolve-subject_iff :
    (out : Outside) (r : Resolver) (peer : SocketAddr) (bearer : Option Text) (subject : Text)
    (t : Tenant)
    → ((resolve out r peer bearer (some subject)).0 ≡ ok t)
      ↔ ((o : OidcIdentity) × (r.oidc ≡ some o) × (o.expected_subject ≡ subject) × (o.tenant ≡ t))
unfolding resolve
resolve-subject_iff out r peer bearer subject t = (accepted r.oidc, granted)
  where
    accepted :
        (oidc : Option OidcIdentity)
        → gateway_leg subject oidc ≡ ok t
        → (o : OidcIdentity) × (oidc ≡ some o) × (o.expected_subject ≡ subject) × (o.tenant ≡ t)
    accepted none h = cc
    accepted (some o) h =
        (o, refl, ground (arith, text_eq_iff subject o.expected_subject), ground arith)

    granted :
        (o : OidcIdentity) × (r.oidc ≡ some o) × (o.expected_subject ≡ subject) × (o.tenant ≡ t)
        → gateway_leg subject r.oidc ≡ ok t
    granted (o, e, s, n) = rw e (ground (arith, text_eq_iff subject o.expected_subject))

-- What a caller without subject and token is granted: the development tenant on loopback, or on
-- the tailnet a fresh cached answer or the node that tailscaled names now.
pub data GrantedByAddress (out : Outside) (r : Resolver) (peer : SocketAddr) (t : Tenant)
    : Type 0 where
  development : r.dev_tenant ≡ some t → is_loopback peer.ip ≡ true → GrantedByAddress out r peer t
  remembered :
      (socket : Text) (at : ℕ)
      → r.socket ≡ some socket
      → is_tailnet_addr peer.ip ≡ true
      → Map.get peer.ip r.cache ≡ some (t, at)
      → out.now - at < cache_ttl
      → GrantedByAddress out r peer t
  looked_up :
      (socket : Text)
      → r.socket ≡ some socket
      → is_tailnet_addr peer.ip ≡ true
      → judge_peer out r peer ≡ ok t
      → GrantedByAddress out r peer t

ok_injective : {t u : Tenant} → ◌≡◌ {A = Result Tenant} (ok t) (ok u) → t ≡ u
ok_injective e = cc

err-ne-ok : {e : Reason} {t : Tenant} → ◌≡◌ {A = Result Tenant} (err e) (ok t) → ⊥
err-ne-ok e = cc

module _ (out : Outside) (r : Resolver) (peer : SocketAddr) where
  -- What a lookup in the cache hands on, and how the lookup ends.
  abbrev pub Looked : Option Tenant × Resolver → Type 0
  Looked c =
      ((t : Tenant) × (at : ℕ) × (c.0 ≡ some t)
        × (Map.get peer.ip r.cache ≡ some (t, at))
        × (out.now - at < cache_ttl))
      ⊎ (c.0 ≡ none)

  cached-Looked : Looked (cached r peer.ip out.now)
  unfolding cached
  cached-Looked = by_entry (Map.get peer.ip r.cache) refl
    where
      by_entry :
          (o : Option (Tenant × ℕ))
          → Map.get peer.ip r.cache ≡ o
          → Looked (cached_entry r peer.ip out.now o)
      by_entry none e = inr refl
      by_entry (some (t, at)) e = elim (Bool-cases (is_fresh out.now (t, at))) [
        | inl fresh ↦ rw fresh (inl (t, at, refl, e, ground arith))
        | inr old ↦ rw old (inr refl)
      ]

  judge_peer-cached : judge_peer out (cached r peer.ip out.now).1 peer ≡ judge_peer out r peer
  unfolding cached judge_peer whois
  judge_peer-cached = by_entry (Map.get peer.ip r.cache)
    where
      by_entry :
          (o : Option (Tenant × ℕ))
          → judge_peer out (cached_entry r peer.ip out.now o).1 peer ≡ judge_peer out r peer
      by_entry none = refl
      by_entry (some e) = elim (Bool-cases (is_fresh out.now e)) [
        | inl fresh ↦ rw fresh refl
        | inr old ↦ rw old refl
      ]

  remember-answer : (q : Resolver) (j : Result Tenant) → (remember q peer.ip out.later j).0 ≡ j
  unfolding remember
  remember-answer q (ok t) = refl
  remember-answer q (err e) = refl

  tailnet_leg-inside :
      (socket : Text)
      → is_tailnet_addr peer.ip ≡ true
      → tailnet_leg out r peer (some socket)
        ≡ by_address out (cached r peer.ip out.now).1 peer (cached r peer.ip out.now).0
  unfolding tailnet_leg
  tailnet_leg-inside socket inside = rw inside

  tailnet_leg-outside :
      (socket : Text)
      → is_tailnet_addr peer.ip ≡ false
      → tailnet_leg out r peer (some socket) ≡ (err not_tailnet_address, r)
  unfolding tailnet_leg
  tailnet_leg-outside socket outside = rw outside

  by_address-answer :
      (c : Option Tenant × Resolver) (t : Tenant)
      → Looked c
      → (by_address out c.1 peer c.0).0 ≡ ok t
      → ((at : ℕ) × (Map.get peer.ip r.cache ≡ some (t, at)) × (out.now - at < cache_ttl))
        ⊎ (judge_peer out c.1 peer ≡ ok t)
  unfolding by_address
  by_address-answer (some u, q) t (inl (v, at, hit, g, fresh)) h =
      inl (at, g ∙ ap (λ w. some (w, at)) (same v hit), fresh)
    where
      same : (v : Tenant) → some u ≡ some v → v ≡ t
      same v hit = cc (hit, h)
  by_address-answer (some u, q) t (inr miss) h = cc
  by_address-answer (none, q) t l h = inr (sym (remember-answer q (judge_peer out q peer)) ∙ h)

  tailnet_granted :
      (t : Tenant) (socket : Option Text)
      → r.socket ≡ socket
      → (tailnet_leg out r peer socket).0 ≡ ok t
      → GrantedByAddress out r peer t
  unfolding tailnet_leg
  tailnet_granted t none e h = cc
  tailnet_granted t (some socket) e h = elim (Bool-cases (is_tailnet_addr peer.ip)) [
    | inl inside ↦
        elim (by_address-answer (cached r peer.ip out.now) t cached-Looked
          (sym (ap (λ q. q.0) (tailnet_leg-inside socket inside)) ∙ h)) [
            | inl (at, g, fresh) ↦ remembered socket at e inside g fresh
            | inr j ↦ looked_up socket e inside (sym judge_peer-cached ∙ j)
          ]
    | inr outside ↦ absurd (
        err-ne-ok {e = not_tailnet_address} {t = t}
          (sym (ap (λ q. q.0) (tailnet_leg-outside socket outside)) ∙ h))
  ]

  address_granted :
      (t : Tenant) (dev : Option Tenant)
      → r.dev_tenant ≡ dev
      → (address_leg out r peer dev).0 ≡ ok t
      → GrantedByAddress out r peer t
  unfolding address_leg
  address_granted t none e h = tailnet_granted t r.socket refl h
  address_granted t (some u) e h = elim (Bool-cases (is_loopback peer.ip)) [
    | inl loop ↦ development (e ∙ ap some (ok_injective (rw loop at h))) loop
    | inr remote ↦ tailnet_granted t r.socket refl (rw remote at h)
  ]

-- A caller with neither subject nor token is accepted only in these three ways: as the development
-- tenant from loopback, or with the tailnet leg on and from a tailnet address, as the node of a
-- cached answer younger than a minute or as the one that tailscaled names.
pub resolve-GrantedByAddress :
    (out : Outside) (r : Resolver) (peer : SocketAddr) (t : Tenant)
    → (resolve out r peer none none).0 ≡ ok t
    → GrantedByAddress out r peer t
unfolding resolve
resolve-GrantedByAddress out r peer t h = address_granted out r peer t r.dev_tenant refl h
