-- ===== src/Broker/Resolver/Vouched.antt =====
-- What a bearer token is granted behind any history of requests, whatever legs they took.
use vaultr.Prelude.{
  ℕ, ◌-◌, ◌<◌, ◌≡◌, refl, ◌∙◌, ◌⊎◌, inl, inr, Option, none, some, List, [], ◌∷◌, Bool-cases,
}
use vaultr.Prelude.Map
use vaultr.Text.{Text}
use vaultr.Broker.Result.{Result, ok, err, ◌>>=◌}
use vaultr.Broker.Tenant.{Tenant, SocketAddr, ip_key, is_loopback, is_tailnet_addr}
use vaultr.Broker.Kube.{
  Identities, TokenReviewStatus, cache_ttl, is_fresh, judge, review, tenant_of,
}
use vaultr.Broker.Kube.Cache.{Call, WasJudged}
use vaultr.Broker.Kube.Cache
use vaultr.Broker.Kube.Verdict.{NamesTenant, tenant_of_iff}
use vaultr.Broker.Kube.History.{resolve_vouched}
use vaultr.Broker.Resolver.{
  Resolver, Outside, token_leg, address_leg, tailnet_leg, by_address, remember, judge_peer, cached,
  cached_entry, resolve,
}

-- One request to be resolved.
pub record Asked : Type 0 where
  pub outside : Outside
  pub peer : SocketAddr
  pub bearer : Option Text
  pub subject : Option Text

-- The resolver behind a history of requests, the latest first.
unfoldable pub after : Resolver → List Asked → Resolver
after r [] = r
after r (q ∷ earlier) = (resolve q.outside (after r earlier) q.peer q.bearer q.subject).1

abbrev token_call : Outside → Text → Call
token_call out token = record {
  api = out.api;
  token = token;
  now = out.now;
  swept = out.swept;
  later = out.later;
}

abbrev push_call : Outside → Option Text → Option Text → List Call → List Call
push_call out (some token) none calls = token_call out token ∷ calls
push_call out _ _ calls = calls

-- The requests with a bearer token and no forwarded subject.
abbrev pub token_calls : List Asked → List Call
token_calls [] = []
token_calls (q ∷ earlier) = push_call q.outside q.bearer q.subject (token_calls earlier)

module _ (out : Outside) (r : Resolver) (peer : SocketAddr) where
  cached-kube : (cached r peer.ip out.now).1.kube ≡ r.kube
  unfolding cached
  cached-kube = by_entry (Map.get peer.ip r.cache)
    where
      by_entry : (o : Option (Tenant × ℕ)) → (cached_entry r peer.ip out.now o).1.kube ≡ r.kube
      by_entry none = refl
      by_entry (some e) = elim (Bool-cases (is_fresh out.now e)) [
        | inl fresh ↦ rw fresh refl
        | inr old ↦ rw old refl
      ]

  by_address-kube :
      (q : Resolver) (hit : Option Tenant) → (by_address out q peer hit).1.kube ≡ q.kube
  unfolding by_address
  by_address-kube q (some t) = refl
  by_address-kube q none = by_answer (judge_peer out q peer)
    where
      by_answer : (j : Result Tenant) → (remember q peer.ip out.later j).1.kube ≡ q.kube
      by_answer (ok t) = unfold remember in refl
      by_answer (err e) = unfold remember in refl

  tailnet_leg-kube : (socket : Option Text) → (tailnet_leg out r peer socket).1.kube ≡ r.kube
  unfolding tailnet_leg
  tailnet_leg-kube none = refl
  tailnet_leg-kube (some socket) = elim (Bool-cases (is_tailnet_addr peer.ip)) [
    | inl inside ↦
        rw inside
          (by_address-kube (cached r peer.ip out.now).1 (cached r peer.ip out.now).0 ∙ cached-kube)
    | inr outside ↦ rw outside refl
  ]

  address_leg-kube : (dev : Option Tenant) → (address_leg out r peer dev).1.kube ≡ r.kube
  unfolding address_leg
  address_leg-kube none = tailnet_leg-kube r.socket
  address_leg-kube (some t) = elim (Bool-cases (is_loopback peer.ip)) [
    | inl loop ↦ rw loop refl
    | inr remote ↦ rw remote (tailnet_leg-kube r.socket)
  ]

module _ (r : Resolver) (k : Identities) (configured : r.kube ≡ some k) where
  resolve-kube :
      (out : Outside) (s : Resolver) (peer : SocketAddr) (bearer subject : Option Text)
      (calls : List Call)
      → s.kube ≡ some (Cache.after k calls)
      → (resolve out s peer bearer subject).1.kube
        ≡ some (Cache.after k (push_call out bearer subject calls))
  unfolding resolve token_leg Cache.after
  resolve-kube out s peer none (some subject) calls h = h
  resolve-kube out s peer (some token) (some subject) calls h = h
  resolve-kube out s peer none none calls h = address_leg-kube out s peer s.dev_tenant ∙ h
  resolve-kube out s peer (some token) none calls h = rw h refl

  after-kube :
      (history : List Asked) → (after r history).kube ≡ some (Cache.after k (token_calls history))
  unfolding after
  after-kube [] = unfold Cache.after in configured
  after-kube (q ∷ earlier) =
      resolve-kube q.outside (after r earlier) q.peer q.bearer q.subject (token_calls earlier)
        (after-kube earlier)

  judge-NamesTenant :
      (out : Outside) (token : Text) (t : Tenant)
      → judge out.api k token ≡ ok t
      → (status : TokenReviewStatus) × (review out.api k token ≡ ok status) × NamesTenant k status t
  unfolding judge
  judge-NamesTenant out token t h = by_review (review out.api k token) h
    where
      by_review :
          (v : Result TokenReviewStatus)
          → (v >>= tenant_of k) ≡ ok t
          → (status : TokenReviewStatus) × (v ≡ ok status) × NamesTenant k status t
      by_review (ok status) h = (status, refl, (tenant_of_iff k status t).0 h)
      by_review (err e) h = cc

  -- With the TokenReview leg on, after any history of requests on all legs that began with an empty
  -- verdict cache, a caller with a token and no subject is granted a tenant, from whatever address,
  -- only if the API server's review of the token names that tenant now, or it named it less than a
  -- minute ago for an earlier token of the same digest.
  pub resolve_token :
      k.cache ≡ []
      → (history : List Asked) (out : Outside) (peer : SocketAddr) (token : Text) (t : Tenant)
      → (resolve out (after r history) peer (some token) none).0 ≡ ok t
      → ((status : TokenReviewStatus) × (review out.api k token ≡ ok status)
          × NamesTenant k status t)
        ⊎ ((at : ℕ) × WasJudged k (token_calls history) (out.api.digest token) t at
            × (out.now - at < cache_ttl))
  unfolding resolve token_leg
  resolve_token empty history out peer token t h =
      elim (resolve_vouched k empty (token_calls history) (token_call out token) t
        (rw (after-kube history) at h)) [
          | inl now ↦ inl (judge-NamesTenant out token t now)
          | inr before ↦ inr before
        ]
