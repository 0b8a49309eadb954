-- ===== src/Broker/Resolver.antt =====
-- `Resolver` of crates/broker/src/tenant.rs: which leg names a caller, and how.
pub mod Legs
pub mod Vouched
pub mod Labels
use vaultr.Prelude.{
  ℕ, ◌-◌, ◌≡◌, Bool, true, false, not, Option, none, some, List, [], ◌∷◌, if◌then◌else◌, is_empty,
}
use vaultr.Prelude.Map
use vaultr.Text.{Text, text_eq, trim}
use vaultr.Broker.Result.{
  Result, ok, err, ensure, context, ◌>>=◌, ◌>>◌, no_oidc_leg, subject_not_authorized, no_kube_leg,
  tailnet_disabled, not_tailnet_address, whois_failed, peer_unknown, unparsable_whois,
  nameless_node, unusable_node_name,
}
use vaultr.Broker.Tenant.{
  Tenant, IpAddr, SocketAddr, ip_key, from_node_name, is_loopback, is_tailnet_addr,
}
use vaultr.Broker.Kube
use vaultr.Broker.Kube.{is_fresh}

pub record OidcIdentity : Type 0 where
  pub expected_subject : Text
  pub tenant : Tenant

pub record Resolver : Type 0 where
  pub socket : Option Text
  pub oidc : Option OidcIdentity
  pub kube : Option Kube.Identities
  pub dev_tenant : Option Tenant
  pub cache : List (IpAddr × (Tenant × ℕ))

-- What lies outside: tailscaled behind its socket and hyper, serde_json, the API server, and the
-- clock, read at the cache lookup, when a full cache is swept, and when an answer is stored.
pub record Outside : Type 0 where
  -- GET /localapi/v0/whois?addr=<peer>: none if the exchange fails, else whether the status is a
  -- success, and the body.
  pub ask : Text → SocketAddr → Option (Bool × Text)
  -- `serde_json::from_slice`, the field Node.Name
  pub node_name : Text → Option Text
  pub api : Kube.Api
  pub now : ℕ
  pub swept : ℕ
  pub later : ℕ

unfoldable pub new : Option Text → Option Tenant → Resolver
new socket dev_tenant = record {
  socket = socket;
  oidc = none;
  kube = none;
  dev_tenant = dev_tenant;
  cache = [];
}

unfoldable pub with_oidc : Resolver → Option OidcIdentity → Resolver
with_oidc r oidc = record r { oidc = oidc }

unfoldable pub with_kube : Resolver → Option Kube.Identities → Resolver
with_kube r kube = record r { kube = kube }

-- OidcIdentity::resolve
unfoldable pub resolve_subject : OidcIdentity → Text → Result Tenant
resolve_subject o subject =
    if text_eq subject o.expected_subject then ok o.tenant else err subject_not_authorized

unfoldable pub parse_whois : Outside → Text → Result Text
parse_whois out body = do
  name ← context unparsable_whois (out.node_name body)
  ensure (not (is_empty (trim name))) nameless_node
  ok name

unfoldable pub whois : Outside → Resolver → SocketAddr → Result Text
whois out r peer = do
  socket ← context tailnet_disabled r.socket
  answer ← context whois_failed (out.ask socket peer)
  ensure answer.0 peer_unknown
  parse_whois out answer.1

unfoldable pub cached_entry : Resolver → IpAddr → ℕ → Option (Tenant × ℕ) → Option Tenant × Resolver
cached_entry r ip now none = (none, r)
cached_entry r ip now (some e) =
    if is_fresh now e then (some e.0, r) else (none, record r { cache = Map.remove ip r.cache })

unfoldable pub cached : Resolver → IpAddr → ℕ → Option Tenant × Resolver
unfolding cached_entry
cached r ip now = cached_entry r ip now (Map.get ip r.cache)

unfoldable pub judge_peer : Outside → Resolver → SocketAddr → Result Tenant
judge_peer out r peer = do node ← whois out r peer; context unusable_node_name (from_node_name node)

unfoldable pub remember : Resolver → IpAddr → ℕ → Result Tenant → Result Tenant × Resolver
remember r ip now (err e) = (err e, r)
remember r ip now (ok t) = (ok t, record r { cache = Map.insert ip (t, now) r.cache })

unfoldable pub by_address :
    Outside → Resolver → SocketAddr → Option Tenant → Result Tenant × Resolver
unfolding remember
by_address out r peer (some hit) = (ok hit, r)
by_address out r peer none = remember r peer.ip out.later (judge_peer out r peer)

-- The third leg, behind the test for a socket.
unfoldable pub tailnet_leg :
    Outside → Resolver → SocketAddr → Option Text → Result Tenant × Resolver
unfolding by_address
tailnet_leg out r peer none = (err tailnet_disabled, r)
tailnet_leg out r peer (some socket) =
    if is_tailnet_addr peer.ip
    then (let (hit, r') = cached r peer.ip out.now in by_address out r' peer hit)
    else (err not_tailnet_address, r)

unfoldable pub address_leg :
    Outside → Resolver → SocketAddr → Option Tenant → Result Tenant × Resolver
unfolding tailnet_leg
address_leg out r peer none = tailnet_leg out r peer r.socket
address_leg out r peer (some tenant) =
    if is_loopback peer.ip then (ok tenant, r) else tailnet_leg out r peer r.socket

unfoldable pub token_leg :
    Outside → Resolver → Text → Option Kube.Identities → Result Tenant × Resolver
token_leg out r token none = (err no_kube_leg, r)
token_leg out r token (some kube) =
    let (answer, kube') = Kube.resolve out.api kube token out.now out.swept out.later in
    (answer, record r { kube = some kube' })

unfoldable pub gateway_leg : Text → Option OidcIdentity → Result Tenant
unfolding resolve_subject
gateway_leg subject none = err no_oidc_leg
gateway_leg subject (some oidc) = resolve_subject oidc subject

-- `resolve`: a forwarded subject selects the gateway leg, else a bearer token the TokenReview leg,
-- else the caller is judged by its address.
unfoldable pub resolve :
    Outside → Resolver → SocketAddr → Option Text → Option Text → Result Tenant × Resolver
unfolding gateway_leg token_leg address_leg
resolve out r peer bearer (some subject) = (gateway_leg subject r.oidc, r)
resolve out r peer (some token) none = token_leg out r token r.kube
resolve out r peer none none = address_leg out r peer r.dev_tenant
