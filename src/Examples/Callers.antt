-- ===== src/Examples/Callers.antt =====
-- The identity legs, and the start of the broker.
use vaultr.Prelude.{ℕ, ◌-◌, ◌<◌, ◌≤◌, ◌≡◌, ◌↔◌, ◌⊎◌, refl, true, none, some, List, [], ◌∷◌, length}
use vaultr.Prelude.Map
use vaultr.Text.{chars, text_eq, strip_prefix, trim, is_whitespace, to_ascii_lowercase}
use vaultr.Broker.Result.{ok}
use vaultr.Broker.Tenant.{SocketAddr, v4, from_pod_name, from_label_source, is_loopback}
use vaultr.Broker.Kube
use vaultr.Broker.Kube.{
  Identities, Api, TokenReviewStatus, service_account_prefix, pod_name_extra, max_cached, cache_ttl,
  judge, review, read_token, tenant_of, pod_of,
}
use vaultr.Broker.Kube.Verdict.{NamesTenant, tenant_of_iff}
use vaultr.Broker.Kube.Cache.{Call, run_call, after, WasJudged}
use vaultr.Broker.Kube.History.{resolve_vouched, length-after-le}
use vaultr.Broker.Resolver
use vaultr.Broker.Resolver.{Resolver, Outside, OidcIdentity, resolve}
use vaultr.Broker.Resolver.Legs.{GrantedByAddress, resolve-subject_iff, resolve-GrantedByAddress}
use vaultr.Broker.Resolver.Vouched
use vaultr.Broker.Resolver.Vouched.{Asked, token_calls, resolve_token}
use vaultr.Broker.Resolver.Labels.{IsSound, resolve-IsSound}
use vaultr.Broker.Kube.Labels.{Labelled}
use vaultr.Broker.Config.{
  Environment, Started, start, build, configured_read_tenants, env, configured_oidc,
  configured_positive,
}
use vaultr.Broker.Seal.{is_label_char}
use vaultr.Broker.Config.Start.{IsWellStarted, start-IsWellStarted}
use vaultr.Examples.Seals.{athens, athens-IsLabel}

abbrev pod_status : TokenReviewStatus
pod_status = record {
  authenticated = true;
  audiences = chars "seal-broker" ∷ [];
  user = record {
    username = chars "system:serviceaccount:fleet:agent";
    extra = (pod_name_extra, chars "athens-1" ∷ []) ∷ [];
  };
}

abbrev pub fleet : Identities
fleet = record {
  token = chars "/token";
  audience = chars "seal-broker";
  namespace = chars "fleet";
  cache = [];
}

tenant_of_iff_example :
    (tenant_of fleet pod_status ≡ ok athens) ↔ NamesTenant fleet pod_status athens
tenant_of_iff_example = tenant_of_iff fleet pod_status athens

-- An API server that vouches for every token, and a digest that is the token itself.
abbrev pub kind_api : Api
kind_api = record {
  read_to_string = λ _. some (chars "ours");
  post = λ _ _ _. some (true, chars "{}");
  from_str = λ _. some pod_status;
  digest = λ token. token;
}

abbrev first_call : Call
first_call = record { api = kind_api; token = chars "t"; now = 5; swept = 6; later = 6 }

abbrev second_call : Call
second_call = record { api = kind_api; token = chars "t"; now = 7; swept = 8; later = 8 }

first_vouched : judge kind_api fleet (chars "t") ≡ ok athens
unfolding judge review read_token tenant_of pod_of text_eq strip_prefix trim is_whitespace
    from_pod_name from_label_source Map.get is_label_char to_ascii_lowercase
first_vouched = refl

second_answer : (run_call (after fleet (first_call ∷ [])) second_call).0 ≡ ok athens
unfolding Kube.resolve Kube.answer Kube.conclude Kube.cached Kube.cached_entry Kube.remember after
    judge review read_token tenant_of pod_of text_eq strip_prefix trim is_whitespace from_pod_name
    from_label_source Map.get Map.insert Map.remove is_label_char to_ascii_lowercase
second_answer = refl

resolve_vouched_example :
    (judge kind_api fleet (chars "t") ≡ ok athens)
    ⊎ ((at : ℕ) × WasJudged fleet (first_call ∷ []) (chars "t") athens at × (7 - at < cache_ttl))
resolve_vouched_example =
    resolve_vouched fleet refl (first_call ∷ []) second_call athens second_answer

length-after-le_example : length (after fleet (second_call ∷ first_call ∷ [])).cache ≤ max_cached
length-after-le_example = length-after-le fleet refl (second_call ∷ first_call ∷ [])

abbrev pub gateway_resolver : Resolver
gateway_resolver = record {
  socket = some (chars "/run/tailscaled.sock");
  oidc = some (record { expected_subject = chars "sub"; tenant = athens });
  kube = some fleet;
  dev_tenant = some athens;
  cache = [];
}

abbrev pub kind_outside : Outside
kind_outside = record {
  ask = λ _ _. some (true, chars "athens-1.ts.net");
  node_name = λ body. some body;
  api = kind_api;
  now = 5;
  swept = 6;
  later = 6;
}

abbrev pub home : SocketAddr
home = record { ip = v4 127 0 0 1; port = 4000 }

resolve-subject_iff_example :
    ((resolve kind_outside gateway_resolver home none (some (chars "sub"))).0 ≡ ok athens) ↔ (
      (o : OidcIdentity) × (gateway_resolver.oidc ≡ some o)
      × (o.expected_subject ≡ chars "sub")
      × (o.tenant ≡ athens))
resolve-subject_iff_example =
    resolve-subject_iff kind_outside gateway_resolver home none (chars "sub") athens

-- A token's caller, a caller behind the gateway, and the token again from elsewhere.
abbrev requests : List Asked
requests =
    record { outside = kind_outside; peer = home; bearer = none; subject = some (chars "sub") }
    ∷ record { outside = kind_outside; peer = home; bearer = some (chars "t"); subject = none }
    ∷ []

abbrev silent_outside : Outside
silent_outside = record kind_outside {
  api = record kind_api { post = λ _ _ _. none };
  now = 7;
  swept = 8;
  later = 9;
}

abbrev away : SocketAddr
away = record { ip = v4 100 64 0 9; port = 4001 }

token_granted :
    (resolve silent_outside
      (Vouched.after gateway_resolver requests)
      away
      (some (chars "t"))
      none).0
    ≡ ok athens
unfolding resolve Vouched.after Kube.resolve Kube.answer Kube.conclude Kube.cached Kube.cached_entry
    Kube.remember Resolver.token_leg Resolver.gateway_leg Resolver.resolve_subject judge review
    read_token tenant_of pod_of text_eq strip_prefix trim is_whitespace from_pod_name
    from_label_source Map.get Map.insert Map.remove is_label_char to_ascii_lowercase
token_granted = refl

resolve_token_example :
    ((status : TokenReviewStatus) × (review silent_outside.api fleet (chars "t") ≡ ok status)
      × NamesTenant fleet status athens)
    ⊎ ((at : ℕ) × WasJudged fleet (token_calls requests) (chars "t") athens at
        × (7 - at < cache_ttl))
resolve_token_example =
    resolve_token gateway_resolver fleet refl refl requests silent_outside away (chars "t") athens
      token_granted

home_granted : (resolve kind_outside gateway_resolver home none none).0 ≡ ok athens
unfolding resolve Resolver.address_leg Resolver.tailnet_leg is_loopback
home_granted = refl

resolve-GrantedByAddress_example : GrantedByAddress kind_outside gateway_resolver home athens
resolve-GrantedByAddress_example =
    resolve-GrantedByAddress kind_outside gateway_resolver home athens home_granted

pub gateway_resolver-IsSound : IsSound gateway_resolver
gateway_resolver-IsSound = record {
  oidc_label = athens-IsLabel;
  dev_label = athens-IsLabel;
  kube_labels = tt;
  cache_labels = tt;
}

resolve-IsSound_example :
    Labelled (resolve kind_outside gateway_resolver home none none).0
    × IsSound (resolve kind_outside gateway_resolver home none none).1
resolve-IsSound_example =
    resolve-IsSound kind_outside gateway_resolver home none none gateway_resolver-IsSound

abbrev no_variables : Environment
no_variables _ = none

abbrev plain_start : Started
plain_start = build no_variables (some fleet) [] none 6 540

starts : start no_variables (some fleet) ≡ ok plain_start
unfolding start configured_read_tenants env configured_oidc configured_positive
starts = refl

start-IsWellStarted_example : IsWellStarted plain_start
start-IsWellStarted_example = start-IsWellStarted no_variables (some fleet) plain_start tt starts
