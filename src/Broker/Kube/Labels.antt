-- ===== src/Broker/Kube/Labels.antt =====
-- The tenants of the TokenReview leg are labels.
use vaultr.Prelude.{ℕ, ◌≡◌, sym, subst, inl, inr, All}
use vaultr.Prelude.Map
use vaultr.Text.{Text, text_key}
use vaultr.Broker.Result.{Result, ok, err, ◌>>=◌}
use vaultr.Broker.Tenant.{Tenant}
use vaultr.Broker.Tenant.Label.{IsLabel, from_pod_name-IsLabel}
use vaultr.Broker.Kube.{Identities, Api, TokenReviewStatus, judge, review, tenant_of, resolve}
use vaultr.Broker.Kube.Verdict.{tenant_of_iff}
use vaultr.Broker.Kube.Cache.{resolve-cases}
use vaultr.Broker.Kube.History.{cached-All, remember-All, cached-fresh}

-- The result, if there is one, is a label.
abbrev pub Labelled : Result Tenant → Type 0
Labelled (ok t) = IsLabel t
Labelled (err r) = Unit

abbrev pub CachesLabels : Identities → Type 0
CachesLabels ids = All (λ e. IsLabel e.1.0) ids.cache

tenant_of-Labelled :
    (ids : Identities) (status : TokenReviewStatus) (t : Tenant)
    → tenant_of ids status ≡ ok t
    → IsLabel t
tenant_of-Labelled ids status t h =
    let n = (tenant_of_iff ids status t).0 h in from_pod_name-IsLabel n.pod t n.named

judge-IsLabel :
    (api : Api) (ids : Identities) (token : Text) (t : Tenant)
    → judge api ids token ≡ ok t
    → IsLabel t
unfolding judge
judge-IsLabel api ids token t h = by_review (review api ids token) h
  where
    by_review : (r : Result TokenReviewStatus) → (◌>>=◌ r (tenant_of ids)) ≡ ok t → IsLabel t
    by_review (ok s) h = tenant_of-Labelled ids s t h
    by_review (err e) h = cc

-- From a cache of labels the answer is a label, and the cache stays one of labels.
pub resolve-Labelled :
    (api : Api) (ids : Identities) (token : Text) (now swept later : ℕ)
    → CachesLabels ids
    → Labelled (resolve api ids token now swept later).0
      × CachesLabels (resolve api ids token now swept later).1
resolve-Labelled api ids token now swept later sound =
    let d = api.digest token in
    let P : Text × (Tenant × ℕ) → Type 0 = λ e. IsLabel e.1.0 in
    let kept = cached-All P ids d now sound in
    elim (resolve-cases api ids token now swept later) [
      | inl (t, hit, e) ↦
          let (at, g, fresh) = cached-fresh ids d now t hit in
          back e (Map.All-get P d (t, at) ids.cache sound g, kept)
      | inr (miss, inl (t, j, e)) ↦
          let l = judge-IsLabel api _ token t j in
          back e (l, remember-All P _ d t swept later l kept)
      | inr (miss, inr (r, j, e)) ↦ back e (tt, kept)
    ]
  where
    back :
        {r : Result Tenant × Identities}
        → resolve api ids token now swept later ≡ r
        → Labelled r.0 × CachesLabels r.1
        → Labelled (resolve api ids token now swept later).0
          × CachesLabels (resolve api ids token now swept later).1
    back e = subst (λ (r : Result Tenant × Identities). Labelled r.0 × CachesLabels r.1) (sym e)
