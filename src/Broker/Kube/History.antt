-- ===== src/Broker/Kube/History.antt =====
-- What the verdict cache answers: only verdicts of the last minute.
use vaultr.Prelude.{
  ℕ, ◌-◌, ◌≤◌, ◌<◌, ◌≡◌, refl, sym, ap, ◌∙◌, subst, ◌⊎◌, inl, inr, Option, none, some, List, [],
  ◌∷◌, arith, ltb, leb, length, All, Bool-cases,
}
use vaultr.Prelude.Map
use vaultr.Text.{Text, text_key}
use vaultr.Broker.Result.{Reason, Result, ok, err}
use vaultr.Broker.Tenant.{Tenant}
use vaultr.Broker.Kube.{
  Identities, Api, cache_ttl, max_cached, is_fresh, cached, cached_entry, remember, judge,
}
use vaultr.Broker.Kube.Cache.{
  SameConfig, cached-SameConfig, judge-SameConfig, resolve-cases, resolve-SameConfig,
  length-resolve-le, Call, run_call, after, WasJudged,
}

All-mono {ℓ} :
    {A : Type ℓ} {P Q : A → Type 0} (f : (a : A) → P a → Q a) (xs : List A) → All P xs → All Q xs
All-mono f [] h = tt
All-mono f (x ∷ xs) h = (f x h.0, All-mono f xs h.1)

module _ (P : Text × (Tenant × ℕ) → Type 0) (ids : Identities) where
  pub cached-All : (d : Text) (now : ℕ) → All P ids.cache → All P (cached ids d now).1.cache
  unfolding cached
  cached-All d now h = by_entry (Map.get d ids.cache)
    where
      by_entry : (o : Option (Tenant × ℕ)) → All P (cached_entry ids d now o).1.cache
      by_entry none = h
      by_entry (some e) = elim (Bool-cases (is_fresh now e)) [
        | inl fresh ↦ rw fresh h
        | inr old ↦ rw old (Map.All-remove P d ids.cache h)
      ]

  pub remember-All :
      (d : Text) (t : Tenant) (swept now : ℕ)
      → P (d, (t, now))
      → All P ids.cache
      → All P (remember ids d t swept now).cache
  unfolding remember Map.insert
  remember-All d t swept now p h =
      let live = Map.retain (λ _ e. is_fresh swept e) ids.cache in
      let l = Map.All-retain P (λ _ e. is_fresh swept e) ids.cache h in
      elim (Bool-cases (leb max_cached (length ids.cache))) [
        | inl full ↦ rw full (elim (Bool-cases (ltb (length live) max_cached)) [
          | inl room ↦ rw room (p, Map.All-remove P d live l)
          | inr no_room ↦ rw no_room l
        ])
        | inr room ↦ rw room (p, Map.All-remove P d ids.cache h)
      ]

pub cached-fresh :
    (ids : Identities) (d : Text) (now : ℕ) (t : Tenant)
    → (cached ids d now).0 ≡ some t
    → (at : ℕ) × (Map.get d ids.cache ≡ some (t, at)) × (now - at < cache_ttl)
unfolding cached
cached-fresh ids d now t h = by_entry (Map.get d ids.cache) h
  where
    by_entry :
        (o : Option (Tenant × ℕ))
        → (cached_entry ids d now o).0 ≡ some t
        → (at : ℕ) × (o ≡ some (t, at)) × (now - at < cache_ttl)
    by_entry none e = cc
    by_entry (some (u, at)) e = elim (Bool-cases (ltb (now - at) cache_ttl)) [
      | inl fresh ↦ (at, ap (λ v. some (v, at)) (same (rw fresh at e)), ground arith)
      | inr old ↦ absurd (never (rw old at e))
    ]
      where
        same : some u ≡ some t → u ≡ t
        same q = cc

        never : none ≡ some t → ⊥
        never q = cc

after-SameConfig : (ids : Identities) (history : List Call) → SameConfig (after ids history) ids
unfolding after
after-SameConfig ids [] = record { token = refl; audience = refl; namespace = refl }
after-SameConfig ids (c ∷ earlier) =
    chain (resolve-SameConfig c.api (after ids earlier) c.token c.now c.swept c.later)
      (after-SameConfig ids earlier)
  where
    chain : {a b c : Identities} → SameConfig a b → SameConfig b c → SameConfig a c
    chain h k = record {
      token = h.token ∙ k.token;
      audience = h.audience ∙ k.audience;
      namespace = h.namespace ∙ k.namespace;
    }

judge-cached :
    (api : Api) (ids now_ids : Identities) (token : Text) (now : ℕ)
    → SameConfig now_ids ids
    → judge api (cached now_ids (api.digest token) now).1 token ≡ judge api ids token
judge-cached api ids now_ids token now s =
    judge-SameConfig api _ now_ids token (cached-SameConfig now_ids (api.digest token) now)
    ∙ judge-SameConfig api now_ids ids token s

abbrev Recorded : Identities → List Call → Text × (Tenant × ℕ) → Type 0
Recorded ids history e = WasJudged ids history e.0 e.1.0 e.1.1

entries-Recorded :
    (ids : Identities)
    → ids.cache ≡ []
    → (history : List Call) → All (Recorded ids history) (after ids history).cache
unfolding after
entries-Recorded ids empty [] = rw empty tt
entries-Recorded ids empty (c ∷ earlier) =
    let s = after ids earlier in
    let d = c.api.digest c.token in
    let old = All-mono (λ e w. inr w) s.cache (entries-Recorded ids empty earlier) in
    let P : Text × (Tenant × ℕ) → Type 0 = Recorded ids (c ∷ earlier) in
    elim (resolve-cases c.api s c.token c.now c.swept c.later) [
      | inl (t, hit, e) ↦ back e (cached-All P s d c.now old)
      | inr (miss, inl (t, j, e)) ↦ back e (
          remember-All P (cached s d c.now).1 d t c.swept c.later
            (inl (
              refl,
              sym (judge-cached c.api ids s c.token c.now (after-SameConfig ids earlier)) ∙ j,
              refl,
            ))
            (cached-All P s d c.now old))
      | inr (miss, inr (r, j, e)) ↦ back e (cached-All P s d c.now old)
    ]
  where
    back :
        {r : Result Tenant × Identities}
        → run_call (after ids earlier) c ≡ r
        → All (Recorded ids (c ∷ earlier)) r.1.cache
        → All (Recorded ids (c ∷ earlier)) (run_call (after ids earlier) c).1.cache
    back e =
        subst (λ (r : Result Tenant × Identities). All (Recorded ids (c ∷ earlier)) r.1.cache)
          (sym e)

-- After any history of calls that began with an empty cache, a token is resolved to a tenant only
-- if the API server names that tenant now, or did so within the last minute in a call of the
-- history whose token has the same digest.
pub resolve_vouched :
    (ids : Identities)
    → ids.cache ≡ []
    → (history : List Call) (c : Call) (t : Tenant) → (run_call (after ids history) c).0 ≡ ok t
    → (judge c.api ids c.token ≡ ok t)
      ⊎ ((at : ℕ) × WasJudged ids history (c.api.digest c.token) t at × (c.now - at < cache_ttl))
resolve_vouched ids empty history c t h =
    let s = after ids history in
    let d = c.api.digest c.token in
    elim (resolve-cases c.api s c.token c.now c.swept c.later) [
      | inl (u, hit, e) ↦
          let (at, g, fresh) = cached-fresh s d c.now u hit in
          let w =
            Map.All-get (Recorded ids history) d (u, at) s.cache
              (entries-Recorded ids empty history) g in
          inr (
            at,
            subst (λ v. WasJudged ids history d v at) (same u (sym (ap (λ r. r.0) e) ∙ h)) w,
            fresh,
          )
      | inr (miss, inl (u, j, e)) ↦ inl (
          sym (judge-cached c.api ids s c.token c.now (after-SameConfig ids history))
          ∙ j
          ∙ sym (ap (λ r. r.0) e)
          ∙ h)
      | inr (miss, inr (r, j, e)) ↦ absurd (never r (sym (ap (λ q. q.0) e) ∙ h))
    ]
  where
    same : (u : Tenant) → ◌≡◌ {A = Result Tenant} (ok u) (ok t) → u ≡ t
    same u q = cc

    never : (r : Reason) → ◌≡◌ {A = Result Tenant} (err r) (ok t) → ⊥
    never r q = cc

-- Whatever the history of calls that began with an empty cache, at most 512 verdicts are held.
pub length-after-le :
    (ids : Identities)
    → ids.cache ≡ []
    → (history : List Call) → length (after ids history).cache ≤ max_cached
unfolding after
length-after-le ids empty [] = rw empty (omega arith)
length-after-le ids empty (c ∷ earlier) =
    length-resolve-le c.api (after ids earlier) c.token c.now c.swept c.later
      (length-after-le ids empty earlier)
