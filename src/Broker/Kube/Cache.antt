-- ===== src/Broker/Kube/Cache.antt =====
-- The verdict cache call by call: what a call answers, what it keeps, and that it stays bounded.
use vaultr.Prelude.{
  ℕ, ◌≤◌, ◌≡◌, refl, ◌∙◌, ◌⊎◌, inl, inr, Option, none, some, List, [], ◌∷◌, arith, length,
  length-filter-le, Any,
}
use vaultr.Prelude.Map
use vaultr.Text.{Text, text_key}
use vaultr.Broker.Result.{Reason, Result, ok, err}
use vaultr.Broker.Tenant.{Tenant}
use vaultr.Broker.Kube.{
  Identities, Api, max_cached, is_fresh, cached, remember, judge, review, tenant_of, answer,
  conclude, resolve,
}

pub record SameConfig (a b : Identities) : Type 0 where
  pub token : a.token ≡ b.token
  pub audience : a.audience ≡ b.audience
  pub namespace : a.namespace ≡ b.namespace

pub cached-SameConfig :
    (ids : Identities) (d : Text) (now : ℕ) → SameConfig (cached ids d now).1 ids
unfolding cached
cached-SameConfig ids d now = ground arith

remember-SameConfig :
    (ids : Identities) (d : Text) (t : Tenant) (swept now : ℕ)
    → SameConfig (remember ids d t swept now) ids
unfolding remember
remember-SameConfig ids d t swept now = ground arith

pub judge-SameConfig :
    (api : Api) (a b : Identities) (token : Text)
    → SameConfig a b
    → judge api a token ≡ judge api b token
unfolding judge review tenant_of
judge-SameConfig api a b token s = rw (s.token, s.audience, s.namespace)

length-cached :
    (ids : Identities) (d : Text) (now : ℕ) → length (cached ids d now).1.cache ≤ length ids.cache
unfolding cached
length-cached ids d now = ground (arith, Map.length-remove-le d ids.cache)

length-remember :
    (ids : Identities) (d : Text) (t : Tenant) (swept now : ℕ)
    → length ids.cache ≤ max_cached
    → length (remember ids d t swept now).cache ≤ max_cached
unfolding remember
length-remember ids d t swept now h = ground (
  arith,
  Map.length-insert-le d (t, now) ids.cache,
  Map.length-insert-le d (t, now) (Map.retain (λ _ e. is_fresh swept e) ids.cache),
  length-filter-le (λ (e : Text × (Tenant × ℕ)). is_fresh swept e.1) ids.cache,
)

-- `resolve` answers from the cache or by a verdict, and remembers only a verdict.
pub resolve-cases :
    (api : Api) (ids : Identities) (token : Text) (now swept later : ℕ)
    → let c = cached ids (api.digest token) now in
      let r = resolve api ids token now swept later in
      ((t : Tenant) × (c.0 ≡ some t) × (r ≡ (ok t, c.1)))
      ⊎ ((c.0 ≡ none)
          × (((t : Tenant) × (judge api c.1 token ≡ ok t)
                × (r ≡ (ok t, remember c.1 (api.digest token) t swept later)))
              ⊎ ((e : Reason) × (judge api c.1 token ≡ err e) × (r ≡ (err e, c.1)))))
unfolding resolve
resolve-cases api ids token now swept later = by_hit (cached ids (api.digest token) now)
  where
    by_judge :
        (c : Identities) (j : Result Tenant)
        → ((t : Tenant) × (j ≡ ok t)
            × (conclude c (api.digest token) swept later j
                ≡ (ok t, remember c (api.digest token) t swept later)))
          ⊎ ((e : Reason) × (j ≡ err e)
              × (conclude c (api.digest token) swept later j ≡ (err e, c)))
    by_judge c (ok t) = inl (t, refl, refl)
    by_judge c (err e) = inr (e, refl, refl)

    by_hit :
        (c : Option Tenant × Identities)
        → ((t : Tenant) × (c.0 ≡ some t) × (answer api c.1 token swept later c.0 ≡ (ok t, c.1)))
          ⊎ ((c.0 ≡ none)
              × (((t : Tenant) × (judge api c.1 token ≡ ok t)
                    × (answer api c.1 token swept later c.0
                        ≡ (ok t, remember c.1 (api.digest token) t swept later)))
                  ⊎ ((e : Reason) × (judge api c.1 token ≡ err e)
                      × (answer api c.1 token swept later c.0 ≡ (err e, c.1)))))
    by_hit (some t, c) = inl (t, refl, refl)
    by_hit (none, c) = inr (refl, by_judge c (judge api c token))

pub resolve-SameConfig :
    (api : Api) (ids : Identities) (token : Text) (now swept later : ℕ)
    → SameConfig (resolve api ids token now swept later).1 ids
resolve-SameConfig api ids token now swept later =
    elim (resolve-cases api ids token now swept later) [
      | inl (t, hit, e) ↦ rw e (cached-SameConfig ids (api.digest token) now)
      | inr (miss, inl (t, j, e)) ↦ rw e (
          chain (remember-SameConfig _ (api.digest token) t swept later)
            (cached-SameConfig ids (api.digest token) now))
      | inr (miss, inr (r, j, e)) ↦ rw e (cached-SameConfig ids (api.digest token) now)
    ]
  where
    chain : {a b c : Identities} → SameConfig a b → SameConfig b c → SameConfig a c
    chain h k = record {
      token = h.token ∙ k.token;
      audience = h.audience ∙ k.audience;
      namespace = h.namespace ∙ k.namespace;
    }

-- One call to `resolve`: what lies outside at that time, the token, and the clock readings.
pub record Call : Type 0 where
  pub api : Api
  pub token : Text
  pub now : ℕ
  pub swept : ℕ
  pub later : ℕ

abbrev pub run_call : Identities → Call → Result Tenant × Identities
run_call ids c = resolve c.api ids c.token c.now c.swept c.later

-- The state behind a history of calls, the latest first.
unfoldable pub after : Identities → List Call → Identities
after ids [] = ids
after ids (c ∷ earlier) = (run_call (after ids earlier) c).1

-- `t` is what the API server said at time `at`, in a call of the history whose token has this digest.
abbrev pub WasJudged : Identities → List Call → Text → Tenant → ℕ → Type 0
WasJudged ids history digest t at =
    Any (λ c. (c.api.digest c.token ≡ digest) × (judge c.api ids c.token ≡ ok t) × (c.later ≡ at))
      history

pub length-resolve-le :
    (api : Api) (ids : Identities) (token : Text) (now swept later : ℕ)
    → length ids.cache ≤ max_cached
    → length (resolve api ids token now swept later).1.cache ≤ max_cached
length-resolve-le api ids token now swept later h =
    elim (resolve-cases api ids token now swept later) [
      | inl (t, hit, e) ↦ rw e (omega (arith, length-cached ids (api.digest token) now))
      | inr (miss, inl (t, j, e)) ↦ rw e (
          length-remember _ (api.digest token) t swept later
            (omega (arith, length-cached ids (api.digest token) now)))
      | inr (miss, inr (r, j, e)) ↦ rw e (omega (arith, length-cached ids (api.digest token) now))
    ]
