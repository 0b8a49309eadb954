-- ===== src/Broker/Result.antt =====
-- `anyhow::Result`: a reason stands for each `bail!`, `context` and foreign error of crates/broker.
-- The message texts are not modelled, their constructors are.
use vaultr.Prelude.{◌≡◌, refl, Bool, true, false, ◌⊎◌, inl, inr, Option, none, some}

pub data Reason : Type 0 where
  -- seal.rs
  empty_key wrong_segment_count wrong_root not_a_date unusable_session_id not_a_seal_file : Reason
  -- tenant.rs
  no_oidc_leg subject_not_authorized no_kube_leg tailnet_disabled not_tailnet_address : Reason
  whois_failed peer_unknown unparsable_whois nameless_node unusable_node_name : Reason
  -- tenant/kube.rs
  own_token_unreadable own_token_empty review_unsent review_refused review_unparsable : Reason
  not_authenticated wrong_audience wrong_namespace not_pod_bound unusable_pod_name : Reason
  -- store.rs
  aws_not_run aws_failed aws_not_utf8 empty_url spool_not_utf8 : Reason
  -- main.rs
  subject_not_utf8 subject_empty no_route not_authorized_to_read too_large length_mismatch : Reason
  spool_not_created body_unreadable body_too_large spool_not_written : Reason
  empty_read_tenant unusable_read_tenant unusable_oidc_tenant oidc_half_configured : Reason
  bad_process_limit bad_drain_timeout : Reason
  spool_unread entry_untyped entry_not_removed : Reason

-- anyhow::Result
pub data Result {ℓ} (T : Type ℓ) : Type ℓ where
  err : Reason → Result T
  ok : T → Result T

-- Option::context
abbrev pub context {ℓ} : {T : Type ℓ} → Reason → Option T → Result T
context reason (some value) = ok value
context reason none = err reason

-- if !test { bail!(reason) }
abbrev pub ensure : Bool → Reason → Result (Unit {0})
ensure false reason = err reason
ensure true reason = ok tt

-- The operator `?`.
infixl 5 ◌>>=◌ ◌>>◌
abbrev pub ◌>>=◌ {ℓ κ} : {T : Type ℓ} {U : Type κ} → Result T → (T → Result U) → Result U
err reason >>= rest = err reason
ok value >>= rest = rest value

abbrev pub ◌>>◌ {ℓ} : {U : Type ℓ} → Result (Unit {0}) → Result U → Result U
checked >> rest = checked >>= λ _. rest

pub Result-cases {ℓ} :
    {A : Type ℓ} (r : Result A) → ((a : A) × (r ≡ ok a)) ⊎ ((e : Reason) × (r ≡ err e))
Result-cases (ok a) = inl (a, refl)
Result-cases (err e) = inr (e, refl)

-- A chain that succeeds has succeeded at each step.
pub >>=-eq-ok {ℓ κ} :
    {T : Type ℓ} {U : Type κ} (r : Result T) (rest : T → Result U) {u : U}
    → (r >>= rest) ≡ ok u
    → (t : T) × (r ≡ ok t) × (rest t ≡ ok u)
>>=-eq-ok (err reason) rest e = cc
>>=-eq-ok (ok t) rest e = (t, refl, e)

pub ensure-eq-ok {ℓ} :
    {B : Type ℓ} (t : Bool) (r : Reason) (k : Result B) {b : B}
    → (ensure t r >> k) ≡ ok b
    → (t ≡ true) × (k ≡ ok b)
ensure-eq-ok true r k h = (refl, h)
ensure-eq-ok false r k h = cc

pub context-eq-ok {ℓ κ} :
    {A : Type ℓ} {B : Type κ} (r : Reason) (o : Option A) (f : A → Result B) {b : B}
    → (context r o >>= f) ≡ ok b
    → (a : A) × (o ≡ some a) × (f a ≡ ok b)
context-eq-ok r none f h = cc
context-eq-ok r (some a) f h = (a, refl, h)
