-- ===== src/Broker/Metrics/Tally.antt =====
-- The metrics after a history of events, against counts taken from the history itself.
use vaultr.Prelude.{
  ℕ, ◌+◌, ◌%◌, ◌≡◌, refl, inl, inr, Bool, true, false, Option, none, some, List, [], ◌∷◌, arith,
  Bool-cases, if◌then◌else◌,
}
use vaultr.Prelude.Map
use vaultr.Text.{u64_limit}
use vaultr.Broker.Tenant.{Tenant, tenant_eq, tenant_key}
use vaultr.Broker.Metrics.{
  Metrics, TenantState, Outcome, uploaded, unchanged, failed, new, touch, count, contact,
  record_outcome, edit_tenant, edit_entry,
}
use vaultr.Broker.Metrics.Tenants.{IsSorted, edit-IsSorted, get-edit, or_default}

-- A contact at a time, or an outcome with its bytes at a time.
pub data Event : Type 0 where
  contacts : ℕ → Event
  records : Outcome → ℕ → ℕ → Event

abbrev pub History : Type 0
History = List (Tenant × Event)

unfoldable pub perform : Metrics → Tenant × Event → Metrics
perform m (t, contacts now) = contact m t now
perform m (t, records outcome n now) = record_outcome m t outcome n now

-- From the start of the broker, the latest event first.
unfoldable pub after : History → Metrics
after [] = new
after (e ∷ earlier) = perform (after earlier) e

abbrev pub is_outcome : Outcome → Event → Bool
is_outcome o (contacts now) = false
is_outcome uploaded (records uploaded n now) = true
is_outcome unchanged (records unchanged n now) = true
is_outcome failed (records failed n now) = true
is_outcome _ (records _ n now) = false

abbrev pub stored_bytes : Event → ℕ
stored_bytes (contacts now) = 0
stored_bytes (records uploaded n now) = n
stored_bytes (records _ n now) = 0

-- How often a tenant had an outcome, the bytes that it stored, and its latest times.
pub times : Tenant → Outcome → History → ℕ
times t o [] = 0
times t o ((u, e) ∷ h) =
    (if tenant_eq u t then (if is_outcome o e then 1 else 0) else 0) + times t o h

pub total_bytes : Tenant → History → ℕ
total_bytes t [] = 0
total_bytes t ((u, e) ∷ h) = (if tenant_eq u t then stored_bytes e else 0) + total_bytes t h

abbrev latest : Option ℕ → Option ℕ → Option ℕ
latest none o = o
latest (some n) o = some n

abbrev upload_time : Event → Option ℕ
upload_time (contacts now) = none
upload_time (records uploaded n now) = some now
upload_time (records _ n now) = none

abbrev contact_time : Event → Option ℕ
contact_time (contacts now) = some now
contact_time (records _ n now) = none

pub last_upload_in : Tenant → History → Option ℕ
last_upload_in t [] = none
last_upload_in t ((u, e) ∷ h) =
    latest (if tenant_eq u t then upload_time e else none) (last_upload_in t h)

pub last_contact_in : Tenant → History → Option ℕ
last_contact_in t [] = none
last_contact_in t ((u, e) ∷ h) =
    latest (if tenant_eq u t then contact_time e else none) (last_contact_in t h)

-- What the broker holds of a tenant is what the history says of it.
pub record Tallies (t : Tenant) (h : History) (s : TenantState) : Type 0 where
  pub uploads : s.uploaded ≡ times t uploaded h % u64_limit
  pub unchangeds : s.unchanged ≡ times t unchanged h % u64_limit
  pub failures : s.failed ≡ times t failed h % u64_limit
  pub volume : s.bytes ≡ total_bytes t h % u64_limit
  pub upload : s.last_upload ≡ last_upload_in t h
  pub contacted : s.last_contact ≡ last_contact_in t h

-- The closure that an event runs on its tenant's entry.
abbrev edit_of : Event → TenantState → TenantState
edit_of (contacts now) = touch now
edit_of (records outcome n now) = count outcome n now

perform-edit :
    (m : Metrics) (t : Tenant) (e : Event)
    → (perform m (t, e)).tenants ≡ edit_entry t (edit_of e) m.tenants
unfolding perform contact record_outcome edit_tenant
perform-edit m t (contacts now) = refl
perform-edit m t (records outcome n now) = refl

Tallies-hit :
    (t u : Tenant) (e : Event) (h : History) (s : TenantState)
    → tenant_eq u t ≡ true
    → Tallies t h s
    → Tallies t ((u, e) ∷ h) (edit_of e s)
unfolding times total_bytes last_upload_in last_contact_in touch count
Tallies-hit t u (contacts now) h s q k = ground arith
Tallies-hit t u (records uploaded n now) h s q k = ground arith
Tallies-hit t u (records unchanged n now) h s q k = ground arith
Tallies-hit t u (records failed n now) h s q k = ground arith

Tallies-miss :
    (t u : Tenant) (e : Event) (h : History) (s : TenantState)
    → tenant_eq u t ≡ false
    → Tallies t h s
    → Tallies t ((u, e) ∷ h) s
unfolding times total_bytes last_upload_in last_contact_in
Tallies-miss t u e h s q k = ground arith

-- After any history there is one entry to a tenant, in the order of their names.
pub after-IsSorted : (h : History) → IsSorted (after h).tenants
unfolding after
after-IsSorted [] = tt
after-IsSorted ((u, e) ∷ h) =
    rw (perform-edit (after h) u e)
      (edit-IsSorted u (edit_of e) (after h).tenants (after-IsSorted h))

-- After any history the entry of a tenant (the default, if it has none) has its outcomes counted and
-- its stored bytes summed modulo 2^64, its latest upload and its latest contact; the other
-- tenants' events leave it alone.
pub after-Tallies :
    (h : History) (t : Tenant) → Tallies t h (or_default (Map.get t (after h).tenants))
unfolding after
after-Tallies [] t =
    unfold Map.get times total_bytes last_upload_in last_contact_in in
    record {
      uploads = refl;
      unchangeds = refl;
      failures = refl;
      volume = refl;
      upload = refl;
      contacted = refl;
    }
after-Tallies ((u, e) ∷ h) t =
    rw (perform-edit (after h) u e, get-edit u t (edit_of e) (after h).tenants (after-IsSorted h))
      (elim (Bool-cases (tenant_eq u t)) [
        | inl same ↦ rw same (
            Tallies-hit t u e h (or_default (Map.get t (after h).tenants)) same (after-Tallies h t))
        | inr other ↦ rw other (
            Tallies-miss t u e h (or_default (Map.get t (after h).tenants)) other
              (after-Tallies h t))
      ])
