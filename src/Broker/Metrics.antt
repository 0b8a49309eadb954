-- ===== src/Broker/Metrics.antt =====
-- crates/broker/src/metrics.rs: what each tenant did, and the page that is scraped.
pub mod Tenants
pub mod Tally
use vaultr.Prelude.{
  ℕ, ◌+◌, ◌-◌, ◌*◌, ◌/◌, ◌%◌, Bool, true, false, ◌&&◌, ◌||◌, Option, none, some, List, [], ◌∷◌,
  ◌++◌, ltb, ◌==◌, if◌then◌else◌, String,
}
use vaultr.Text.{Text, chars, show, u64_limit}
use vaultr.Broker.Tenant.{Tenant, tenant_eq}
use vaultr.Broker.Kube.{nanos}

pub record TenantState : Type 0 where
  pub last_contact : Option ℕ
  pub last_upload : Option ℕ
  pub uploaded : ℕ
  pub unchanged : ℕ
  pub failed : ℕ
  pub bytes : ℕ

-- The derived `Default`.
abbrev pub default_state : TenantState
default_state = record {
  last_contact = none;
  last_upload = none;
  uploaded = 0;
  unchanged = 0;
  failed = 0;
  bytes = 0;
}

pub data Outcome : Type 0 where
  uploaded unchanged failed : Outcome

pub record StoreView : Type 0 where
  pub objects : ℕ
  pub bytes : ℕ
  pub at : Option ℕ

-- The `BTreeMap` is a list in the order of its keys.
pub record Metrics : Type 0 where
  pub tenants : List (Tenant × TenantState)
  pub store : StoreView

abbrev pub new : Metrics
new = record { tenants = []; store = record { objects = 0; bytes = 0; at = none } }

-- `str` is ordered by its bytes, which is the order of its code points.
unfoldable pub text_ltb : Text → Text → Bool
text_ltb [] [] = false
text_ltb [] (d ∷ t) = true
text_ltb (c ∷ s) [] = false
text_ltb (c ∷ s) (d ∷ t) = ltb c d || (c == d && text_ltb s t)

-- edit(tenants.entry(tenant).or_default())
unfoldable pub edit_entry :
    Tenant → (TenantState → TenantState) → List (Tenant × TenantState) → List (Tenant × TenantState)
edit_entry t edit [] = (t, edit default_state) ∷ []
edit_entry t edit ((u, s) ∷ m) =
    let rest = edit_entry t edit m in
    if tenant_eq u t
    then (u, edit s) ∷ m
    else if text_ltb t.name u.name
    then (t, edit default_state) ∷ (u, s) ∷ m
    else (u, s) ∷ rest

-- `with`
unfoldable pub edit_tenant : Metrics → Tenant → (TenantState → TenantState) → Metrics
edit_tenant m t edit = record m { tenants = edit_entry t edit m.tenants }

abbrev pub add_u64 : ℕ → ℕ → ℕ
add_u64 a b = (a + b) % u64_limit

-- The closures that `contact` and `record` hand to `with`, at the clock reading `now`.
unfoldable pub touch : ℕ → TenantState → TenantState
touch now s = record s { last_contact = some now }

unfoldable pub count : Outcome → ℕ → ℕ → TenantState → TenantState
count uploaded n now s = record s {
  uploaded = add_u64 s.uploaded 1;
  bytes = add_u64 s.bytes n;
  last_upload = some now;
}
count unchanged n now s = record s { unchanged = add_u64 s.unchanged 1 }
count failed n now s = record s { failed = add_u64 s.failed 1 }

unfoldable pub contact : Metrics → Tenant → ℕ → Metrics
contact m t now = edit_tenant m t (touch now)

unfoldable pub record_outcome : Metrics → Tenant → Outcome → ℕ → ℕ → Metrics
record_outcome m t outcome n now = edit_tenant m t (count outcome n now)

unfoldable pub observe_store : Metrics → ℕ → ℕ → ℕ → Metrics
observe_store m objects n now = record m {
  store = record { objects = objects; bytes = n; at = some now };
}

-- at.elapsed().as_secs()
abbrev pub age : ℕ → ℕ → ℕ
age now at = (now - at) / nanos

abbrev pub flat_map {ℓ κ} : {A : Type ℓ} {B : Type κ} → (A → List B) → List A → List B
flat_map f [] = []
flat_map f (x ∷ xs) = f x ++ flat_map f xs

abbrev pub concat : List Text → Text
concat [] = []
concat (s ∷ ss) = s ++ concat ss

-- The lines of one tenant in each of the four families.
abbrev pub labelled : String → Tenant → ℕ → Text
labelled series t n = concat (chars series ∷ t.name ∷ chars "\"} " ∷ show n ∷ chars "\n" ∷ [])

abbrev pub contact_line : ℕ → Tenant × TenantState → Text
contact_line now e = elim e.1.last_contact [
  | none ↦ []
  | some at ↦ labelled "seal_last_contact_age_seconds{tenant=\"" e.0 (age now at)
]

abbrev pub upload_line : ℕ → Tenant × TenantState → Text
upload_line now e = elim e.1.last_upload [
  | none ↦ []
  | some at ↦ labelled "seal_last_upload_age_seconds{tenant=\"" e.0 (age now at)
]

abbrev pub outcome_line : Tenant → String → ℕ → Text
outcome_line t outcome n = concat (
    chars "seal_uploads_total{tenant=\""
    ∷ t.name
    ∷ chars "\",outcome=\""
    ∷ chars outcome
    ∷ chars "\"} "
    ∷ show n
    ∷ chars "\n"
    ∷ [])

abbrev pub outcome_lines : Tenant × TenantState → Text
outcome_lines e = concat (
    outcome_line e.0 "uploaded" e.1.uploaded
    ∷ outcome_line e.0 "unchanged" e.1.unchanged
    ∷ outcome_line e.0 "failed" e.1.failed
    ∷ [])

abbrev pub bytes_line : Tenant × TenantState → Text
bytes_line e = labelled "seal_upload_bytes_total{tenant=\"" e.0 e.1.bytes

abbrev pub store_lines : ℕ → StoreView → Text
store_lines now s = elim s.at [
  | none ↦ []
  | some at ↦ concat (
      chars "# HELP seal_store_objects Objects in the seal store at the last listing.\n"
      ∷ chars "# TYPE seal_store_objects gauge\nseal_store_objects "
      ∷ show s.objects
      ∷ chars "\n# HELP seal_store_bytes Bytes in the seal store at the last listing.\n"
      ∷ chars "# TYPE seal_store_bytes gauge\nseal_store_bytes "
      ∷ show s.bytes
      ∷ chars "\n# HELP seal_store_listing_age_seconds Age of the store listing above.\n"
      ∷ chars "# TYPE seal_store_listing_age_seconds gauge\nseal_store_listing_age_seconds "
      ∷ show (age now at)
      ∷ chars "\n"
      ∷ [])
]

unfoldable pub render : Metrics → ℕ → Text
render m now = concat (
    chars
      "# HELP seal_last_contact_age_seconds Seconds since this tenant last reached the broker.\n"
    ∷ chars "# TYPE seal_last_contact_age_seconds gauge\n"
    ∷ flat_map (contact_line now) m.tenants
    ∷ chars "# HELP seal_last_upload_age_seconds Seconds since this tenant last stored a seal.\n"
    ∷ chars "# TYPE seal_last_upload_age_seconds gauge\n"
    ∷ flat_map (upload_line now) m.tenants
    ∷ chars "# HELP seal_uploads_total Seal uploads by outcome.\n"
    ∷ chars "# TYPE seal_uploads_total counter\n"
    ∷ flat_map outcome_lines m.tenants
    ∷ chars "# HELP seal_upload_bytes_total Bytes stored on behalf of this tenant.\n"
    ∷ chars "# TYPE seal_upload_bytes_total counter\n"
    ∷ flat_map bytes_line m.tenants
    ∷ store_lines now m.store
    ∷ [])
