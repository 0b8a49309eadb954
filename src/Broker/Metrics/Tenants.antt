-- ===== src/Broker/Metrics/Tenants.antt =====
-- The map of tenants: in strict order of names, with lookups that an edit changes at its key only.
use vaultr.Prelude.{
  ◌≡◌, refl, inl, inr, true, false, Option, none, some, List, [], ◌∷◌, arith, All, Bool-cases,
  if◌then◌else◌,
}
use vaultr.Prelude.Map
use vaultr.Text.{Text, text_eq}
use vaultr.Broker.Tenant.{Tenant, tenant_eq, tenant_eq_iff, tenant_key}
use vaultr.Broker.Metrics.{TenantState, default_state, text_ltb, edit_entry}

text_ltb_irrefl : (s : Text) → text_ltb s s ≡ false
unfolding text_ltb
text_ltb_irrefl [] = refl
text_ltb_irrefl (c ∷ s) = ground (arith, text_ltb_irrefl s)

text_ltb_trans : (s t u : Text) → text_ltb s t ≡ true → text_ltb t u ≡ true → text_ltb s u ≡ true
unfolding text_ltb
text_ltb_trans [] [] u h k = cc
text_ltb_trans [] (d ∷ t) [] h k = cc
text_ltb_trans [] (d ∷ t) (e ∷ u) h k = refl
text_ltb_trans (c ∷ s) [] u h k = cc
text_ltb_trans (c ∷ s) (d ∷ t) [] h k = cc
text_ltb_trans (c ∷ s) (d ∷ t) (e ∷ u) h k = ground (arith, text_ltb_trans s t u)

text_ltb_total : (s t : Text) → text_ltb s t ≡ false → text_eq t s ≡ false → text_ltb t s ≡ true
unfolding text_ltb text_eq
text_ltb_total [] [] h k = cc
text_ltb_total [] (d ∷ t) h k = cc
text_ltb_total (c ∷ s) [] h k = refl
text_ltb_total (c ∷ s) (d ∷ t) h k = ground (arith, text_ltb_total s t)

abbrev pub Above : Tenant → List (Tenant × TenantState) → Type 0
Above t = All λ e. text_ltb t.name e.0.name ≡ true

abbrev pub IsSorted : List (Tenant × TenantState) → Type 0
IsSorted [] = Unit
IsSorted ((t, s) ∷ m) = Above t m × IsSorted m

Above-trans :
    (t u : Tenant) (m : List (Tenant × TenantState))
    → text_ltb t.name u.name ≡ true
    → Above u m
    → Above t m
Above-trans t u [] h a = tt
Above-trans t u ((v, s) ∷ m) h a =
    (text_ltb_trans t.name u.name v.name h a.0, Above-trans t u m h a.1)

get-Above : (t : Tenant) (m : List (Tenant × TenantState)) → Above t m → Map.get t m ≡ none
unfolding Map.get
get-Above t [] a = refl
get-Above t ((u, s) ∷ m) a =
    ground (arith, get-Above t m a.1, tenant_eq_iff u t, text_ltb_irrefl t.name, a.0)

edit-Above :
    (u t : Tenant) (f : TenantState → TenantState) (m : List (Tenant × TenantState))
    → text_ltb u.name t.name ≡ true
    → Above u m
    → Above u (edit_entry t f m)
unfolding edit_entry
edit-Above u t f [] h a = (h, tt)
edit-Above u t f ((v, s) ∷ m) h a = elim (Bool-cases (tenant_eq v t)) [
  | inl same ↦ rw same a
  | inr other ↦ rw other (elim (Bool-cases (text_ltb t.name v.name)) [
    | inl before ↦ rw before (h, a)
    | inr behind ↦ rw behind (a.0, edit-Above u t f m h a.1)
  ])
]

pub edit-IsSorted :
    (t : Tenant) (f : TenantState → TenantState) (m : List (Tenant × TenantState))
    → IsSorted m
    → IsSorted (edit_entry t f m)
unfolding edit_entry
edit-IsSorted t f [] h = (tt, tt)
edit-IsSorted t f ((v, s) ∷ m) h = elim (Bool-cases (tenant_eq v t)) [
  | inl same ↦ rw same h
  | inr other ↦ rw other (elim (Bool-cases (text_ltb t.name v.name)) [
    | inl before ↦ rw before ((before, Above-trans t v m before h.0), h)
    | inr behind ↦ rw behind (
      edit-Above v t f m (text_ltb_total t.name v.name behind other) h.0,
      edit-IsSorted t f m h.1,
    )
  ])
]

abbrev pub or_default : Option TenantState → TenantState
or_default none = default_state
or_default (some s) = s

-- An edit changes the entry of its tenant, from the default if there was none, and no other.
pub get-edit :
    (t j : Tenant) (f : TenantState → TenantState) (m : List (Tenant × TenantState))
    → IsSorted m
    → Map.get j (edit_entry t f m)
      ≡ (if tenant_eq t j then some (f (or_default (Map.get j m))) else Map.get j m)
unfolding edit_entry Map.get
get-edit t j f [] h = ground arith
get-edit t j f ((v, s) ∷ m) h = ground (
  arith,
  get-edit t j f m h.1,
  tenant_eq_iff v t,
  tenant_eq_iff v j,
  tenant_eq_iff t j,
  Above-trans t v m,
  get-Above t m,
)
