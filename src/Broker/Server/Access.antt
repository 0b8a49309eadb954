-- ===== src/Broker/Server/Access.antt =====
-- Who reaches the bucket: what a caller must be before a request touches anything behind `aws`.
use vaultr.Prelude.{
  ◌≡◌, refl, ◌⊎◌, inl, inr, Bool, true, false, Option, none, some, arith, any, Bool-cases,
  if◌then◌else◌,
}
use vaultr.Text.{Text}
use vaultr.Broker.Result.{Reason, Result, ok, err, ◌>>=◌}
use vaultr.Broker.Tenant.{Tenant, tenant_eq}
use vaultr.Broker.Seal.{validate}
use vaultr.Broker.Seal.Layout.{IsSealKey, validate_iff}
use vaultr.Broker.Resolver
use vaultr.Broker.Resolver.{Resolver}
use vaultr.Broker.Store.{Aws}
use vaultr.Broker.Http.{
  Method, get, put as put_method, other, Request, Response, error, gateway_subject, bearer_token,
}
use vaultr.Broker.Server.{Broker, Visit, is_seals, seal_path}
use vaultr.Broker.Server.Handlers.{listing, read_seal, sign_seal, upload, upload_checked}
use vaultr.Broker.Server.Routes.{
  open_route, read_route, upload_route, tenant_route, admit, identify, behind_open, route,
}

-- The caller that a request proves to be.
unfoldable pub caller : Request → Broker → Visit → Result Tenant
caller q b v = gateway_subject q.gateway >>= λ subject.
    (Resolver.resolve v.outside b.resolver v.peer (bearer_token q.authorization) subject).0

abbrev pub may_read : Broker → Tenant → Bool
may_read b t = any (tenant_eq t) b.read_tenants

-- What permits a request to reach the bucket.
pub data Permit (q : Request) (b : Broker) (v : Visit) : Type 0 where
  lists :
      (t : Tenant) → caller q b v ≡ ok t → q.method ≡ get → is_seals q.path ≡ true → Permit q b v
  reads :
      (t : Tenant) (key : Text)
      → caller q b v ≡ ok t
      → q.method ≡ get
      → seal_path q.path ≡ some key
      → may_read b t ≡ true
      → IsSealKey b.keys key
      → Permit q b v
  writes :
      (t : Tenant) (key : Text)
      → caller q b v ≡ ok t
      → q.method ≡ put_method
      → seal_path q.path ≡ some key
      → IsSealKey b.keys key
      → Permit q b v

module _ (a : Aws) where
  open a use {World}

  read_seal-World :
      (b : Broker) (t : Tenant) (key : Text) (w : World)
      → ((read_seal a b t key w).2 ≡ w) ⊎ ((may_read b t ≡ true) × IsSealKey b.keys key)
  unfolding read_seal
  read_seal-World b t key w = elim (Bool-cases (may_read b t)) [
    | inr refused ↦ rw refused (inl refl)
    | inl allowed ↦ rw allowed (by_key (validate b.keys key) refl allowed)
  ]
    where
      by_key :
          (r : Result Unit)
          → validate b.keys key ≡ r
          → may_read b t ≡ true
          → ((sign_seal a b key w r).2 ≡ w) ⊎ ((true ≡ true) × IsSealKey b.keys key)
      by_key (err reason) e allowed = inl refl
      by_key (ok tt) e allowed = inr (refl, (validate_iff b.keys key).0 e)

  upload-World :
      (q : Request) (b : Broker) (v : Visit) (t : Tenant) (key : Text) (w : World)
      → ((upload a q b v t key w).2 ≡ w) ⊎ IsSealKey b.keys key
  unfolding upload
  upload-World q b v t key w = by_key (validate b.keys key) refl
    where
      by_key :
          (r : Result Unit)
          → validate b.keys key ≡ r
          → ((upload_checked a q b v t key w r).2 ≡ w) ⊎ IsSealKey b.keys key
      by_key (err reason) e = inl refl
      by_key (ok tt) e = inr ((validate_iff b.keys key).0 e)

  -- What a named tenant's request needs beyond the name.
  abbrev Grant : Method → Request → Broker → Tenant → Type 0
  Grant m q b t =
      ((m ≡ get) × (is_seals q.path ≡ true))
      ⊎ ((key : Text) × (m ≡ get)
          × (seal_path q.path ≡ some key)
          × (may_read b t ≡ true)
          × IsSealKey b.keys key)
      ⊎ ((key : Text) × (m ≡ put_method) × (seal_path q.path ≡ some key) × IsSealKey b.keys key)

  tenant_route-World :
      (m : Method) (q : Request) (b : Broker) (v : Visit) (t : Tenant) (w : World)
      → ((tenant_route a m q b v t w).2 ≡ w) ⊎ Grant m q b t
  unfolding tenant_route read_route upload_route
  tenant_route-World get q b v t w = by_seals (is_seals q.path) refl
    where
      by_path :
          (o : Option Text)
          → seal_path q.path ≡ o
          → ((read_route a b t w o).2 ≡ w) ⊎ Grant get q b t
      by_path none e = inl refl
      by_path (some key) e = elim (read_seal-World b t key w) [
        | inl same ↦ inl same
        | inr (allowed, valid) ↦ inr (inr (inl (key, refl, e, allowed, valid)))
      ]

      by_seals :
          (s : Bool)
          → is_seals q.path ≡ s
          → ((if s then listing a b v w else read_route a b t w (seal_path q.path)).2 ≡ w)
            ⊎ Grant get q b t
      by_seals true e = inr (inl (refl, e))
      by_seals false e = by_path (seal_path q.path) refl
  tenant_route-World put_method q b v t w = by_path (seal_path q.path) refl
    where
      by_path :
          (o : Option Text)
          → seal_path q.path ≡ o
          → ((upload_route a q b v t w o).2 ≡ w) ⊎ Grant put_method q b t
      by_path none e = inl refl
      by_path (some key) e = elim (upload-World q b v t key w) [
        | inl same ↦ inl same
        | inr valid ↦ inr (inr (inr (key, refl, e, valid)))
      ]
  tenant_route-World other q b v t w = inl refl

  admit-World :
      (q : Request) (b : Broker) (v : Visit) (w : World) (r : Result Tenant × Resolver)
      → ((admit a q b v w r).2 ≡ w) ⊎ ((t : Tenant) × (r.0 ≡ ok t) × Grant q.method q b t)
  unfolding admit
  admit-World q b v w (err reason, r) = inl refl
  admit-World q b v w (ok t, r) = elim (tenant_route-World q.method q _ v t w) [
    | inl same ↦ inl same
    | inr granted ↦ inr (t, refl, granted)
  ]

  identify-World :
      (q : Request) (b : Broker) (v : Visit) (w : World)
      → ((identify a q b v w (gateway_subject q.gateway)).2 ≡ w)
        ⊎ ((t : Tenant) × (caller q b v ≡ ok t) × Grant q.method q b t)
  unfolding identify caller
  identify-World q b v w = by_subject (gateway_subject q.gateway)
    where
      by_subject :
          (s : Result (Option Text))
          → ((identify a q b v w s).2 ≡ w)
            ⊎ ((t : Tenant) × ((s >>= λ x.
                    (Resolver.resolve v.outside b.resolver v.peer
                      (bearer_token q.authorization)
                      x).0)
                  ≡ ok t)
                × Grant q.method q b t)
      by_subject (err reason) = inl refl
      by_subject (ok x) =
          admit-World q b v w
            (Resolver.resolve v.outside b.resolver v.peer (bearer_token q.authorization) x)

Permit-Grant :
    (a : Aws) (q : Request) (b : Broker) (v : Visit) (t : Tenant)
    → caller q b v ≡ ok t
    → Grant a q.method q b t
    → Permit q b v
Permit-Grant a q b v t c (inl (m, s)) = lists t c m s
Permit-Grant a q b v t c (inr (inl (key, m, p, r, k))) = reads t key c m p r k
Permit-Grant a q b v t c (inr (inr (key, m, p, k))) = writes t key c m p k

-- Whatever the request, either nothing behind `aws` is touched, or its caller is named and it is a
-- listing, a read of a valid seal key by a tenant of the read allowlist, or an upload to a valid seal
-- key.
pub route-Permit :
    (a : Aws) (q : Request) (b : Broker) (v : Visit) (w : a.World)
    → ((route a q b v w).2 ≡ w) ⊎ Permit q b v
unfolding route behind_open identify
route-Permit a q b v w = by_open (open_route q b v.looked_at)
  where
    by_open : (o : Option Response) → ((behind_open a q b v w o).2 ≡ w) ⊎ Permit q b v
    by_open (some response) = inl refl
    by_open none = elim (identify-World a q b v w) [
      | inl same ↦ inl same
      | inr (t, c, granted) ↦ inr (Permit-Grant a q b v t c granted)
    ]

-- A request that is not answered before the caller is named (health and metrics are), and whose
-- caller is not, is answered 403, and leaves the metrics, the cached listing and all that is behind
-- `aws` as they were.
pub route-unnamed :
    (a : Aws) (q : Request) (b : Broker) (v : Visit) (w : a.World) (reason : Reason)
    → open_route q b v.looked_at ≡ none
    → caller q b v ≡ err reason
    → let (response, b', w') = route a q b v w in
      (response ≡ error 403 reason) × (b'.metrics ≡ b.metrics) × (b'.listing ≡ b.listing) × (w' ≡ w)
unfolding route behind_open identify caller admit
route-unnamed a q b v w reason o c = rw o (by_subject (gateway_subject q.gateway) c)
  where
    Unnamed : Response × Broker × a.World → Type 0
    Unnamed r =
        (r.0 ≡ error 403 reason) × (r.1.metrics ≡ b.metrics) × (r.1.listing ≡ b.listing) × (r.2 ≡ w)

    by_answer : (r : Result Tenant × Resolver) → r.0 ≡ err reason → Unnamed (admit a q b v w r)
    by_answer (err e, r) h = (ground arith, refl, refl, refl)
    by_answer (ok t, r) h = cc

    by_subject :
        (s : Result (Option Text))
        → (s >>= λ x.
            (Resolver.resolve v.outside b.resolver v.peer (bearer_token q.authorization) x).0)
          ≡ err reason
        → Unnamed (identify a q b v w s)
    by_subject (err e) h = (ground arith, refl, refl, refl)
    by_subject (ok x) h =
        by_answer (Resolver.resolve v.outside b.resolver v.peer (bearer_token q.authorization) x) h
