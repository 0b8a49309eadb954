-- ===== src/Broker/Server/Routes.antt =====
-- `route` and `observability_route` of crates/broker/src/main.rs.
use vaultr.Prelude.{ℕ, ◌&&◌, Option, none, some, if◌then◌else◌}
use vaultr.Text.{Text, chars, text_eq}
use vaultr.Broker.Result.{Result, ok, err, no_route}
use vaultr.Broker.Tenant.{Tenant}
use vaultr.Broker.Resolver
use vaultr.Broker.Resolver.{Resolver}
use vaultr.Broker.Store.{Aws}
use vaultr.Broker.Metrics
use vaultr.Broker.Metrics.{Metrics}
use vaultr.Broker.Http.{
  Method, put, is_get, Request, Response, get, other, plain, error, gateway_subject, bearer_token,
}
use vaultr.Broker.Server.{Broker, Visit, is_seals, seal_path}
use vaultr.Broker.Server.Handlers.{Reply, listing, read_seal, upload}

-- GET /healthz and GET /metrics, which need no identity; none for any other request.
unfoldable pub open_route : Request → Broker → ℕ → Option Response
open_route q b now =
    if is_get q.method && text_eq q.path (chars "/healthz")
    then some (record { status = 200; content = plain (chars "ok") })
    else if is_get q.method && text_eq q.path (chars "/metrics")
    then some (record { status = 200; content = plain (Metrics.render b.metrics now) })
    else none

abbrev answer_or : Option Response → Response → Response
answer_or none r = r
answer_or (some s) r = s

unfoldable pub observability_route : Request → Broker → ℕ → Response
observability_route q b now = answer_or (open_route q b now) (error 404 no_route)

module _ (a : Aws) where
  open a use {World}

  unfoldable pub read_route : Broker → Tenant → World → Option Text → Reply a
  read_route b tenant w none = (error 404 no_route, b, w)
  read_route b tenant w (some key) = read_seal a b tenant key w

  unfoldable pub upload_route : Request → Broker → Visit → Tenant → World → Option Text → Reply a
  upload_route q b v tenant w none = (error 404 no_route, b, w)
  upload_route q b v tenant w (some key) = upload a q b v tenant key w

  -- The routes of a caller that has been named.
  unfoldable pub tenant_route : Method → Request → Broker → Visit → Tenant → World → Reply a
  tenant_route get q b v tenant w =
      if is_seals q.path then listing a b v w else read_route b tenant w (seal_path q.path)
  tenant_route put q b v tenant w = upload_route q b v tenant w (seal_path q.path)
  tenant_route other q b v tenant w = (error 404 no_route, b, w)

  -- What follows `resolver.resolve`: a refusal, or the contact and the tenant's route.
  unfoldable pub admit : Request → Broker → Visit → World → Result Tenant × Resolver → Reply a
  admit q b v w (err reason, r) = (error 403 reason, record b { resolver = r }, w)
  admit q b v w (ok tenant, r) =
      tenant_route q.method q
        (record b { resolver = r; metrics = Metrics.contact b.metrics tenant v.contacted_at }) v
        tenant w

  unfoldable pub identify : Request → Broker → Visit → World → Result (Option Text) → Reply a
  identify q b v w (err reason) = (error 403 reason, b, w)
  identify q b v w (ok subject) =
      admit q b v w
        (Resolver.resolve v.outside b.resolver v.peer (bearer_token q.authorization) subject)

  unfoldable pub behind_open : Request → Broker → Visit → World → Option Response → Reply a
  behind_open q b v w (some response) = (response, b, w)
  behind_open q b v w none = identify q b v w (gateway_subject q.gateway)

  unfoldable pub route : Request → Broker → Visit → World → Reply a
  route q b v w = behind_open q b v w (open_route q b v.looked_at)
