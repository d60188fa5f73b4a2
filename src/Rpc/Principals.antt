-- ===== src/Rpc/Principals.antt =====
-- The principal of a call: ModelPrincipalMiddleware of cmd/ani-model-service/rpc_policy.go.
use ani_model_service.Prelude.{
  String, Bool, true, false, not, ok, err, Result, str_eq, if◌then◌else◌, Option, none, some, [],
  ◌∷◌,
}
use ani_model_service.Errors.{Res, Error}
use ani_model_service.Text.{codes, has_prefix}
use ani_model_service.Identity.{Principal}
use ani_model_service.Rpc.{
  Call, Headers, Handler, Denial, ValidatedPolicy, extract_client_identity, is_health,
  rpc_policy_middleware, governance_client_identity, modeldev_client_identity,
  inference_client_identity,
}
use ani_model_service.Rpc.Metadata.{single_metadata_value, single_consistent_metadata_value}

abbrev pub principal_of : String → String → String → String → Principal
principal_of tenant actor workload request = record {
  tenant_id = tenant;
  actor = actor;
  workload = workload;
  request_id = request;
  scopes = [];
}

-- The tenant, the actor with its prefix, and the request id: the body that modeldevPrincipal and
-- governancePrincipal share.
abbrev pub asserted : String → String → Headers → Res Principal
asserted prefix workload md = elim (single_metadata_value md "x-ani-tenant-id" true) [
  | err e ↦ err e
  | ok tenant ↦ elim (single_metadata_value md "x-ani-actor" true) [
    | err e ↦ err e
    | ok actor ↦
        if not (has_prefix (codes prefix) (codes actor))
        then err (Error.message "actor prefix required")
        else elim (single_metadata_value md "x-ani-request-id" true) [
          | err e ↦ err e
          | ok request ↦ ok (principal_of tenant actor workload request)
        ]
  ]
]

-- metadata.FromIncomingContext
abbrev pub with_headers : (Headers → Res Principal) → Option Headers → Res Principal
with_headers f none = err (Error.message "incoming metadata unavailable")
with_headers f (some md) = f md

unfoldable pub modeldev_principal : Option Headers → Res Principal
modeldev_principal = with_headers (asserted "modeldev:" modeldev_client_identity)

unfoldable pub governance_principal : Option Headers → Res Principal
governance_principal = with_headers (asserted "governance:" governance_client_identity)

abbrev pub inferred : Headers → Res Principal
inferred md = elim (single_consistent_metadata_value md ("x-ani-tenant-id" ∷ "x-tenant-id" ∷ [])) [
  | err e ↦ err e
  | ok tenant ↦ elim (single_metadata_value md "x-ani-request-id" true) [
    | err e ↦ err e
    | ok request ↦ ok (principal_of tenant "inference:service" inference_client_identity request)
  ]
]

unfoldable pub inference_principal : Option Headers → Res Principal
inference_principal = with_headers inferred

module _ {A : Type 0} (next : Handler A) (call : Call) where
  -- identity.WithPrincipal
  abbrev pub bound : Res Principal → Result Denial A
  bound (err e) = err Denial.unauthenticated
  bound (ok p) = next (record call { principal = some p })

  abbrev pub identified : Option String → Result Denial A
  identified none = err Denial.unauthenticated
  identified (some client) =
      if not (str_eq client governance_client_identity)
      then (if str_eq client modeldev_client_identity
          then bound (modeldev_principal call.headers)
          else if str_eq client inference_client_identity
          then bound (inference_principal call.headers)
          else next call)
      else bound (governance_principal call.headers)

  abbrev pub is_health_call : Option String → Bool
  is_health_call none = false
  is_health_call (some method) = is_health method

-- ModelPrincipalMiddleware
unfoldable pub model_principal_middleware : {A : Type 0} → Handler A → Handler A
unfolding is_health extract_client_identity modeldev_principal inference_principal
    governance_principal
model_principal_middleware next call =
    if is_health_call next call call.operation
    then next call
    else identified next call (extract_client_identity call.peer)

-- The two as buildGRPCServer chains them, the policy first.
unfoldable pub guarded : {A : Type 0} → ValidatedPolicy → Handler A → Handler A
unfolding rpc_policy_middleware model_principal_middleware
guarded policy next = rpc_policy_middleware policy (model_principal_middleware next)
