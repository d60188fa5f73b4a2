-- ===== src/Tests/Rpc.antt =====
-- A call of the governance service and the tenant headers of the inference service
-- (cmd/ani-model-service/rpc_policy.go).
use ani_model_service.Prelude.{String, ◌≡◌, ◌≢◌, ◌↔◌, refl, ok, err, All, none, some, [], ◌∷◌, List}
use ani_model_service.Text.{trim_text, trim_start, trim_end, is_space}
use ani_model_service.Rpc.{
  Call, Certificate, Peer, Headers, Handler, Denial, model_service_policy, is_health, is_allowed,
  is_allowed_validated, extract_client_identity, rpc_policy_middleware,
}
use ani_model_service.Text
use ani_model_service.Rpc.Metadata.{single_consistent_metadata_value, single_metadata_value}
use ani_model_service.Rpc.Consistent.{Agrees, Present, single_consistent_iff}
use ani_model_service.Rpc.Principals.{guarded, model_principal_middleware, governance_principal}
use ani_model_service.Rpc.Guard.{Passed, guarded_ok}

abbrev governance : Certificate
governance = record {
  dns_names = "ani-governance" ∷ [];
  uris = [];
  ip_addresses = [];
  email_addresses = [];
}

abbrev headers : Headers
headers =
    ("x-ani-tenant-id", " tenant " ∷ [])
    ∷ ("x-ani-actor", "governance:alice" ∷ [])
    ∷ ("x-ani-request-id", "7" ∷ [])
    ∷ []

abbrev call : String → Call
call method = record {
  operation = some method;
  peer = Peer.tls (record {
    version = 0x0304;
    verified_chains = (some governance ∷ []) ∷ [];
    peer_certificates = some governance ∷ [];
  });
  headers = some headers;
  principal = none;
}

-- A handler that answers with the tenant that is bound.
abbrev tenant_of : Handler String
tenant_of c = elim c.principal [ none ↦ ok "" | some p ↦ ok p.tenant_id ]

guarded_deny :
    guarded model_service_policy tenant_of (call "/model.v1.ModelService/ResolveFinetuningFacts")
    ≡ err Denial.permission_denied
unfolding guarded rpc_policy_middleware model_principal_middleware is_health is_allowed_validated
    is_allowed model_service_policy extract_client_identity Text.is_blank Text.trim_space
    Text.trim_func Text.trim_left is_space
guarded_deny = refl

guarded_ok_example : Passed tenant_of (call "/model.v1.ModelService/DeleteModel") "tenant"
unfolding guarded rpc_policy_middleware model_principal_middleware is_health is_allowed_validated
    is_allowed model_service_policy extract_client_identity Text.is_blank Text.trim_space
    Text.trim_func Text.trim_left is_space governance_principal single_metadata_value trim_text
    trim_start trim_end Text.has_prefix
guarded_ok_example = guarded_ok tenant_of (call "/model.v1.ModelService/DeleteModel") "tenant" refl

abbrev tenant : String
tenant = "tenant"

abbrev tenant_keys : List String
tenant_keys = "x-ani-tenant-id" ∷ "x-tenant-id" ∷ []

single_consistent_iff_example :
    (single_consistent_metadata_value headers tenant_keys ≡ ok tenant)
    ↔ ((tenant ≢ "") × All (Agrees headers tenant) tenant_keys × Present headers tenant tenant_keys)
single_consistent_iff_example = single_consistent_iff headers tenant_keys tenant
