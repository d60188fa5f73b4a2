-- ===== src/Rpc.antt =====
-- The authorisation of RPC calls: cmd/ani-model-service/rpc_policy.go, with clientDNSIdentity of
-- grpc_tls.go. The certificates that the TLS library has verified are data of the call.
pub mod Metadata
pub mod Consistent
pub mod Principals
pub mod Guard
use ani_model_service.Prelude.{
  ℕ, String, Bool, true, false, ◌&&◌, ◌||◌, not, ok, err, Result, ltb, ◌==◌, str_eq, if◌then◌else◌,
  Option, none, some, List, [], ◌∷◌, any, length,
}
use ani_model_service.Text.{codes, contains_any, has_prefix, is_blank, line_breaks, trim_text}
use ani_model_service.Identity.{Principal}

-- codes.Internal, codes.Unauthenticated and codes.PermissionDenied of a refused call
pub data Denial : Type 0 where
  internal unauthenticated permission_denied : Denial

pub record Certificate : Type 0 where
  pub dns_names : List String
  pub uris : List String
  pub ip_addresses : List String
  pub email_addresses : List String

-- credentials.TLSInfo. A nil certificate is none.
pub record TlsInfo : Type 0 where
  pub version : ℕ
  pub verified_chains : List (List (Option Certificate))
  pub peer_certificates : List (Option Certificate)

-- What peer.FromContext finds: nothing, another kind of connection, or TLS.
pub data Peer : Type 0 where
  no_peer not_tls : Peer
  tls : TlsInfo → Peer

-- metadata.MD under its lower-case keys
abbrev pub Headers : Type 0
Headers = List (String × List String)

-- The context of a call: the operation of the server transport, the peer, the incoming metadata
-- and the principal that has been bound to it.
pub record Call : Type 0 where
  pub operation : Option String
  pub peer : Peer
  pub headers : Option Headers
  pub principal : Option Principal

abbrev pub version_tls13 : ℕ
version_tls13 = 0x0304

abbrev pub governance_client_identity : String
governance_client_identity = "ani-governance"

abbrev pub modeldev_client_identity : String
modeldev_client_identity = "ani-modeldev-service"

abbrev pub inference_client_identity : String
inference_client_identity = "ani-inference.ani.internal"

-- The characters * : / \ space, tab, CR and LF
abbrev pub bad_name_chars : List ℕ
bad_name_chars = codes "*:/\\ \t\r\n"

abbrev pub name_or_none : String → Option String
name_or_none name =
    if is_blank name || contains_any bad_name_chars (codes name) then none else some name

abbrev pub is_nil {ℓ} : {A : Type ℓ} → List A → Bool
is_nil [] = true
is_nil (x ∷ xs) = false

abbrev pub sole_name : Certificate → List String → Option String
sole_name c (name ∷ []) =
    if is_nil c.uris && (is_nil c.ip_addresses && is_nil c.email_addresses)
    then name_or_none name
    else none
sole_name c _ = none

-- clientDNSIdentity; none is an error.
abbrev pub client_dns_identity : Option Certificate → Option String
client_dns_identity none = none
client_dns_identity (some c) = sole_name c c.dns_names

abbrev pub chain_identity : List (List (Option Certificate)) → Option String
chain_identity ((leaf ∷ chain) ∷ chains) = client_dns_identity leaf
chain_identity _ = none

-- extractClientIdentity
unfoldable pub extract_client_identity : Peer → Option String
extract_client_identity Peer.no_peer = none
extract_client_identity Peer.not_tls = none
extract_client_identity (Peer.tls t) =
    if ltb t.version version_tls13
    then none
    else if is_nil t.peer_certificates
    then none
    else chain_identity t.verified_chains

abbrev pub Policy : Type 0
Policy = List (String × List String)

abbrev pub find_entry {ℓ} : {A : Type ℓ} → String → List (String × A) → Option A
find_entry key [] = none
find_entry key ((k, a) ∷ rest) = if str_eq k key then some a else find_entry key rest

-- StaticRPCPolicy.IsAllowed
abbrev pub has_method : String → Option (List String) → Bool
has_method method none = false
has_method method (some methods) = any (λ m. str_eq m method) methods

unfoldable pub is_allowed : Policy → String → String → Bool
is_allowed policy client method = has_method method (find_entry client policy)

-- ValidatedPolicy.IsAllowed: the identities that are expected come first.
pub record ValidatedPolicy : Type 0 where
  pub underlying : Policy
  pub expected_identities : List (String × String)

abbrev pub is_expected : Option String → Bool
is_expected none = false
is_expected (some service) = true

unfoldable pub is_allowed_validated : ValidatedPolicy → String → String → Bool
unfolding is_allowed
is_allowed_validated v client method =
    if not (is_expected (find_entry client v.expected_identities))
    then false
    else is_allowed v.underlying client method

abbrev pub inference_methods : List String
inference_methods =
    "/model.v1.ModelService/GetModel" ∷ "/model.v1.ModelService/GetModelVersion"
    ∷ "/model.v1.ModelService/GetModelDownloadURL" ∷ []

abbrev pub modeldev_methods : List String
modeldev_methods =
    "/model.v1.ModelService/ResolveFinetuningFacts"
    ∷ "/model.v1.ModelService/GetTrainedArtifactRegistration"
    ∷ "/model.v1.ModelService/GetTrainedArtifactUploadURL"
    ∷ "/model.v1.ModelService/PrepareTrainedArtifact"
    ∷ "/model.v1.ModelService/CompleteTrainedArtifact"
    ∷ "/model.v1.ModelService/AbortTrainedArtifact" ∷ []

abbrev pub governance_methods : List String
governance_methods =
    "/model.v1.ModelService/CreateModel" ∷ "/model.v1.ModelService/GetModel"
    ∷ "/model.v1.ModelService/ListModels" ∷ "/model.v1.ModelService/DeleteModel"
    ∷ "/model.v1.ModelService/GetModelVersion" ∷ "/model.v1.ModelService/ListModelVersions"
    ∷ "/model.v1.ModelService/ListModelOperations" ∷ "/model.v1.ModelService/DeleteModelVersion"
    ∷ "/model.v1.ModelService/CreateModelVersion" ∷ "/model.v1.ModelService/GetUploadURL"
    ∷ "/model.v1.ModelService/ImportModel" ∷ "/model.v1.ModelService/ImportModelBundle"
    ∷ "/model.v1.ModelService/GetImportTask" ∷ "/model.v1.ModelService/GetImportTaskLogs"
    ∷ "/model.v1.ModelService/RetryImportTask" ∷ "/model.v1.ModelService/GetModelDownloadURL"
    ∷ "/model.v1.ModelService/SearchExternalModels"
    ∷ "/model.v1.ModelService/PrepareTrainedArtifact"
    ∷ "/model.v1.ModelService/CompleteTrainedArtifact"
    ∷ "/model.v1.ModelService/AbortTrainedArtifact" ∷ []

-- ModelServicePolicy
unfoldable pub model_service_policy : ValidatedPolicy
model_service_policy = record {
  underlying =
      (inference_client_identity, inference_methods)
      ∷ (modeldev_client_identity, modeldev_methods)
      ∷ (governance_client_identity, governance_methods)
      ∷ [];
  expected_identities =
      (inference_client_identity, "Inference Service")
      ∷ (governance_client_identity, "Governance Service")
      ∷ (modeldev_client_identity, "ModelDev Service")
      ∷ [];
}

abbrev pub Handler : Type 0 → Type 0
Handler A = Call → Result Denial A

unfoldable pub is_health : String → Bool
is_health method =
    str_eq method "/grpc.health.v1.Health/Check" || str_eq method "/grpc.health.v1.Health/Watch"

module _ {A : Type 0} where
  abbrev pub authorised :
      ValidatedPolicy → Handler A → Call → String → Option String → Result Denial A
  authorised policy next call method none = err Denial.unauthenticated
  authorised policy next call method (some client) =
      if is_health method
      then next call
      else if not (is_allowed_validated policy client method)
      then err Denial.permission_denied
      else next call

  abbrev pub policed : ValidatedPolicy → Handler A → Call → Option String → Result Denial A
  policed policy next call none = err Denial.internal
  policed policy next call (some method) =
      authorised policy next call method (extract_client_identity call.peer)

  -- RPCPolicyMiddleware
  unfoldable pub rpc_policy_middleware : ValidatedPolicy → Handler A → Handler A
  unfolding is_health is_allowed_validated extract_client_identity
  rpc_policy_middleware policy next call = policed policy next call call.operation
