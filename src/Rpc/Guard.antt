-- ===== src/Rpc/Guard.antt =====
-- What a call has passed when it reaches its handler: RPCPolicyMiddleware and
-- ModelPrincipalMiddleware of cmd/ani-model-service/rpc_policy.go, in the order of app.go.
use ani_model_service.Prelude.{
  String, true, false, any, ◌≡◌, ◌≢◌, ◌⊎◌, inl, inr, refl, ok, err, Option, none, some, List, [],
  ◌∷◌, arith, eq_iff, str_eq, Bool-cases,
}
use ani_model_service.Errors.{Res}
use ani_model_service.Text.{trim_text}
use ani_model_service.Identity.{Principal, from_context}
use ani_model_service.Rpc.{
  Call, Headers, Handler, find_entry, extract_client_identity, is_health, is_allowed,
  is_allowed_validated, model_service_policy, rpc_policy_middleware, governance_client_identity,
  modeldev_client_identity, inference_client_identity, governance_methods, modeldev_methods,
  inference_methods,
}
use ani_model_service.Rpc.Metadata.{
  single_metadata_value, single_value, values_or_nil, checked_value,
  single_consistent_metadata_value,
}
use ani_model_service.Rpc.Consistent.{Present, single_consistent_iff}
use ani_model_service.Rpc.Principals.{
  principal_of, asserted, inferred, with_headers, bound, identified, guarded,
  model_principal_middleware, governance_principal, modeldev_principal, inference_principal,
}

abbrev pub IsOneOf : String → List String → Type 0
IsOneOf m [] = ⊥
IsOneOf m (x ∷ xs) = (x ≡ m) ⊎ IsOneOf m xs

-- The method is in the table of the client.
abbrev pub IsListed : String → String → Type 0
IsListed client method =
    ((client ≡ inference_client_identity) × IsOneOf method inference_methods)
    ⊎ (((client ≡ modeldev_client_identity) × IsOneOf method modeldev_methods)
        ⊎ ((client ≡ governance_client_identity) × IsOneOf method governance_methods))

abbrev pub IsHealth : String → Type 0
IsHealth method =
    (method ≡ "/grpc.health.v1.Health/Check") ⊎ (method ≡ "/grpc.health.v1.Health/Watch")

any-IsOneOf : (m : String) (xs : List String) → any (λ x. str_eq x m) xs ≡ true → IsOneOf m xs
any-IsOneOf m [] h = absurd (cc)
any-IsOneOf m (x ∷ xs) h = ground (arith, eq_iff x m, any-IsOneOf m xs)

allowed-IsListed :
    (client method : String)
    → is_allowed_validated model_service_policy client method ≡ true
    → IsListed client method
unfolding is_allowed_validated is_allowed model_service_policy
allowed-IsListed client method h = ground (
  arith,
  eq_iff inference_client_identity client,
  eq_iff modeldev_client_identity client,
  eq_iff governance_client_identity client,
  any-IsOneOf method inference_methods,
  any-IsOneOf method modeldev_methods,
  any-IsOneOf method governance_methods,
)

is_health-IsHealth : (method : String) → is_health method ≡ true → IsHealth method
unfolding is_health
is_health-IsHealth method h = ground (
  arith,
  eq_iff method "/grpc.health.v1.Health/Check",
  eq_iff method "/grpc.health.v1.Health/Watch",
)

checked_value_some : (value v : String) → checked_value value ≡ ok v → v ≢ ""
checked_value_some value v h = ground (arith, eq_iff value "")

required_value :
    (md : Headers) (key v : String)
    → single_metadata_value md key true ≡ ok v
    → (v ≢ "") × (single_metadata_value md key false ≡ ok v)
unfolding single_metadata_value
required_value md key v h = go (values_or_nil (find_entry key md)) h
  where
    go :
        (values : List String)
        → single_value values true ≡ ok v
        → (v ≢ "") × (single_value values false ≡ ok v)
    go [] k = absurd (cc)
    go (x ∷ []) k = (checked_value_some (trim_text x) v k, k)
    go (x ∷ y ∷ rest) k = absurd (cc)

res_inv :
    {A B : Type 0} (r : Res A) (k : A → Res B) (b : B)
    → (elim r [ err e ↦ err e | ok a ↦ k a ]) ≡ ok b
    → (a : A) × (r ≡ ok a) × (k a ≡ ok b)
res_inv (err e) k b h = absurd (cc)
res_inv (ok a) k b h = (a, refl, h)

valid_principal :
    (tenant actor workload request : String)
    → tenant ≢ ""
    → actor ≢ ""
    → workload ≢ ""
    → from_context (some (principal_of tenant actor workload request))
      ≡ ok (principal_of tenant actor workload request)
unfolding from_context
valid_principal tenant actor workload request t a w =
    ground (arith, eq_iff tenant "", eq_iff actor "", eq_iff workload "")

-- The principal is the caller's: its workload is the identity of the certificate, FromContext takes
-- it, and its tenant is a value of the tenant headers.
abbrev pub Bound : Option Headers → String → Principal → Type 0
Bound headers client p =
    (p.workload ≡ client)
    × (from_context (some p) ≡ ok p)
    × (md : Headers) × (headers ≡ some md)
    × Present md p.tenant_id ("x-ani-tenant-id" ∷ "x-tenant-id" ∷ [])

asserted-Bound :
    (prefix workload : String) (headers : Option Headers) (p : Principal)
    → workload ≢ ""
    → with_headers (asserted prefix workload) headers ≡ ok p
    → Bound headers workload p
asserted-Bound prefix workload none p w h = absurd (cc)
asserted-Bound prefix workload (some md) p w h =
    let (tenant, t, h₁) = res_inv (single_metadata_value md "x-ani-tenant-id" true) _ p h in
    let (actor, a, h₂) = res_inv (single_metadata_value md "x-ani-actor" true) _ p h₁ in
    let same : p ≡ principal_of tenant actor workload p.request_id = ground arith in
    let (some_tenant, t') = required_value md "x-ani-tenant-id" tenant t in
    let (some_actor, a') = required_value md "x-ani-actor" actor a in
    rw same (
      refl,
      valid_principal tenant actor workload p.request_id some_tenant some_actor w,
      md,
      refl,
      inl t',
    )

inferred-Bound :
    (headers : Option Headers) (p : Principal)
    → with_headers inferred headers ≡ ok p
    → Bound headers inference_client_identity p
inferred-Bound none p h = absurd (cc)
inferred-Bound (some md) p h =
    let keys : List String = "x-ani-tenant-id" ∷ "x-tenant-id" ∷ [] in
    let (tenant, t, h₁) = res_inv (single_consistent_metadata_value md keys) _ p h in
    let (request, r, h₂) = res_inv (single_metadata_value md "x-ani-request-id" true) _ p h₁ in
    let same : p ≡ principal_of tenant "inference:service" inference_client_identity request =
      ground arith in
    let (some_tenant, agree, present) = (single_consistent_iff md keys tenant).0 t in
    rw same (
      refl,
      valid_principal tenant "inference:service" inference_client_identity request some_tenant
          (ground (arith, eq_iff "inference:service" ""))
          (ground (arith, eq_iff inference_client_identity "")),
      md,
      refl,
      present,
    )

module _ {A : Type 0} (next : Handler A) (call : Call) (a : A) where
  -- The handler has returned `a` with the client's principal bound.
  abbrev pub Reached : String → Type 0
  Reached client =
      (p : Principal) × Bound call.headers client p
      × (next (record call { principal = some p }) ≡ ok a)

  bound_inv :
      (r : Res Principal)
      → bound next call r ≡ ok a
      → (p : Principal) × (r ≡ ok p) × (next (record call { principal = some p }) ≡ ok a)
  bound_inv (err e) h = absurd (cc)
  bound_inv (ok p) h = (p, refl, h)

  -- A listed client has one of the three identities, so its principal is always bound.
  identified-Reached :
      (client method : String)
      → IsListed client method
      → identified next call (some client) ≡ ok a
      → Reached client
  unfolding modeldev_principal governance_principal inference_principal
  identified-Reached client method (inl (e, m)) h =
      let (p, q, r) = bound_inv (inference_principal call.headers) (rw e at h) in
      (p, rw e (inferred-Bound call.headers p q), r)
  identified-Reached client method (inr (inl (e, m))) h =
      let (p, q, r) = bound_inv (modeldev_principal call.headers) (rw e at h) in
      (
        p,
        rw e (
            asserted-Bound "modeldev:" modeldev_client_identity call.headers p
              (ground (arith, eq_iff modeldev_client_identity "")) q),
        r,
      )
  identified-Reached client method (inr (inr (e, m))) h =
      let (p, q, r) = bound_inv (governance_principal call.headers) (rw e at h) in
      (
        p,
        rw e (
            asserted-Bound "governance:" governance_client_identity call.headers p
              (ground (arith, eq_iff governance_client_identity "")) q),
        r,
      )

-- The handler has returned `a` for a health probe, or for a listed method with the principal bound.
abbrev pub Passed : {A : Type 0} → Handler A → Call → A → Type 0
Passed next call a =
    (method : String) × (call.operation ≡ some method)
    × (client : String) × (extract_client_identity call.peer ≡ some client)
    × ((IsHealth method × (next call ≡ ok a))
        ⊎ (IsListed client method × Reached next call a client))

-- Behind RPCPolicyMiddleware and ModelPrincipalMiddleware with the policy of the service, a
-- handler returns a value only for a call with a method and the identity of a client certificate,
-- and then for a health probe, or for a method in the table of one of the three clients, with a
-- principal bound whose workload is that client, which FromContext takes, and whose tenant is the
-- value of a tenant header.
pub guarded_ok :
    {A : Type 0} (next : Handler A) (call : Call) (a : A)
    → guarded model_service_policy next call ≡ ok a
    → Passed next call a
unfolding guarded rpc_policy_middleware model_principal_middleware
guarded_ok next call a h = go call.operation refl (extract_client_identity call.peer) refl
  where
    go :
        (o : Option String)
        → call.operation ≡ o
        → (c : Option String) → extract_client_identity call.peer ≡ c
        → Passed next call a
    go none o c i = ground arith
    go (some method) o none i = ground arith
    go (some method) o (some client) i = elim (Bool-cases (is_health method)) [
      | inl e ↦ (method, o, client, i, inl (is_health-IsHealth method e, ground arith))
      | inr e ↦
          let allowed : is_allowed_validated model_service_policy client method ≡ true =
            ground arith in
          let listed = allowed-IsListed client method allowed in
          let reached : identified next call (some client) ≡ ok a = ground arith in
          (
            method,
            o,
            client,
            i,
            inr (listed, identified-Reached next call a client method listed reached),
          )
    ]
