-- ===== src/Identity.antt =====
-- The trusted principal of a request: internal/identity/context.go.
use ani_model_service.Prelude.{
  String, ◌≡◌, ◌↔◌, ◌⊎◌, ap, Bool, true, false, ◌&&◌, ◌||◌, not, ok, err, str_eq, if◌then◌else◌,
  Option, none, some, List, [], ◌∷◌, arith, eq_iff, ◌≢◌,
}
use ani_model_service.Errors.{Res, Error}

pub record Principal : Type 0 where
  pub tenant_id : String
  pub actor : String
  pub workload : String
  pub request_id : String
  pub scopes : List String

abbrev pub missing_principal : Error
missing_principal = Error.message "trusted principal is required"

abbrev pub tenant_mismatch : Error
tenant_mismatch = Error.message "request tenant does not match trusted principal"

-- Principal.Valid
abbrev pub is_valid : Principal → Bool
is_valid p = not (str_eq p.tenant_id "") && (not (str_eq p.actor "") && not (str_eq p.workload ""))

-- FromContext: the context holds a principal, or none.
unfoldable pub from_context : Option Principal → Res Principal
from_context none = err missing_principal
from_context (some p) = if is_valid p then ok p else err missing_principal

-- RequireTenant
unfoldable pub require_tenant : Option Principal → String → Res Principal
require_tenant context tenant = elim (from_context context) [
  | err e ↦ err e
  | ok p ↦
      if not (str_eq tenant "") && not (str_eq tenant p.tenant_id)
      then err tenant_mismatch
      else ok p
]

-- HasScope
unfoldable pub has_scope : List String → String → Bool
has_scope [] scope = false
has_scope (candidate ∷ scopes) scope =
    if str_eq candidate scope || str_eq candidate "*" then true else has_scope scopes scope

-- RequireTenant returns a principal exactly when the context holds it, its tenant, actor and
-- workload are not empty, and the tenant of the request is empty or its own.
pub require_tenant_iff :
    (context : Option Principal) (tenant : String) (p : Principal)
    → (require_tenant context tenant ≡ ok p) ↔ (
        (context ≡ some p)
        × (p.tenant_id ≢ "")
        × (p.actor ≢ "")
        × (p.workload ≢ "")
        × ((tenant ≡ "") ⊎ (tenant ≡ p.tenant_id)))
unfolding require_tenant from_context
require_tenant_iff none tenant p = (λ h. absurd (cc), λ h. absurd (cc))
require_tenant_iff (some q) tenant p = (
  λ h.
      let e : q ≡ p = ground arith in
      (
        ap some e,
        ground (arith, eq_iff p.tenant_id ""),
        ground (arith, eq_iff p.actor ""),
        ground (arith, eq_iff p.workload ""),
        ground (arith, eq_iff tenant "", eq_iff tenant p.tenant_id),
      ),
  λ (c, a, b, w, m).
      let e : q ≡ p = cc in
      rw e (
        ground (
          arith,
          eq_iff p.tenant_id "",
          eq_iff p.actor "",
          eq_iff p.workload "",
          eq_iff tenant "",
          eq_iff tenant p.tenant_id,
        )),
)
