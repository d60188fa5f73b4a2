-- ===== src/Model.antt =====
-- internal/biz/model/model.go: the model version, its artifact and their validation.
pub mod Validation
use ani_model_service.Prelude.{
  ℕ, String, Bool, true, false, ◌&&◌, ◌||◌, not, ltb, ◌==◌, str_eq, if◌then◌else◌, List, [], ◌∷◌,
  any, all, Result, ok, err, ℤ, is_negative, length, Option, none, some,
}
use ani_model_service.Errors.{Error, Res}
use ani_model_service.Database.Rows.{VersionStatus, is_ready}
use ani_model_service.Text.{
  codes, byte_length, trim_func, trim_space, same, is_blank, contains_any, line_breaks, is_digit,
  is_lower, is_sha256,
}

-- Version
pub record Version : Type 0 where
  pub tenant_id : String
  pub id : String
  pub model_id : String
  pub external_model_id : String
  pub version : String
  pub format : String
  pub status : VersionStatus
  pub artifact_provider : String
  pub artifact_reference : String
  pub artifact_sha256 : String
  pub engine_type : String
  pub engine_image : String
  pub startup_command : String
  pub recommended_image_id : String
  pub recommended_image_scope : String
  pub startup_args : List String
  pub idempotency_key : String
  pub size_bytes : ℤ
  pub is_encrypted : Bool
  pub encrypt_algo : String
  pub encrypt_hint : String
  pub created_at : ℕ

-- Artifact
pub record Artifact : Type 0 where
  pub tenant_id : String
  pub id : String
  pub model_version_id : String
  pub provider : String
  pub reference : String
  pub format : String
  pub sha256 : String
  pub size_bytes : ℤ
  pub is_encrypted : Bool
  pub encrypt_algo : String

abbrev pub is_format : String → Bool
is_format f = str_eq f "safetensors" || (str_eq f "gguf" || str_eq f "pytorch")

-- Artifact.Validate
unfoldable pub validate_artifact : Artifact → Res (Unit {0})
validate_artifact a =
    if str_eq a.tenant_id ""
      || (str_eq a.id ""
          || (str_eq a.model_version_id ""
              || (str_eq a.provider ""
                  || (str_eq a.reference ""
                      || (not (is_sha256 a.sha256) || is_negative a.size_bytes)))))
    then err Error.invalid_model_version
    else if not (is_format a.format)
    then err Error.invalid_model_version
    else ok tt

-- r == '-' || r == '.' || r >= 'a' && r <= 'z' || r >= '0' && r <= '9'
abbrev pub is_name_char : ℕ → Bool
is_name_char c = c == b'-' || (c == b'.' || (is_lower c || is_digit c))

unfoldable pub check_name_chars : List ℕ → Res (Unit {0})
check_name_chars [] = ok tt
check_name_chars (c ∷ s) =
    if not (is_name_char c) then err Error.invalid_model else check_name_chars s

unfoldable pub validate_model_name : String → Res (Unit {0})
unfolding check_name_chars trim_func
validate_model_name name =
    if byte_length name == 0
      || (ltb 63 (byte_length name)
          || not (same (trim_func (λ c. c == b' ') (codes name)) (codes name)))
    then err Error.invalid_model
    else check_name_chars (codes name)

unfoldable pub validate_recommended_image : String → String → Res (Unit {0})
unfolding is_blank trim_space
validate_recommended_image id scope =
    if str_eq id "" && str_eq scope ""
    then ok tt
    else if is_blank id
        || (not (same (trim_space id) (codes id))
            || (not (str_eq scope "platform") && not (str_eq scope "tenant")))
    then err Error.invalid_model_version
    else ok tt

-- Version.Validate
unfoldable pub validate_version : Version → Res (Unit {0})
validate_version v =
    if str_eq v.tenant_id "" || (str_eq v.id "" || (str_eq v.model_id "" || str_eq v.version ""))
    then err Error.invalid_model_version
    else if not (is_format v.format)
    then err Error.invalid_model_version
    else validate_recommended_image v.recommended_image_id v.recommended_image_scope

-- Version.DeploymentInput
unfoldable pub deployment_input : Version → Res (Unit {0})
unfolding validate_version
deployment_input v = elim (validate_version v) [
  | err e ↦ err e
  | ok _ ↦
      if not (is_ready v.status)
        || (str_eq v.artifact_provider ""
            || (str_eq v.artifact_reference "" || not (is_sha256 v.artifact_sha256)))
      then err Error.model_not_ready
      else ok tt
]

abbrev pub is_nil : List String → Bool
is_nil [] = true
is_nil (x ∷ xs) = false

unfoldable pub validate_engine : String → String → List String → Res (Unit {0})
unfolding is_blank
validate_engine engine command args =
    if str_eq engine "" && (str_eq command "" && is_nil args)
    then ok tt
    else if is_blank engine
    then err Error.invalid_model_version
    else if is_blank command || contains_any line_breaks (codes command)
    then err Error.invalid_model_version
    else ok tt

unfoldable pub validate_engine_defaults : String → String → String → Res (Unit {0})
unfolding is_blank
validate_engine_defaults engine image command =
    if is_blank engine
      || (is_blank image || (is_blank command || contains_any line_breaks (codes command)))
    then err Error.invalid_model_version
    else ok tt

-- BundleImport
pub record BundleImport : Type 0 where
  pub tenant_id : String
  pub idempotency_key : String
  pub name : String
  pub display_name : String
  pub description : String
  pub external_model_id : String
  pub capabilities : List String
  pub version : String
  pub format : String
  pub engine_type : String
  pub engine_image : String
  pub startup_command : String
  pub provider : String
  pub repo_id : String
  pub revision : String
  pub recommended_image_id : String
  pub recommended_image_scope : String

abbrev pub fails : Res (Unit {0}) → Bool
fails (ok _) = false
fails (err e) = true

-- BundleImport.Validate
unfoldable pub validate_bundle : BundleImport → Res (Unit {0})
unfolding is_blank
validate_bundle b =
    if str_eq b.tenant_id ""
      || (str_eq b.idempotency_key ""
          || (str_eq b.repo_id "" || fails (validate_model_name b.name)))
    then err Error.invalid_bundle_import
    else if not (str_eq b.provider "huggingface") && not (str_eq b.provider "modelscope")
    then err Error.invalid_bundle_import
    else if is_nil b.capabilities || any is_blank b.capabilities
    then err Error.invalid_bundle_import
    else if is_blank b.version
        || (is_blank b.format
            || fails (validate_engine_defaults b.engine_type b.engine_image b.startup_command))
    then err Error.invalid_bundle_import
    else if fails (validate_recommended_image b.recommended_image_id b.recommended_image_scope)
    then err Error.invalid_bundle_import
    else ok tt
