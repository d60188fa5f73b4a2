-- ===== src/Rpc/Metadata.antt =====
-- The header values of a call: singleMetadataValue and singleConsistentMetadataValue of
-- cmd/ani-model-service/rpc_policy.go.
use ani_model_service.Prelude.{
  String, Bool, false, not, ok, err, str_eq, if◌then◌else◌, Option, none, some, List, [], ◌∷◌,
}
use ani_model_service.Errors.{Res, Error}
use ani_model_service.Text.{codes, contains_any, line_breaks, trim_text}
use ani_model_service.Rpc.{Headers, find_entry}

abbrev pub values_or_nil : Option (List String) → List String
values_or_nil none = []
values_or_nil (some values) = values

abbrev pub checked_value : String → Res String
checked_value value =
    if str_eq value ""
    then err (Error.message "must not be empty")
    else if contains_any line_breaks (codes value)
    then err (Error.message "contains a newline")
    else ok value

abbrev pub single_value : List String → Bool → Res String
single_value [] required = if required then err (Error.message "is required") else ok ""
single_value (value ∷ []) required = checked_value (trim_text value)
single_value (value ∷ other ∷ rest) required = err (Error.message "must contain exactly one value")

-- singleMetadataValue
unfoldable pub single_metadata_value : Headers → String → Bool → Res String
single_metadata_value md key required = single_value (values_or_nil (find_entry key md)) required

-- The value after one more key has been looked at.
abbrev pub merged : String → String → Res String
merged value candidate =
    if str_eq candidate ""
    then ok value
    else if str_eq value ""
    then ok candidate
    else if not (str_eq value candidate)
    then err (Error.message "conflict")
    else ok value

abbrev pub value_or_missing : String → Res String
value_or_missing value = if str_eq value "" then err (Error.message "is required") else ok value

unfoldable pub merge_values : Headers → String → List String → Res String
unfolding single_metadata_value
merge_values md value [] = value_or_missing value
merge_values md value (key ∷ keys) = elim (single_metadata_value md key false) [
  | err e ↦ err e
  | ok candidate ↦ elim (merged value candidate) [
    | err e ↦ err e
    | ok next ↦ merge_values md next keys
  ]
]

-- singleConsistentMetadataValue
unfoldable pub single_consistent_metadata_value : Headers → List String → Res String
unfolding merge_values
single_consistent_metadata_value md keys = merge_values md "" keys
