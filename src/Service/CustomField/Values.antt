-- ===== src/Service/CustomField/Values.antt =====
-- internal/service/custom_field.go: the methods on the values of a device, and validateCustomFieldValue.
use rackd.Prelude.{
  ℕ, ◌+◌, Bool, true, false, not, ◌&&◌, none, some, List, [], ◌∷◌, if◌then◌else◌, any, find,
}
use rackd.Text.{Text, codes, ◌==◌}
use rackd.Error.{Result, ok, err, invalid, map_error}
use rackd.Model.Device.{
  Value, text, int, float, CustomFieldDefinition, CustomFieldValue, CustomFieldValueInput,
}
use rackd.Store.{Env, Exec, return, query, ask, ◌>>=◌, ◌>>◌, fail_if}
use rackd.Storage.CustomField.{
  get_custom_field_definition, list_custom_field_definitions, set_custom_field_value,
  get_custom_field_values, delete_custom_field_value,
}
use rackd.Model.CustomField.{text_type, number_type, bool_type, select_type, new_value}
use rackd.Storage.CustomField.View.{
  is_text, is_bool, is_option, is_nil, CustomFieldWithDefinition,
  get_custom_field_values_with_definitions,
}
use rackd.Service.Access.{require_permission}
use rackd.Service.CustomField.{permit, as_not_found, as_invalid_field, on_error}

-- GetValues
unfoldable pub get_values : Env → Text → Exec (List CustomFieldValue)
get_values env device = do permit env (codes "read"); ask (get_custom_field_values device)

-- GetValuesWithDefinitions
unfoldable pub get_values_with_definitions : Env → Text → Exec (List CustomFieldWithDefinition)
get_values_with_definitions env device = do
  permit env (codes "read")
  ask (get_custom_field_values_with_definitions device)

abbrev pub is_number_or_text : Value → Bool
is_number_or_text (int n) = true
is_number_or_text float = true
is_number_or_text (text s) = true
is_number_or_text value = false

-- validateCustomFieldValue, where the text of the error for an option does not show the option
unfoldable pub validate_custom_field_value : CustomFieldDefinition → Value → Result (Unit {0})
validate_custom_field_value d value =
    if is_nil value
    then ok tt
    else if d.type == text_type
    then if is_text value
      then ok tt
      else err (invalid "value" "Expected string value for text field")
    else if d.type == number_type
    then if is_number_or_text value
      then ok tt
      else err (invalid "value" "Expected number value for number field")
    else if d.type == bool_type
    then if is_bool value
      then ok tt
      else err (invalid "value" "Expected boolean value for boolean field")
    else if d.type == select_type
    then if not (is_text value)
      then err (invalid "value" "Expected string value for select field")
      else if is_option value d.options
      then ok tt
      else err (invalid "value" "Invalid option for select field")
    else ok tt

abbrev check_value : CustomFieldDefinition → Value → Exec (Unit {0})
check_value d value s = (validate_custom_field_value d value, s)

-- SetValue
unfoldable pub set_value : Env → Text → CustomFieldValueInput → Exec (Unit {0})
set_value env device input = do
  require_permission env (codes "devices") (codes "update")
  d ← query (λ s. map_error as_invalid_field (get_custom_field_definition input.field_id s))
  check_value d input.value
  set_custom_field_value env (new_value [] device input.field_id d.type input.value)

-- The first loop of SetValues over the definitions of `defMap`; the text of the error for a field does
-- not show its id.
unfoldable pub validate_inputs :
    List CustomFieldDefinition → List CustomFieldValueInput → Result (Unit {0})
validate_inputs defs [] = ok tt
validate_inputs defs (i ∷ inputs) = elim (find (λ d. d.id == i.field_id) defs) [
  | none ↦ err (invalid "field_id" "Invalid field ID: ")
  | some d ↦ elim (validate_custom_field_value d i.value) [
    | err e ↦ err e
    | ok u ↦ validate_inputs defs inputs
  ]
]

-- The body of the second loop, with the UUID of a new row
unfoldable pub set_input :
    Env → Text → Text → List CustomFieldDefinition → CustomFieldValueInput → Exec (Unit {0})
set_input env uuid device defs i s = elim (find (λ d. d.id == i.field_id) defs) [
  | none ↦ (ok tt, s)
  | some d ↦
      set_custom_field_value (record env { uuid = uuid })
        (new_value [] device i.field_id d.type i.value) s
]

-- The second loop, in which each field has its definition
unfoldable pub set_inputs :
    Env → ℕ → Text → List CustomFieldDefinition → List CustomFieldValueInput → Exec (Unit {0})
set_inputs env n device defs [] = return tt
set_inputs env n device defs (i ∷ inputs) =
    set_input env (env.row_uuid n) device defs i >> set_inputs env (n + 1) device defs inputs

-- SetValues, with the definitions of one page
unfoldable pub set_values : Env → Text → List CustomFieldValueInput → Exec (Unit {0})
set_values env device inputs = do
  require_permission env (codes "devices") (codes "update")
  defs ← ask (list_custom_field_definitions none)
  query (λ s. validate_inputs defs inputs)
  set_inputs env 0 device defs inputs

-- DeleteValue
unfoldable pub delete_value : Env → Text → Text → Exec (Unit {0})
delete_value env device field = do
  require_permission env (codes "devices") (codes "update")
  on_error as_not_found (delete_custom_field_value device field)

abbrev missing : List CustomFieldValueInput → CustomFieldDefinition → Bool
missing values d = d.required && not (any (λ v. v.field_id == d.id) values)

-- ValidateRequiredFields, which nothing calls; the names of the fields are not in the text of the error.
unfoldable pub validate_required_fields : List CustomFieldValueInput → Exec (Unit {0})
validate_required_fields values = do
  defs ← ask (list_custom_field_definitions none)
  fail_if (any (missing values) defs) (invalid "custom_fields" "Missing required fields: ")
