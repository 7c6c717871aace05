-- ===== src/Storage/CustomField/View.antt =====
-- internal/storage/custom_field_sqlite.go: the values of a device with their definitions, and the validation of a value.
use rackd.Prelude.{
  Bool, true, false, not, ◌||◌, none, some, List, [], ◌∷◌, if◌then◌else◌, any, find,
}
use rackd.Text.{Text, ◌==◌, is_empty}
use rackd.Error.{Result, ok, err, message}
use rackd.Model.Device.{Value, nil, text, int, float, bool, CustomFieldDefinition, CustomFieldValue}
use rackd.Store.{Store}
use rackd.Storage.CustomField.{get_custom_field_definition, by_name, is_value}
use rackd.Model.CustomField.{text_type, number_type, bool_type, select_type, get_value}

-- model.CustomFieldWithDefinition
pub record CustomFieldWithDefinition : Type 0 where
  pub definition : CustomFieldDefinition
  pub value : Value

abbrev pub with_value :
    Text → List CustomFieldValue → List CustomFieldDefinition → List CustomFieldWithDefinition
with_value device values [] = []
with_value device values (d ∷ defs) =
    let rest : List CustomFieldWithDefinition = with_value device values defs in
    elim (find (is_value device d.id) values) [
      | none ↦ rest
      | some v ↦
          if is_empty v.id
          then rest
          else record { definition = d; value = get_value d.type v } ∷ rest
    ]

-- GetCustomFieldValuesWithDefinitions
unfoldable pub get_custom_field_values_with_definitions :
    Text → Store → List CustomFieldWithDefinition
get_custom_field_values_with_definitions device s =
    with_value device s.custom_field_values (by_name s.custom_field_definitions)

abbrev pub is_option : Value → List Text → Bool
is_option (text s) options = any (λ o. o == s) options
is_option value options = false

abbrev pub is_number : Value → Bool
is_number (int n) = true
is_number float = true
is_number value = false

abbrev pub is_bool : Value → Bool
is_bool (bool b) = true
is_bool value = false

abbrev pub is_text : Value → Bool
is_text (text s) = true
is_text value = false

abbrev pub is_nil : Value → Bool
is_nil nil = true
is_nil value = false

-- ValidateCustomFieldValue of the storage
unfoldable pub validate_stored_value : Text → Value → Store → Result (Unit {0})
validate_stored_value field value s = elim (get_custom_field_definition field s) [
  | err e ↦ err e
  | ok d ↦
      if is_nil value || d.type == text_type
      then ok tt
      else if d.type == number_type
      then if is_number value
        then ok tt
        else err (message "invalid value type for number field: expected number")
      else if d.type == bool_type
      then if is_bool value
        then ok tt
        else err (message "invalid value type for boolean field: expected boolean")
      else if d.type == select_type
      then if not (is_text value)
        then err (message "invalid value type for select field: expected string")
        else if is_option value d.options
        then ok tt
        else err (message "invalid value for select field")
      else ok tt
]
