-- ===== src/Service/CustomField.antt =====
-- internal/service/custom_field.go: definitions of custom fields, and their values on devices.
pub mod Numbers
pub mod Values
pub mod Update
use rackd.Prelude.{
  ℕ, suc, ◌+◌, Bool, true, false, not, ◌&&◌, ◌||◌, Option, none, some, List, [], ◌∷◌, map, leb,
  nat_eq, length, if◌then◌else◌, any, keep, find,
}
use rackd.Text.{Text, codes, ◌==◌, is_empty}
use rackd.Error.{
  Error, Result, ok, err, custom_field_not_found, duplicate_field_key, not_found, invalid,
  map_error,
}
use rackd.Model.Device.{
  Value, nil, text, int, float, bool, other, CustomFieldDefinition, CustomFieldValue,
  CustomFieldValueInput,
}
use rackd.Store.{Store, Env, Exec, return, query, ask, ◌>>=◌, ◌>>◌, fail_if}
use rackd.Storage.CustomField.{
  CustomFieldDefinitionFilter, create_custom_field_definition, get_custom_field_definition,
  list_custom_field_definitions, update_custom_field_definition, delete_custom_field_definition,
  set_custom_field_value, get_custom_field_values, delete_custom_field_value,
}
use rackd.Model.CustomField.{
  text_type, number_type, bool_type, select_type, is_valid_type, new_value,
}
use rackd.Storage.CustomField.View.{
  is_text, is_bool, is_option, is_nil, CustomFieldWithDefinition,
  get_custom_field_values_with_definitions,
}
use rackd.Service.Access.{require_permission}

abbrev pub permit : Env → Text → Exec (Unit {0})
permit env action = require_permission env (codes "custom-fields") action

abbrev pub as_not_found : Error → Error
as_not_found custom_field_not_found = not_found
as_not_found e = e

abbrev pub as_duplicate : Error → Error
as_duplicate duplicate_field_key = invalid "key" "A field with this key already exists"
as_duplicate e = e

abbrev pub as_invalid_field : Error → Error
as_invalid_field custom_field_not_found = invalid "field_id" "Invalid field ID"
as_invalid_field e = e

abbrev pub on_error {ℓ} : {A : Type ℓ} → (Error → Error) → Exec A → Exec A
on_error f m s = (map_error f (m s).0, (m s).1)

-- ListDefinitions
unfoldable pub list_definitions :
    Env → Option CustomFieldDefinitionFilter → Exec (List CustomFieldDefinition)
list_definitions env filter = do
  permit env (codes "list")
  ask (list_custom_field_definitions filter)

-- GetDefinition
unfoldable pub get_definition : Env → Text → Exec CustomFieldDefinition
get_definition env id = do
  permit env (codes "read")
  query (λ s. map_error as_not_found (get_custom_field_definition id s))

abbrev key_char : ℕ → Bool
key_char c = leb b'a' c && leb c b'z' || leb b'0' c && leb c b'9' || nat_eq c b'_'

abbrev all_key_chars : Text → Bool
all_key_chars [] = true
all_key_chars (c ∷ s) = key_char c && all_key_chars s

-- isValidFieldKey
abbrev pub is_valid_field_key : Text → Bool
is_valid_field_key key = not (is_empty key) && all_key_chars key

-- model.CreateCustomFieldDefinitionRequest
pub record CreateCustomFieldDefinitionRequest : Type 0 where
  pub name : Text
  pub key : Text
  pub type : Text
  pub required : Bool
  pub options : List Text
  pub description : Text

abbrev pub is_nil_list : List Text → Bool
is_nil_list [] = true
is_nil_list (t ∷ ts) = false

abbrev pub key_message : Error
key_message = invalid "key" "Key must contain only lowercase letters, numbers, and underscores"

abbrev pub options_message : Error
options_message = invalid "options" "Select type requires at least one option"

-- CreateDefinition, whose key needs no strings.ToLower after the test of its letters. The text of the
-- error for a type does not show the type.
unfoldable pub create_definition :
    Env → CreateCustomFieldDefinitionRequest → Exec CustomFieldDefinition
create_definition env req = do
  permit env (codes "create")
  fail_if (is_empty req.name) (invalid "name" "Name is required")
  fail_if (is_empty req.key) (invalid "key" "Key is required")
  fail_if (not (is_valid_field_key req.key)) key_message
  fail_if (not (is_valid_type req.type)) (invalid "type" "Invalid field type: ")
  fail_if (req.type == select_type && is_nil_list req.options) options_message
  on_error as_duplicate (
      create_custom_field_definition env (record {
        id = [];
        name = req.name;
        key = req.key;
        type = req.type;
        required = req.required;
        options = req.options;
        description = req.description;
        created_at = 0;
        updated_at = 0;
      }))

-- DeleteDefinition
unfoldable pub delete_definition : Env → Text → Exec (Unit {0})
delete_definition env id = do
  permit env (codes "delete")
  on_error as_not_found (delete_custom_field_definition id)
