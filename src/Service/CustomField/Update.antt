-- ===== src/Service/CustomField/Update.antt =====
-- internal/service/custom_field.go: UpdateDefinition, a field at a time.
use rackd.Prelude.{Bool, true, not, ◌&&◌, Option, none, some, List, if◌then◌else◌}
use rackd.Text.{Text, codes, ◌==◌, is_empty}
use rackd.Error.{Result, ok, err, invalid, map_error}
use rackd.Model.Device.{CustomFieldDefinition}
use rackd.Store.{Env, Exec, query, ◌>>=◌, ◌>>◌}
use rackd.Storage.CustomField.{get_custom_field_definition, update_custom_field_definition}
use rackd.Model.CustomField.{select_type, is_valid_type}
use rackd.Service.CustomField.{
  permit, as_not_found, as_duplicate, on_error, is_valid_field_key, is_nil_list, key_message,
  options_message,
}

-- model.UpdateCustomFieldDefinitionRequest
pub record UpdateCustomFieldDefinitionRequest : Type 0 where
  pub name : Option Text
  pub key : Option Text
  pub type : Option Text
  pub required : Option Bool
  pub options : Option (List Text)
  pub description : Option Text

abbrev update_name : Option Text → CustomFieldDefinition → Result CustomFieldDefinition
update_name none d = ok d
update_name (some name) d =
    if is_empty name
    then err (invalid "name" "Name cannot be empty")
    else ok (record d { name = name })

abbrev update_key : Option Text → CustomFieldDefinition → Result CustomFieldDefinition
update_key none d = ok d
update_key (some key) d =
    if is_empty key
    then err (invalid "key" "Key cannot be empty")
    else if not (is_valid_field_key key)
    then err key_message
    else ok (record d { key = key })

abbrev no_options : Option (List Text) → Bool
no_options none = true
no_options (some options) = is_nil_list options

abbrev update_type :
    Option Text → Option (List Text) → CustomFieldDefinition → Result CustomFieldDefinition
update_type none options d = ok d
update_type (some type) options d =
    if not (is_valid_type type)
    then err (invalid "type" "Invalid field type")
    else if type == select_type && no_options options && is_nil_list d.options
    then err options_message
    else ok (record d { type = type })

abbrev update_required : Option Bool → CustomFieldDefinition → CustomFieldDefinition
update_required none d = d
update_required (some required) d = record d { required = required }

abbrev update_options : Option (List Text) → CustomFieldDefinition → Result CustomFieldDefinition
update_options none d = ok d
update_options (some options) d =
    if d.type == select_type && is_nil_list options
    then err options_message
    else ok (record d { options = options })

abbrev update_description : Option Text → CustomFieldDefinition → CustomFieldDefinition
update_description none d = d
update_description (some description) d = record d { description = description }

abbrev lift : Result CustomFieldDefinition → Exec CustomFieldDefinition
lift r s = (r, s)

-- UpdateDefinition
unfoldable pub update_definition :
    Env → Text → UpdateCustomFieldDefinitionRequest → Exec CustomFieldDefinition
update_definition env id req = do
  permit env (codes "update")
  old ← query (λ s. map_error as_not_found (get_custom_field_definition id s))
  named ← lift (update_name req.name old)
  keyed ← lift (update_key req.key named)
  typed ← lift (update_type req.type req.options keyed)
  chosen ← lift (update_options req.options (update_required req.required typed))
  on_error as_duplicate
      (update_custom_field_definition env (update_description req.description chosen))
