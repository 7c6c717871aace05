-- ===== src/Storage/CustomField.antt =====
-- internal/storage/custom_field_sqlite.go: the rows of custom_field_definitions and custom_field_values.
-- The options of a row are JSON in the table.
pub mod View
use rackd.Prelude.{
  Bool, true, false, not, ◌&&◌, ◌||◌, Option, none, some, List, [], ◌∷◌, ◌++◌, map, if◌then◌else◌,
  any, keep, find,
}
use rackd.Text.{Text, codes, ◌==◌, is_empty}
use rackd.Error.{
  Result, ok, err, database, foreign_key_failed, check_failed, message, custom_field_not_found,
  duplicate_field_key, or_error,
}
use rackd.Model.Device.{Value, nil, text, int, float, bool, CustomFieldDefinition, CustomFieldValue}
use rackd.Store.{Store, Env, Exec, transaction, ask, ◌>>=◌, ◌>>◌, fail_if, modify, or_uuid}
use rackd.Storage.Order.{Pagination, paginate, text_leb, sort_by}
use rackd.Model.CustomField.{is_valid_type}

abbrev pub find_definition : Text → Store → Option CustomFieldDefinition
find_definition id s = find (λ d. d.id == id) s.custom_field_definitions

-- CreateCustomFieldDefinition: the id and the key are unique.
unfoldable pub create_custom_field_definition :
    Env → CustomFieldDefinition → Exec CustomFieldDefinition
create_custom_field_definition env def s =
    let new : CustomFieldDefinition = record def {
      id = or_uuid env def.id;
      created_at = env.now;
      updated_at = env.now;
    } in
    if not (is_valid_type new.type)
    then (err (database check_failed), s)
    else if any (λ d. d.id == new.id || d.key == new.key) s.custom_field_definitions
    then (err duplicate_field_key, s)
    else (ok new, record s { custom_field_definitions = s.custom_field_definitions ++ new ∷ [] })

-- GetCustomFieldDefinition
unfoldable pub get_custom_field_definition : Text → Store → Result CustomFieldDefinition
get_custom_field_definition id s = or_error (find_definition id s) custom_field_not_found

-- GetCustomFieldDefinitionByKey
unfoldable pub get_custom_field_definition_by_key : Text → Store → Result CustomFieldDefinition
get_custom_field_definition_by_key key s =
    or_error (find (λ d. d.key == key) s.custom_field_definitions) custom_field_not_found

-- model.CustomFieldDefinitionFilter
pub record CustomFieldDefinitionFilter : Type 0 where
  pub page : Pagination
  pub type : Text

abbrev of_type : Option CustomFieldDefinitionFilter → CustomFieldDefinition → Bool
of_type none d = true
of_type (some f) d = is_empty f.type || d.type == f.type

abbrev page_of : Option CustomFieldDefinitionFilter → Option Pagination
page_of none = none
page_of (some f) = some f.page

abbrev pub by_name : List CustomFieldDefinition → List CustomFieldDefinition
by_name defs = sort_by (λ a b. text_leb a.name b.name) defs

-- ListCustomFieldDefinitions
unfoldable pub list_custom_field_definitions :
    Option CustomFieldDefinitionFilter → Store → List CustomFieldDefinition
list_custom_field_definitions filter s =
    paginate (page_of filter) (by_name (keep (of_type filter) s.custom_field_definitions))

abbrev pub update_definition : CustomFieldDefinition → CustomFieldDefinition → CustomFieldDefinition
update_definition new d = if d.id == new.id then record new { created_at = d.created_at } else d

-- UpdateCustomFieldDefinition; where no row has the id, no constraint is looked at.
unfoldable pub update_custom_field_definition :
    Env → CustomFieldDefinition → Exec CustomFieldDefinition
update_custom_field_definition env def s =
    let new : CustomFieldDefinition = record def { updated_at = env.now } in
    if not (any (λ d. d.id == new.id) s.custom_field_definitions)
    then (err custom_field_not_found, s)
    else if not (is_valid_type new.type)
    then (err (database check_failed), s)
    else if any (λ d. not (d.id == new.id) && d.key == new.key) s.custom_field_definitions
    then (err duplicate_field_key, s)
    else (
      ok new,
      record s {
        custom_field_definitions = map (update_definition new) s.custom_field_definitions;
      },
    )

-- DeleteCustomFieldDefinition
unfoldable pub delete_custom_field_definition : Text → Exec (Unit {0})
delete_custom_field_definition id = transaction (do
  modify (λ s. record s {
    custom_field_values = keep (λ v. not (v.field_id == id)) s.custom_field_values;
  })
  exists ← ask (λ s. any (λ d. d.id == id) s.custom_field_definitions)
  modify (λ s. record s {
    custom_field_definitions = keep (λ d. not (d.id == id)) s.custom_field_definitions;
  })
  fail_if (not exists) custom_field_not_found)

abbrev pub is_value : Text → Text → CustomFieldValue → Bool
is_value device field v = v.device_id == device && v.field_id == field

abbrev pub has_device : Text → Store → Bool
has_device id s = any (λ d. d.id == id) s.devices

-- A row of custom_field_values refers to a device and a definition.
abbrev pub refers : CustomFieldValue → Store → Bool
refers v s = has_device v.device_id s && any (λ d. d.id == v.field_id) s.custom_field_definitions

-- SetCustomFieldValue: INSERT OR REPLACE, which removes each row with the same id or with the same
-- device and field, and keeps the id of the latter.
unfoldable pub set_custom_field_value : Env → CustomFieldValue → Exec (Unit {0})
set_custom_field_value env value s =
    let id : Text = elim (find (is_value value.device_id value.field_id) s.custom_field_values) [
      | none ↦ or_uuid env value.id
      | some old ↦ old.id
    ] in
    if refers value s
    then (
      ok tt,
      record s {
        custom_field_values =
            keep (λ v. not (v.id == id || is_value value.device_id value.field_id v))
              s.custom_field_values
            ++ record value { id = id } ∷ [];
      },
    )
    else (err (database foreign_key_failed), s)

-- GetCustomFieldValues
unfoldable pub get_custom_field_values : Text → Store → List CustomFieldValue
get_custom_field_values device s = keep (λ v. v.device_id == device) s.custom_field_values

-- GetCustomFieldValue
unfoldable pub get_custom_field_value : Text → Text → Store → Result CustomFieldValue
get_custom_field_value device field s =
    or_error (find (is_value device field) s.custom_field_values) custom_field_not_found

-- DeleteCustomFieldValue
unfoldable pub delete_custom_field_value : Text → Text → Exec (Unit {0})
delete_custom_field_value device field s =
    if any (is_value device field) s.custom_field_values
    then (
      ok tt,
      record s {
        custom_field_values = keep (λ v. not (is_value device field v)) s.custom_field_values;
      },
    )
    else (err custom_field_not_found, s)

-- DeleteCustomFieldValuesForDevice
abbrev pub delete_values_for_device : Text → Store → Store
delete_values_for_device device s = record s {
  custom_field_values = keep (λ v. not (v.device_id == device)) s.custom_field_values;
}

-- DeleteCustomFieldValuesForDefinition
abbrev pub delete_values_for_definition : Text → Store → Store
delete_values_for_definition field s = record s {
  custom_field_values = keep (λ v. not (v.field_id == field)) s.custom_field_values;
}

-- GetDevicesByCustomField, which compares the text of the row
unfoldable pub get_devices_by_custom_field : Text → Text → Store → Result (List Text)
get_devices_by_custom_field key value s = elim (get_custom_field_definition_by_key key s) [
  | err e ↦ err e
  | ok d ↦ ok (
      map {A = CustomFieldValue} (λ v. v.device_id)
        (keep (λ v. v.field_id == d.id && v.string_value == value) s.custom_field_values))
]
