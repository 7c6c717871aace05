-- ===== src/Model/CustomField.antt =====
-- internal/model/custom_field.go: the types of custom fields, with GetValue and SetValue.
use rackd.Prelude.{Bool, ◌||◌, none, some, [], if◌then◌else◌}
use rackd.Text.{Text, codes, ◌==◌}
use rackd.Model.Device.{Value, nil, text, int, bool, CustomFieldValue}

-- model.CustomFieldType
abbrev pub text_type : Text
text_type = codes "text"

abbrev pub number_type : Text
number_type = codes "number"

abbrev pub bool_type : Text
bool_type = codes "boolean"

abbrev pub select_type : Text
select_type = codes "select"

-- CustomFieldType.IsValid, and the CHECK of the column
abbrev pub is_valid_type : Text → Bool
is_valid_type t = t == text_type || t == number_type || t == bool_type || t == select_type

-- CustomFieldValue.GetValue
abbrev pub get_value : Text → CustomFieldValue → Value
get_value type v =
    if type == number_type
    then elim v.number_value [ none ↦ nil | some n ↦ int n ]
    else if type == bool_type
    then elim v.bool_value [ none ↦ nil | some b ↦ bool b ]
    else text v.string_value

abbrev set_number : Value → CustomFieldValue → CustomFieldValue
set_number (int n) v = record v { number_value = some n }
set_number nil v = record v { number_value = none }
set_number value v = v

abbrev set_bool : Value → CustomFieldValue → CustomFieldValue
set_bool (bool b) v = record v { bool_value = some b }
set_bool nil v = record v { bool_value = none }
set_bool value v = v

abbrev set_text : Value → CustomFieldValue → CustomFieldValue
set_text (text s) v = record v { string_value = s }
set_text nil v = record v { string_value = [] }
set_text value v = v

-- CustomFieldValue.SetValue, which leaves the value as it is for a value of another type
abbrev pub set_value : Text → Value → CustomFieldValue → CustomFieldValue
set_value type value v =
    if type == number_type
    then set_number value v
    else if type == bool_type
    then set_bool value v
    else set_text value v

-- The value that SetValue makes for a device and a field
abbrev pub new_value : Text → Text → Text → Text → Value → CustomFieldValue
new_value id device field type value = set_value type value (record {
  id = id;
  device_id = device;
  field_id = field;
  string_value = [];
  number_value = none;
  bool_value = none;
})
