-- ===== src/Model/Device.antt =====
-- internal/model/device.go and custom_field.go: devices, and the rows of the tables that belong to one.
use rackd.Prelude.{ℕ, Bool, Option, List}
use rackd.Text.{Text}
use rackd.Model.{Time}
use rackd.Storage.Order.{ℤ}

-- What a custom field may hold: a value of interface{}. `int` is an int or an int64, `float` a float64,
-- which is what a number in JSON becomes, and `other` a value of any other type.
pub data Value : Type 0 where
  nil : Value
  text : Text → Value
  int : ℤ → Value
  float : Value
  bool : Bool → Value
  other : Value

-- model.CustomFieldType is a string; the constants are in Storage/CustomField.
pub record CustomFieldDefinition : Type 0 where
  pub id : Text
  pub name : Text
  pub key : Text
  pub type : Text
  pub required : Bool
  pub options : List Text
  pub description : Text
  pub created_at : Time
  pub updated_at : Time

-- model.CustomFieldValue, which is also the row
pub record CustomFieldValue : Type 0 where
  pub id : Text
  pub device_id : Text
  pub field_id : Text
  pub string_value : Text
  pub number_value : Option ℤ
  pub bool_value : Option Bool

-- model.CustomFieldValueInput
pub record CustomFieldValueInput : Type 0 where
  pub field_id : Text
  pub value : Value

-- model.Address
pub record Address : Type 0 where
  pub id : Text
  pub ip : Text
  pub port : Option ℕ
  pub type : Text
  pub label : Text
  pub network_id : Text
  pub switch_port : Text
  pub pool_id : Text

-- model.Device
pub record Device : Type 0 where
  pub id : Text
  pub name : Text
  pub hostname : Text
  pub description : Text
  pub make_model : Text
  pub os : Text
  pub datacenter_id : Text
  pub username : Text
  pub location : Text
  pub status : Text
  pub decommission_date : Option Time
  pub status_changed_at : Option Time
  pub status_changed_by : Text
  pub tags : List Text
  pub addresses : List Address
  pub domains : List Text
  pub custom_fields : List CustomFieldValueInput
  pub created_at : Time
  pub updated_at : Time

-- A row of tags
pub record DeviceTag : Type 0 where
  pub device_id : Text
  pub tag : Text

-- A row of domains
pub record DeviceDomain : Type 0 where
  pub device_id : Text
  pub domain : Text
