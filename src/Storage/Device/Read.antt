-- ===== src/Storage/Device/Read.antt =====
-- internal/storage/device_sqlite.go: GetDevice, with what belongs to the device.
use rackd.Prelude.{Option, none, some, List, [], map, if◌then◌else◌, keep, find}
use rackd.Text.{Text, ◌==◌, is_empty}
use rackd.Error.{Result, ok, err, invalid_id, device_not_found}
use rackd.Model.{DeviceRow, AddressRow}
use rackd.Model.Device.{Address, Device, DeviceTag, DeviceDomain, CustomFieldValueInput}
use rackd.Store.{Store}
use rackd.Storage.Order.{sort_by, text_leb}
use rackd.Storage.CustomField.View.{
  CustomFieldWithDefinition, get_custom_field_values_with_definitions,
}

-- A NULL text
abbrev pub text_of : Option Text → Text
text_of none = []
text_of (some t) = t

abbrev pub to_address : AddressRow → Address
to_address a = record {
  id = a.id;
  ip = a.ip;
  port = a.port;
  type = a.type;
  label = a.label;
  network_id = text_of a.network_id;
  switch_port = text_of a.switch_port;
  pool_id = text_of a.pool_id;
}

-- getDeviceAddresses, in the order of the table
abbrev pub get_device_addresses : Text → Store → List Address
get_device_addresses id s = map to_address (keep (λ a. a.device_id == id) s.addresses)

-- getDeviceTags, in the order of the primary key, whose index holds what the query reads
abbrev pub get_device_tags : Text → Store → List Text
get_device_tags id s =
    sort_by text_leb (map {A = DeviceTag} (λ t. t.tag) (keep (λ t. t.device_id == id) s.tags))

-- getDeviceDomains, in the order of the primary key, as the tags
abbrev pub get_device_domains : Text → Store → List Text
get_device_domains id s =
    sort_by text_leb
      (map {A = DeviceDomain} (λ d. d.domain) (keep (λ d. d.device_id == id) s.domains))

abbrev pub get_device_custom_fields : Text → Store → List CustomFieldValueInput
get_device_custom_fields id s =
    map {A = CustomFieldWithDefinition}
      (λ f. record { field_id = f.definition.id; value = f.value })
      (get_custom_field_values_with_definitions id s)

-- A row with what belongs to the device
abbrev pub to_device : Store → List CustomFieldValueInput → DeviceRow → Device
to_device s custom d = record {
  id = d.id;
  name = d.name;
  hostname = d.hostname;
  description = d.description;
  make_model = d.make_model;
  os = d.os;
  datacenter_id = d.datacenter_id;
  username = d.username;
  location = d.location;
  status = d.status;
  decommission_date = d.decommission_date;
  status_changed_at = d.status_changed_at;
  status_changed_by = d.status_changed_by;
  tags = get_device_tags d.id s;
  addresses = get_device_addresses d.id s;
  domains = get_device_domains d.id s;
  custom_fields = custom;
  created_at = d.created_at;
  updated_at = d.updated_at;
}

-- GetDevice
unfoldable pub get_device : Text → Store → Result Device
get_device id s = if is_empty id then err invalid_id else elim (find (λ d. d.id == id) s.devices) [
  | none ↦ err device_not_found
  | some d ↦ ok (to_device s (get_device_custom_fields id s) d)
]
