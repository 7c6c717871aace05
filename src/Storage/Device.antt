-- ===== src/Storage/Device.antt =====
-- internal/storage/device_sqlite.go: the rows of devices, and the rows of addresses, tags, domains and
-- custom_field_values that belong to a device. The search with FTS5 is not here.
pub mod Parts
pub mod Delete
pub mod Owned
pub mod ReadBack
pub mod RoundTrip
pub mod Kept
pub mod Steps
pub mod Promoted
pub mod Listing
pub mod Change
pub mod Read
use rackd.Prelude.{
  ℕ, ◌+◌, Bool, true, not, ◌&&◌, ◌||◌, Option, none, some, List, [], ◌∷◌, ◌++◌, map, length,
  if◌then◌else◌, any, keep, find,
}
use rackd.Text.{Text, codes, ◌==◌, is_empty}
use rackd.Error.{
  Result, ok, err, failed, unique_failed, foreign_key_failed, invalid_id, device_not_found,
  or_error,
}
use rackd.Model.{DeviceRow, DeviceRelationship, AddressRow}
use rackd.Model.Device.{
  Address, Device, DeviceTag, DeviceDomain, CustomFieldValue, CustomFieldValueInput,
}
use rackd.Store.{
  Store, Env, Exec, return, transaction, ask, ◌>>=◌, ◌>>◌, fail_if, modify, audit_log, or_uuid,
}
use rackd.Storage.Order.{sort_by, text_leb}
use rackd.Storage.Pool.{network_exists, pool_exists}
use rackd.Storage.Reservation.{null_string}
use rackd.Storage.CustomField.{find_definition, is_value, delete_values_for_device}
use rackd.Model.CustomField.{new_value}
use rackd.Storage.CustomField.View.{
  CustomFieldWithDefinition, get_custom_field_values_with_definitions,
}

-- model.DeviceStatusActive
abbrev pub active : Text
active = codes "active"

abbrev pub has_device : Text → Store → Bool
has_device id s = any (λ d. d.id == id) s.devices

abbrev pub device_row : Device → DeviceRow
device_row d = record {
  id = d.id;
  name = d.name;
  hostname = d.hostname;
  description = d.description;
  make_model = d.make_model;
  os = d.os;
  datacenter_id = d.datacenter_id;
  username = d.username;
  location = d.location;
  status = d.status;
  decommission_date = d.decommission_date;
  status_changed_at = d.status_changed_at;
  status_changed_by = d.status_changed_by;
  created_at = d.created_at;
  updated_at = d.updated_at;
}

-- An empty datacenter_id is NULL.
abbrev pub has_datacenter : Text → Store → Bool
has_datacenter id s = is_empty id || any (λ d. d.id == id) s.datacenters

-- INSERT INTO devices: the id is the primary key.
unfoldable pub insert_device : DeviceRow → Exec (Unit {0})
insert_device d s =
    if has_device d.id s
    then (err (failed "failed to insert device" unique_failed), s)
    else if has_datacenter d.datacenter_id s
    then (ok tt, record s { devices = s.devices ++ d ∷ [] })
    else (err (failed "failed to insert device" foreign_key_failed), s)

abbrev pub address_row : Env → Text → ℕ → Address → AddressRow
address_row env device i a = record {
  id = if is_empty a.id then env.row_uuid i else a.id;
  device_id = device;
  ip = a.ip;
  port = a.port;
  type = a.type;
  label = a.label;
  network_id = null_string a.network_id;
  switch_port = null_string a.switch_port;
  pool_id = null_string a.pool_id;
}

abbrev known : (Text → Store → Bool) → Option Text → Store → Bool
known exists none s = true
known exists (some id) s = exists id s

-- INSERT INTO addresses: the id is the primary key.
unfoldable pub insert_address : AddressRow → Exec (Unit {0})
insert_address a s =
    if any (λ b. b.id == a.id) s.addresses
    then (err (failed "failed to insert addresses" unique_failed), s)
    else if has_device a.device_id s
        && known network_exists a.network_id s
        && known pool_exists a.pool_id s
    then (ok tt, record s { addresses = s.addresses ++ a ∷ [] })
    else (err (failed "failed to insert addresses" foreign_key_failed), s)

-- insertDeviceAddresses, with the number of the next address
unfoldable pub insert_device_addresses : Env → Text → ℕ → List Address → Exec (Unit {0})
insert_device_addresses env device i [] = return tt
insert_device_addresses env device i (a ∷ addresses) =
    insert_address (address_row env device i a)
    >> insert_device_addresses env device (i + 1) addresses

-- INSERT INTO tags: (device_id, tag) is the primary key.
unfoldable pub insert_device_tag : DeviceTag → Exec (Unit {0})
insert_device_tag t s =
    if any (λ u. u.device_id == t.device_id && u.tag == t.tag) s.tags
    then (err (failed "failed to insert tags" unique_failed), s)
    else if has_device t.device_id s
    then (ok tt, record s { tags = s.tags ++ t ∷ [] })
    else (err (failed "failed to insert tags" foreign_key_failed), s)

-- insertDeviceTags
unfoldable pub insert_device_tags : Text → List Text → Exec (Unit {0})
insert_device_tags device [] = return tt
insert_device_tags device (tag ∷ tags) =
    insert_device_tag (record { device_id = device; tag = tag }) >> insert_device_tags device tags

-- INSERT INTO domains: (device_id, domain) is the primary key.
unfoldable pub insert_device_domain : DeviceDomain → Exec (Unit {0})
insert_device_domain d s =
    if any (λ e. e.device_id == d.device_id && e.domain == d.domain) s.domains
    then (err (failed "failed to insert domains" unique_failed), s)
    else if has_device d.device_id s
    then (ok tt, record s { domains = s.domains ++ d ∷ [] })
    else (err (failed "failed to insert domains" foreign_key_failed), s)

-- insertDeviceDomains
unfoldable pub insert_device_domains : Text → List Text → Exec (Unit {0})
insert_device_domains device [] = return tt
insert_device_domains device (domain ∷ domains) =
    insert_device_domain (record { device_id = device; domain = domain })
    >> insert_device_domains device domains

-- INSERT INTO custom_field_values: the id, and the device with the field, are unique.
unfoldable pub insert_custom_field_value : CustomFieldValue → Exec (Unit {0})
insert_custom_field_value v s =
    if any (λ w. w.id == v.id || is_value v.device_id v.field_id w) s.custom_field_values
    then (err (failed "failed to insert custom fields" unique_failed), s)
    else if has_device v.device_id s
    then (ok tt, record s { custom_field_values = s.custom_field_values ++ v ∷ [] })
    else (err (failed "failed to insert custom fields" foreign_key_failed), s)

-- One round of insertDeviceCustomFields: an input with no field, or with the id of none, is skipped.
unfoldable pub insert_device_custom_field : Env → Text → ℕ → CustomFieldValueInput → Exec (Unit {0})
insert_device_custom_field env device i cf s =
    if is_empty cf.field_id then (ok tt, s) else elim (find_definition cf.field_id s) [
      | none ↦ (ok tt, s)
      | some def ↦
          insert_custom_field_value
            (new_value (env.row_uuid i) device cf.field_id def.type cf.value) s
    ]

-- insertDeviceCustomFields, with the number of the next value
unfoldable pub insert_device_custom_fields :
    Env → Text → ℕ → List CustomFieldValueInput → Exec (Unit {0})
insert_device_custom_fields env device i [] = return tt
insert_device_custom_fields env device i (cf ∷ fields) =
    insert_device_custom_field env device i cf
    >> insert_device_custom_fields env device (i + 1) fields

-- What belongs to the device: the inserts that createDeviceInTx and updateDeviceInTx share
unfoldable pub insert_parts : Env → Device → Exec (Unit {0})
insert_parts env device = do
  insert_device_addresses env device.id 0 device.addresses
  insert_device_tags device.id device.tags
  insert_device_domains device.id device.domains
  insert_device_custom_fields env device.id (length device.addresses) device.custom_fields
