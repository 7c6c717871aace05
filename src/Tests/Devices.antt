-- ===== src/Tests/Devices.antt =====
-- Devices in the small store.
use rackd.Prelude.{◌||◌, ◌≡◌, refl, false, none, some, [], ◌∷◌, find, if◌then◌else◌}
use rackd.Text.{codes, ◌==◌, is_empty}
use rackd.Error.{ok, err, device_not_found}
use rackd.Model.{DeviceRow, Caller}
use rackd.Model.Device.{
  Address, Device, CustomFieldDefinition, CustomFieldValue, CustomFieldValueInput, float,
}
use rackd.Store.{Store, Env, enqueue}
use rackd.Storage.Order.{sort_by}
use rackd.Storage.Pool.{network_exists, pool_exists}
use rackd.Storage.CustomField.{
  find_definition, set_custom_field_value, get_custom_field_value, get_custom_field_definition,
}
use rackd.Model.CustomField.{number_type}
use rackd.Storage.CustomField.View.{get_custom_field_values_with_definitions}
use rackd.Storage.Device.{
  insert_device, insert_address, insert_device_addresses, insert_device_tag, insert_device_tags,
  insert_device_domain, insert_device_domains, insert_custom_field_value,
  insert_device_custom_field, insert_device_custom_fields, insert_parts, device_row,
}
use rackd.Storage.Device.Read.{get_device}
use rackd.Storage.Device.Change.{
  create_device, update_device, update_device_in_tx, rewrite_device, delete_device,
  delete_device_row, stamp_device, stamp_update,
}
use rackd.Storage.Device.Owned.{Owned}
use rackd.Storage.Device.Steps.{here, next, creates, deletes, Reach-Owned}
use rackd.Storage.Device.Promoted.{IsPromoted, Reach-IsPromoted}
use rackd.Storage.Device.RoundTrip.{get_device-create_device, get_device-update_device}
use rackd.Storage.Device.ReadBack.{read_back}
use rackd.Storage.Device.Delete.{delete_device-get}
use rackd.Service.Access.{require_permission, is_system, in_scope, enrich_audit}
use rackd.Service.Device.{update}
use rackd.Service.Device.Author.{update_claims_status}
use rackd.Service.CustomField.Values.{set_value, validate_custom_field_value}
use rackd.Service.CustomField.Numbers.{set_value_number_lost}
use rackd.Tests.Fixtures.{store, env, system_caller}

runs : Unit {0}
unfolding ◌==◌ network_exists pool_exists enqueue sort_by create_device update_device
    update_device_in_tx rewrite_device delete_device delete_device_row get_device insert_device
    insert_address insert_device_addresses insert_device_tag insert_device_tags insert_device_domain
    insert_device_domains insert_custom_field_value insert_device_custom_field
    insert_device_custom_fields insert_parts set_custom_field_value get_custom_field_value
    get_custom_field_definition get_custom_field_values_with_definitions require_permission
    is_system in_scope enrich_audit update set_value validate_custom_field_value
runs = tt

abbrev pub address : Address
address = record {
  id = [];
  ip = codes "10.0.0.3";
  port = some 22;
  type = codes "ipv4";
  label = codes "mgmt";
  network_id = codes "n1";
  switch_port = [];
  pool_id = codes "p1";
}

abbrev cores : CustomFieldDefinition
cores = record {
  id = codes "f1";
  name = codes "Cores";
  key = codes "cores";
  type = number_type;
  required = false;
  options = [];
  description = [];
  created_at = 0;
  updated_at = 0;
}

abbrev pub server : Device
server = record {
  id = codes "v1";
  name = codes "web-01";
  hostname = codes "web-01";
  description = [];
  make_model = [];
  os = [];
  datacenter_id = [];
  username = [];
  location = [];
  status = [];
  decommission_date = none;
  status_changed_at = none;
  status_changed_by = [];
  tags = codes "prod" ∷ [];
  addresses = address ∷ [];
  domains = codes "example.org" ∷ [];
  custom_fields = [];
  created_at = 0;
  updated_at = 0;
}

-- The store without devices and addresses, and with a custom field
abbrev rack : Store
rack = record store { addresses = []; custom_field_definitions = cores ∷ [] }

rack-Owned : Owned rack
rack-Owned = record {
  addresses = refl;
  tags = refl;
  domains = refl;
  values = refl;
  parents = refl;
  children = refl;
}

server_created : (create_device env server rack).0 ≡ ok (stamp_device env server)
unfolding runs
server_created = refl

get_device-create_device_example :
    (stamp_device env server ≡ stamp_device env server)
    × (get_device (codes "v1") (create_device env server rack).1
        ≡ ok (read_back env (stamp_device env server) (create_device env server rack).1))
get_device-create_device_example =
    get_device-create_device env server (stamp_device env server) rack rack-Owned server_created
      refl

-- The store with the device
abbrev racked : Store
racked = record rack {
  devices = device_row (stamp_device env server) ∷ [];
  addresses =
      record {
        id = codes "a7";
        device_id = codes "v1";
        ip = codes "10.0.0.3";
        port = none;
        type = codes "ipv4";
        label = [];
        network_id = none;
        switch_port = none;
        pool_id = some (codes "p1");
      }
      ∷ [];
}

abbrev retired : Device
retired = record server { status = codes "decommissioned"; addresses = []; tags = [] }

abbrev old_row : DeviceRow
old_row = device_row (stamp_device env server)

retired_stored : (update_device env retired racked).0 ≡ ok (stamp_update env old_row retired)
unfolding runs
retired_stored = refl

get_device-update_device_example :
    (old : DeviceRow) × (find (λ d. d.id == codes "v1") racked.devices ≡ some old)
    × (stamp_update env old_row retired ≡ stamp_update env old retired)
    × (get_device (codes "v1") (update_device env retired racked).1
        ≡ ok (
            read_back env
              (record (stamp_update env old_row retired) { created_at = old.created_at })
              (update_device env retired racked).1))
get_device-update_device_example =
    get_device-update_device env retired (stamp_update env old_row retired) racked retired_stored

deleted : (delete_device env (codes "v1") racked).0 ≡ ok tt
unfolding runs
deleted = refl

delete_device-get_example :
    get_device (codes "v1") (delete_device env (codes "v1") racked).1
    ≡ (if codes "v1" == codes "v1" then err device_not_found else get_device (codes "v1") racked)
delete_device-get_example = delete_device-get env (codes "v1") (codes "v1") racked deleted

-- A device, and its end
Reach-Owned_example : Owned (delete_device env (codes "v1") (create_device env server rack).1).1
Reach-Owned_example =
    Reach-Owned rack (delete_device env (codes "v1") (create_device env server rack).1).1 rack-Owned
      (next (next here (creates env server rack))
        (deletes env (codes "v1") (create_device env server rack).1))

abbrev promoted : Store
promoted = record racked { promoted_devices = codes "v1" ∷ [] }

promoted_held : IsPromoted (codes "v1") promoted
unfolding runs
promoted_held = record { promoted = refl; there = refl }

-- A DeleteDevice of the device, and then one of another
Reach-IsPromoted_example :
    IsPromoted
      (codes "v1")
      (delete_device env (codes "v2") (delete_device env (codes "v1") promoted).1).1
Reach-IsPromoted_example =
    Reach-IsPromoted (codes "v1") promoted
      (delete_device env (codes "v2") (delete_device env (codes "v1") promoted).1).1 promoted_held
      (next (next here (deletes env (codes "v1") promoted))
        (deletes env (codes "v2") (delete_device env (codes "v1") promoted).1))

-- A caller of the system with a user's id
abbrev bob : Caller
bob = record system_caller { user_id = codes "bob" }

abbrev bob_env : Env
bob_env = record env { ctx = record { caller = some bob; audit = none } }

abbrev renamed : Device
renamed = record server { status = codes "active"; description = codes "new" }

abbrev renamed_by : Device
renamed_by = record renamed { updated_at = 100; status_changed_by = codes "bob" }

renamed_stored : (update false (λ id n. false) bob_env renamed racked).0 ≡ ok renamed_by
unfolding runs
renamed_stored = refl

update_claims_status_example :
    (old row : DeviceRow) × (find (λ d. d.id == codes "v1") racked.devices ≡ some old)
    × (find
          (λ d. d.id == codes "v1")
          (update false (λ id n. false) bob_env renamed racked).1.devices
        ≡ some row)
    × (row.status_changed_by ≡ codes "bob")
    × (row.status ≡ (if is_empty renamed.status then old.status else renamed.status))
    × (row.status_changed_at ≡ (
        if is_empty renamed.status || renamed.status == old.status
        then renamed.status_changed_at
        else some bob_env.now))
update_claims_status_example =
    update_claims_status false (λ id n. false) bob_env bob renamed renamed_by racked refl refl
      renamed_stored

abbrev eight : CustomFieldValueInput
eight = record { field_id = codes "f1"; value = float }

field_there : find_definition (codes "f1") racked ≡ some cores
unfolding runs
field_there = refl

eight_stored : (set_value env (codes "v1") eight racked).0 ≡ ok tt
unfolding runs
eight_stored = refl

set_value_number_lost_example :
    (v : CustomFieldValue) × (get_custom_field_value
        (codes "v1")
        (codes "f1")
        (set_value env (codes "v1") eight racked).1
      ≡ ok v)
    × (v.number_value ≡ none)
set_value_number_lost_example =
    set_value_number_lost env (codes "v1") eight cores racked field_there refl refl eight_stored
