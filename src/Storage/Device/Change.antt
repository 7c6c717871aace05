-- ===== src/Storage/Device/Change.antt =====
-- internal/storage/device_sqlite.go: CreateDevice, UpdateDevice and DeleteDevice.
use rackd.Prelude.{not, ◌||◌, none, some, map, if◌then◌else◌, any, keep, find}
use rackd.Text.{Text, codes, ◌==◌, is_empty}
use rackd.Error.{ok, err, failed, foreign_key_failed, invalid_id, device_not_found}
use rackd.Model.{DeviceRow, DeviceRelationship}
use rackd.Model.Device.{Device}
use rackd.Store.{
  Store, Env, Exec, return, transaction, ask, ◌>>=◌, ◌>>◌, fail_if, modify, audit_log, or_uuid,
}
use rackd.Storage.CustomField.{delete_values_for_device}
use rackd.Storage.Device.{
  active, has_device, device_row, has_datacenter, insert_device, insert_parts,
}

-- The device as createDeviceInTx completes it
abbrev pub stamp_device : Env → Device → Device
stamp_device env d = record d {
  id = or_uuid env d.id;
  created_at = env.now;
  updated_at = env.now;
  status = if is_empty d.status then active else d.status;
  status_changed_at = some env.now;
}

-- CreateDevice, with createDeviceInTx
unfoldable pub create_device : Env → Device → Exec Device
create_device env device = do
  let stamped = stamp_device env device
  transaction (insert_device (device_row stamped) >> insert_parts env stamped)
  audit_log env (codes "create") (codes "device") stamped.id
  return stamped

-- The device as updateDeviceInTx completes it, by the row that is there
abbrev pub stamp_update : Env → DeviceRow → Device → Device
stamp_update env old d =
    let stamped : Device = record d { updated_at = env.now } in
    if is_empty d.status
    then record stamped { status = old.status }
    else if d.status == old.status
    then stamped
    else record stamped { status_changed_at = some env.now }

-- UPDATE devices SET … WHERE id = ?
abbrev pub update_row : Device → DeviceRow → DeviceRow
update_row new d =
    if d.id == new.id then record (device_row new) { created_at = d.created_at } else d

-- The deletes of addresses, tags, domains and custom field values of the device
abbrev pub delete_parts : Text → Store → Store
delete_parts id s = delete_values_for_device id (record s {
  addresses = keep (λ a. not (a.device_id == id)) s.addresses;
  tags = keep (λ t. not (t.device_id == id)) s.tags;
  domains = keep (λ d. not (d.device_id == id)) s.domains;
})

-- updateDeviceInTx after the row is read
unfoldable pub rewrite_device : Env → Device → Exec Device
rewrite_device env new = do
  placed ← ask (has_datacenter new.datacenter_id)
  fail_if (not placed) (failed "failed to update device" foreign_key_failed)
  modify (λ s. record s { devices = map (update_row new) s.devices })
  modify (delete_parts new.id)
  insert_parts env new
  return new

-- updateDeviceInTx
unfoldable pub update_device_in_tx : Env → Device → Exec Device
update_device_in_tx env device s = elim (find (λ d. d.id == device.id) s.devices) [
  | none ↦ (err device_not_found, s)
  | some old ↦ rewrite_device env (stamp_update env old device) s
]

-- UpdateDevice
unfoldable pub update_device : Env → Device → Exec Device
update_device env device = do
  fail_if (is_empty device.id) invalid_id
  stamped ← transaction (update_device_in_tx env device)
  audit_log env (codes "update") (codes "device") device.id
  return stamped

-- DELETE FROM devices WHERE id = ?, with the rows that ON DELETE CASCADE takes along; a discovered
-- device that was promoted to it keeps it.
unfoldable pub delete_device_row : Text → Exec (Unit {0})
delete_device_row id s =
    if any (λ d. d == id) s.promoted_devices
    then (err (failed "failed to delete device" foreign_key_failed), s)
    else (
      ok tt,
      record (delete_parts id s) {
        devices = keep (λ d. not (d.id == id)) s.devices;
        relationships =
            keep {A = DeviceRelationship} (λ r. not (r.parent_id == id || r.child_id == id))
              s.relationships;
      },
    )

-- DeleteDevice, with deleteDeviceInTx
unfoldable pub delete_device : Env → Text → Exec (Unit {0})
delete_device env id = do
  fail_if (is_empty id) invalid_id
  transaction
      (do exists ← ask (has_device id); fail_if (not exists) device_not_found; delete_device_row id)
  audit_log env (codes "delete") (codes "device") id
