-- ===== src/Storage/Datacenter/Delete.antt =====
-- internal/storage/datacenter_sqlite.go, DeleteDatacenter: what a failure leaves.
use rackd.Prelude.{◌≡◌, refl, true, false, List, [], ◌∷◌, any, map, arith, if◌then◌else◌}
use rackd.Text.{Text, ◌==◌, is_empty, eq_iff}
use rackd.Error.{err, failed, foreign_key_failed}
use rackd.Model.{DeviceRow}
use rackd.Store.{Store, Env}
use rackd.Storage.Datacenter.{datacenter_exists, delete_row, delete_datacenter}

-- The device, out of the datacenter if it is in it
abbrev pub cleared : Text → DeviceRow → DeviceRow
cleared id d = if d.datacenter_id == id then record d { datacenter_id = [] } else d

no_device :
    (id : Text) (rows : List DeviceRow)
    → is_empty id ≡ false
    → any (λ d. d.datacenter_id == id) (map (cleared id) rows) ≡ false
no_device id [] full = refl
no_device id (d ∷ rows) full = ground (arith, no_device id rows full, eq_iff [] id)

-- DeleteDatacenter of a datacenter that is there fails with a foreign key error, if a network is in
-- it, and leaves a store in which no device refers to the datacenter any more, the devices that did
-- have an empty one, and all else is as before.
pub delete_datacenter_partial :
    (env : Env) (id : Text) (s : Store)
    → is_empty id ≡ false
    → datacenter_exists id s ≡ true
    → any (λ n. n.datacenter_id == id) s.networks ≡ true
    → ((delete_datacenter env id s).0
        ≡ err (failed "failed to delete datacenter" foreign_key_failed))
      × (any (λ d. d.datacenter_id == id) (delete_datacenter env id s).1.devices ≡ false)
      × ((delete_datacenter env id s).1 ≡ record s { devices = map (cleared id) s.devices })
unfolding delete_datacenter delete_row
delete_datacenter_partial env id s full e h =
    let gone = no_device id s.devices full in (ground (arith), ground (arith), ground (arith))
