-- ===== src/Storage/Datacenter.antt =====
-- internal/storage/datacenter_sqlite.go: the rows of datacenters. The search with FTS5 is not
-- here; GetDatacenterDevices is in Storage/Device/Listing.
pub mod Delete
use rackd.Prelude.{
  Bool, true, not, Option, none, some, List, [], ◌∷◌, ◌++◌, map, nat_eq, ltb, if◌then◌else◌, any,
  keep, find, count, length,
}
use rackd.Text.{Text, codes, ◌==◌, is_empty}
use rackd.Error.{
  Result, ok, err, failed, unique_failed, foreign_key_failed, invalid_id, datacenter_not_found,
  or_error,
}
use rackd.Model.{Datacenter, DeviceRow}
use rackd.Store.{Store, Env, Exec, return, ask, ◌>>=◌, ◌>>◌, fail_if, modify, audit_log, or_uuid}
use rackd.Storage.Order.{Like, contains_part, Pagination, paginate, text_leb, sort_by}

-- model.DatacenterFilter
pub record DatacenterFilter : Type 0 where
  pub page : Pagination
  pub name : Text

abbrev matches_datacenter : Like → Option DatacenterFilter → Datacenter → Bool
matches_datacenter like none d = true
matches_datacenter like (some f) d = contains_part like f.name d.name

abbrev page_of : Option DatacenterFilter → Option Pagination
page_of none = none
page_of (some f) = some f.page

-- ListDatacenters
unfoldable pub list_datacenters : Like → Option DatacenterFilter → Store → List Datacenter
list_datacenters like filter s =
    paginate (page_of filter) (
      sort_by (λ a b. text_leb a.name b.name) (keep (matches_datacenter like filter) s.datacenters))

abbrev pub datacenter_exists : Text → Store → Bool
datacenter_exists id s = any (λ d. d.id == id) s.datacenters

-- GetDatacenter
unfoldable pub get_datacenter : Text → Store → Result Datacenter
get_datacenter id s =
    if is_empty id
    then err invalid_id
    else or_error (find (λ d. d.id == id) s.datacenters) datacenter_not_found

-- INSERT INTO datacenters: the id is the primary key.
unfoldable pub insert_datacenter : Datacenter → Exec (Unit {0})
insert_datacenter d s =
    if datacenter_exists d.id s
    then (err (failed "failed to create datacenter" unique_failed), s)
    else (ok tt, record s { datacenters = s.datacenters ++ d ∷ [] })

-- CreateDatacenter
unfoldable pub create_datacenter : Env → Datacenter → Exec Datacenter
create_datacenter env datacenter = do
  let stamped = record datacenter {
    id = or_uuid env datacenter.id;
    created_at = env.now;
    updated_at = env.now;
  }
  insert_datacenter stamped
  audit_log env (codes "create") (codes "datacenter") stamped.id
  return stamped

-- ensureDefaultDatacenter: with no row in the table the insert cannot fail, so the text around its error
-- never shows.
unfoldable pub ensure_default_datacenter : Env → Exec (Unit {0})
ensure_default_datacenter env s =
    if nat_eq (length s.datacenters) 0
    then (create_datacenter env (record {
      id = env.uuid;
      name = codes "Default";
      location = [];
      description = codes "Default datacenter";
      created_at = 0;
      updated_at = 0;
    })
          >> return tt)
        s
    else (ok tt, s)

abbrev update_row : Datacenter → Datacenter → Datacenter
update_row new d =
    if d.id == new.id
    then record d {
      name = new.name;
      location = new.location;
      description = new.description;
      updated_at = new.updated_at;
    }
    else d

-- UpdateDatacenter
unfoldable pub update_datacenter : Env → Datacenter → Exec Datacenter
update_datacenter env datacenter = do
  fail_if (is_empty datacenter.id) invalid_id
  exists ← ask (datacenter_exists datacenter.id)
  fail_if (not exists) datacenter_not_found
  let stamped = record datacenter { updated_at = env.now }
  modify (λ s. record s { datacenters = map (update_row stamped) s.datacenters })
  audit_log env (codes "update") (codes "datacenter") datacenter.id
  return stamped

-- UPDATE devices SET datacenter_id = NULL WHERE datacenter_id = ?
abbrev pub unlink_devices : Text → Store → Store
unlink_devices id s = record s {
  devices =
      map {A = DeviceRow}
        (λ d. if d.datacenter_id == id then record d { datacenter_id = [] } else d) s.devices;
}

-- DELETE FROM datacenters WHERE id = ?; a device or a network of the datacenter keeps it.
unfoldable pub delete_row : Text → Exec (Unit {0})
delete_row id s =
    if any (λ d. d.datacenter_id == id) s.devices
    then (err (failed "failed to delete datacenter" foreign_key_failed), s)
    else if any (λ n. n.datacenter_id == id) s.networks
    then (err (failed "failed to delete datacenter" foreign_key_failed), s)
    else (ok tt, record s { datacenters = keep (λ d. not (d.id == id)) s.datacenters })

-- DeleteDatacenter, whose statements are in no transaction; where no device is of the datacenter, the
-- update changes nothing.
unfoldable pub delete_datacenter : Env → Text → Exec (Unit {0})
delete_datacenter env id = do
  fail_if (is_empty id) invalid_id
  exists ← ask (datacenter_exists id)
  fail_if (not exists) datacenter_not_found
  modify (unlink_devices id)
  delete_row id
  audit_log env (codes "delete") (codes "datacenter") id
