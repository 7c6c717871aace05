-- ===== src/Service/Datacenter.antt =====
-- internal/service/datacenter.go: the guards in front of the storage of datacenters. The search is not here.
use rackd.Prelude.{Option, List}
use rackd.Text.{Text, codes, is_empty}
use rackd.Error.{Error, datacenter_not_found, not_found, invalid, map_error}
use rackd.Model.{Datacenter}
use rackd.Store.{Env, Exec, query, ask, ◌>>◌, fail_if}
use rackd.Storage.Order.{Like}
use rackd.Storage.Datacenter.{
  DatacenterFilter, list_datacenters, get_datacenter, create_datacenter, update_datacenter,
  delete_datacenter,
}
use rackd.Model.Device.{Device}
use rackd.Storage.Device.Listing.{Seen, get_datacenter_devices}
use rackd.Service.Access.{require_permission, enrich_audit}

abbrev as_not_found : Error → Error
as_not_found datacenter_not_found = not_found
as_not_found e = e

abbrev on_error : (Error → Error) → Exec (Unit {0}) → Exec (Unit {0})
on_error f m s = (map_error f (m s).0, (m s).1)

abbrev permit : Env → Text → Exec (Unit {0})
permit env action = require_permission env (codes "datacenters") action

-- List
unfoldable pub list : Like → Env → Option DatacenterFilter → Exec (List Datacenter)
list like env filter = do permit env (codes "list"); ask (list_datacenters like filter)

-- Create
unfoldable pub create : Env → Datacenter → Exec Datacenter
create env datacenter = do
  permit env (codes "create")
  fail_if (is_empty datacenter.name) (invalid "name" "Name is required")
  create_datacenter (enrich_audit env) datacenter

-- Get
unfoldable pub get : Env → Text → Exec Datacenter
get env id = do permit env (codes "read"); query (λ s. map_error as_not_found (get_datacenter id s))

-- Update, which passes ErrDatacenterNotFound on
unfoldable pub update : Env → Datacenter → Exec Datacenter
update env datacenter = do
  permit env (codes "update")
  fail_if (is_empty datacenter.id) (invalid "id" "ID is required")
  fail_if (is_empty datacenter.name) (invalid "name" "Name is required")
  update_datacenter (enrich_audit env) datacenter

-- Delete
unfoldable pub delete : Env → Text → Exec (Unit {0})
delete env id = do
  permit env (codes "delete")
  on_error as_not_found (delete_datacenter (enrich_audit env) id)

-- GetDevices
unfoldable pub get_devices : Seen → Env → Text → Exec (List Device)
get_devices seen env id = do
  permit env (codes "read")
  query (λ s. map_error as_not_found (get_datacenter id s))
  query (get_datacenter_devices seen id)
