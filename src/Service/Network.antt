-- ===== src/Service/Network.antt =====
-- internal/service/network.go: the guards in front of the storage of networks. The search is not here.
use rackd.Prelude.{Option, List}
use rackd.Text.{Text, codes, is_empty}
use rackd.Error.{Error, network_not_found, not_found, invalid, map_error}
use rackd.Model.{Network}
use rackd.Store.{Env, Exec, query, ask, ◌>>◌, fail_if}
use rackd.Storage.Order.{Like}
use rackd.Storage.Pool.Listing.{get_network}
use rackd.Storage.Network.{
  NetworkFilter, list_networks, create_network, update_network, delete_network, NetworkUtilization,
  get_network_utilization,
}
use rackd.Model.Device.{Device}
use rackd.Storage.Device.Listing.{Seen, get_network_devices}
use rackd.Service.Access.{require_permission, enrich_audit}

abbrev as_not_found : Error → Error
as_not_found network_not_found = not_found
as_not_found e = e

abbrev on_error {ℓ} : {A : Type ℓ} → (Error → Error) → Exec A → Exec A
on_error f m s = (map_error f (m s).0, (m s).1)

abbrev permit : Env → Text → Exec (Unit {0})
permit env action = require_permission env (codes "networks") action

-- List
unfoldable pub list : Like → Env → Option NetworkFilter → Exec (List Network)
list like env filter = do permit env (codes "list"); ask (list_networks like filter)

-- Create
unfoldable pub create : Env → Network → Exec Network
create env network = do
  permit env (codes "create")
  fail_if (is_empty network.name) (invalid "name" "Name is required")
  fail_if (is_empty network.subnet) (invalid "subnet" "Subnet is required")
  create_network (enrich_audit env) network

-- Get
unfoldable pub get : Env → Text → Exec Network
get env id = do permit env (codes "read"); query (λ s. map_error as_not_found (get_network id s))

-- Update, which passes ErrNetworkNotFound on
unfoldable pub update : Env → Network → Exec Network
update env network = do
  permit env (codes "update")
  fail_if (is_empty network.id) (invalid "id" "ID is required")
  fail_if (is_empty network.name) (invalid "name" "Name is required")
  fail_if (is_empty network.subnet) (invalid "subnet" "Subnet is required")
  update_network (enrich_audit env) network

-- Delete
unfoldable pub delete : Env → Text → Exec (Unit {0})
delete env id = do
  permit env (codes "delete")
  on_error as_not_found (delete_network (enrich_audit env) id)

-- GetUtilization
unfoldable pub get_utilization : Env → Text → Exec NetworkUtilization
get_utilization env id = do
  permit env (codes "read")
  on_error as_not_found (get_network_utilization id)

-- GetDevices
unfoldable pub get_devices : Seen → Env → Text → Exec (List Device)
get_devices seen env id = do
  permit env (codes "read")
  query (λ s. map_error as_not_found (get_network id s))
  query (get_network_devices seen id)
