-- ===== src/Service/Pool.antt =====
-- internal/service/pool.go: the guards in front of the storage of pools.
use rackd.Prelude.{Bool, Option, some, List}
use rackd.Text.{Text, codes, is_empty}
use rackd.Error.{
  Error, ok, network_not_found, pool_not_found, ip_not_available, not_found, no_ip_available,
  invalid, map_error,
}
use rackd.Model.{NetworkPool}
use rackd.Store.{Env, Exec, query, ◌>>◌, fail_if}
use rackd.Storage.Pool.{
  create_network_pool, get_network_pool, update_network_pool, delete_network_pool,
}
use rackd.Storage.Pool.Allocate.{get_next_available_ip, validate_ip_in_pool}
use rackd.Storage.Pool.Heatmap.{IpStatus, get_pool_heatmap}
use rackd.Storage.Pool.Listing.{NetworkPoolFilter, of_network, get_network, list_network_pools}
use rackd.Service.Access.{require_permission, enrich_audit}

-- ErrNotFound for the storage's ErrPoolNotFound
abbrev as_not_found : Error → Error
as_not_found pool_not_found = not_found
as_not_found e = e

-- ErrNotFound for the storage's ErrNetworkNotFound
abbrev no_network : Error → Error
no_network network_not_found = not_found
no_network e = e

abbrev permit : Env → Text → Exec (Unit {0})
permit env action = require_permission env (codes "pools") action

-- List
unfoldable pub list : Env → Option NetworkPoolFilter → Exec (List NetworkPool)
list env filter = do permit env (codes "list"); query (λ s. ok (list_network_pools filter s))

-- ListByNetwork
unfoldable pub list_by_network : Env → Text → Exec (List NetworkPool)
list_by_network env network = do
  permit env (codes "list")
  query (λ s. map_error no_network (get_network network s))
  query (λ s. ok (list_network_pools (some (of_network network)) s))

-- Create
unfoldable pub create : Env → NetworkPool → Exec NetworkPool
create env pool = do
  permit env (codes "create")
  fail_if (is_empty pool.name) (invalid "name" "Name is required")
  fail_if (is_empty pool.network_id) (invalid "network_id" "Network ID is required")
  query (λ s. map_error no_network (get_network pool.network_id s))
  fail_if (is_empty pool.start_ip) (invalid "start_ip" "Start IP is required")
  fail_if (is_empty pool.end_ip) (invalid "end_ip" "End IP is required")
  create_network_pool (enrich_audit env) pool

-- Get
unfoldable pub get : Env → Text → Exec NetworkPool
get env id = do
  permit env (codes "read")
  query (λ s. map_error as_not_found (get_network_pool id s))

-- Update
unfoldable pub update : Env → NetworkPool → Exec NetworkPool
update env pool = do
  permit env (codes "update")
  fail_if (is_empty pool.id) (invalid "id" "ID is required")
  fail_if (is_empty pool.name) (invalid "name" "Name is required")
  update_network_pool (enrich_audit env) pool

-- The error of a call, where it has one, through a change.
abbrev on_error : (Error → Error) → Exec (Unit {0}) → Exec (Unit {0})
on_error f m s = (map_error f (m s).0, (m s).1)

-- Delete
unfoldable pub delete : Env → Text → Exec (Unit {0})
delete env id = do
  permit env (codes "delete")
  on_error as_not_found (delete_network_pool (enrich_audit env) id)

abbrev no_address : Error → Error
no_address pool_not_found = not_found
no_address ip_not_available = no_ip_available
no_address e = e

-- GetNextIP
unfoldable pub get_next_ip : Env → Text → Exec Text
get_next_ip env id = do
  permit env (codes "read")
  query (λ s. map_error no_address (get_next_available_ip id s))

-- ValidateIPInPool
unfoldable pub validate_ip : Env → Text → Text → Exec Bool
validate_ip env id ip = do permit env (codes "read"); query (validate_ip_in_pool id ip)

-- GetHeatmap
unfoldable pub get_heatmap : Env → Text → Exec (List IpStatus)
get_heatmap env id = do
  permit env (codes "read")
  query (λ s. map_error as_not_found (get_pool_heatmap id s))
