-- ===== src/Tests/Networks.antt =====
-- Networks in the small store.
use rackd.Prelude.{false, map, ◌≡◌, ◌≤◌, ◌^◌, refl, true, none, some, List, [], ◌∷◌, any, arith}
use rackd.Text.{codes, ◌==◌}
use rackd.Net.{parse_ip}
use rackd.Net.Cidr.{parse_cidr}
use rackd.Error.{ok, err, failed, foreign_key_failed}
use rackd.Store.{Store, Env, enqueue}
use rackd.Storage.Pool.{network_exists, pool_exists}
use rackd.Storage.Network.{
  delete_network, delete_pools, delete_row, in_pool, cidr_size, host_size, calculate_cidr_size,
  count_used, get_network_utilization,
}
use rackd.Storage.Pool.Listing.{get_network}
use rackd.Storage.Network.Delete.{delete_network_blocked}
use rackd.Storage.Network.Size.{cidr_size_mono}
use rackd.Storage.Relationship.{add_relationship, upsert}
use rackd.Storage.Relationship.Spec.{Change, adds, notes_of}
use rackd.Storage.Relationship.Refine.{run_all, spec_all, here_in, relationships_refine}
use rackd.Storage.Datacenter.{datacenter_exists, delete_datacenter}
use rackd.Storage.Datacenter.Delete.{cleared, delete_datacenter_partial}
use rackd.Model.{DeviceRow}
use rackd.Storage.References.{References}
use rackd.Storage.Steps.{here, next, reserves, deletes_network, Reach-References}
use rackd.Storage.Reservation.{create_reservation, to_row}
use rackd.Tests.Fixtures.{store, env, address_1, reservation_2}

runs : Unit {0}
unfolding ◌==◌ network_exists pool_exists delete_network delete_pools delete_row enqueue parse_ip
    to_row parse_cidr host_size calculate_cidr_size count_used get_network_utilization get_network
runs = tt

utilization_test :
    (get_network_utilization (codes "n1") store).0
    ≡ ok (record { total_ips = 254; used_ips = 0; available_ips = 254 })
unfolding runs
utilization_test = refl

network_there : network_exists (codes "n1") store ≡ true
unfolding runs
network_there = refl

pool_used : any (λ a. in_pool (codes "n1") store a.pool_id) store.addresses ≡ true
unfolding runs
pool_used = refl

-- A device has an address of the network's pool.
delete_network_blocked_example :
    delete_network env (codes "n1") store
    ≡ (err (failed "failed to delete network pools" foreign_key_failed), store)
delete_network_blocked_example =
    delete_network_blocked env (codes "n1") store refl network_there pool_used

-- The device has its address in the network, and in no pool.
abbrev loose : Store
loose = record store {
  addresses = record address_1 { network_id = some (codes "n1"); pool_id = none } ∷ [];
}

loose-References : References loose
unfolding runs
loose-References = record { networks = refl; tags = refl; reservations = refl }

-- A reservation, and the end of the network
Reach-References_example :
    References (delete_network env (codes "n1") (create_reservation env reservation_2 loose).1).1
Reach-References_example =
    Reach-References loose
      (delete_network env (codes "n1") (create_reservation env reservation_2 loose).1).1
      loose-References
      (next (next here (reserves env reservation_2 loose))
        (deletes_network env (codes "n1") (create_reservation env reservation_2 loose).1))

cidr_size_mono_example :
    (1 ≤ cidr_size 31 32) × (cidr_size 31 32 ≤ cidr_size 30 32) × (cidr_size 30 32 ≤ 2 ^ 20)
cidr_size_mono_example = cidr_size_mono 30 31 32 (omega arith)

-- A datacenter with a device and a network.
abbrev device : DeviceRow
device = record {
  id = codes "v1";
  name = codes "web-01";
  hostname = [];
  description = [];
  make_model = [];
  os = [];
  datacenter_id = codes "d1";
  username = [];
  location = [];
  status = codes "active";
  decommission_date = none;
  status_changed_at = none;
  status_changed_by = [];
  created_at = 0;
  updated_at = 0;
}

abbrev located : Store
located = record store {
  datacenters =
      record {
        id = codes "d1";
        name = codes "Berlin";
        location = [];
        description = [];
        created_at = 0;
        updated_at = 0;
      }
      ∷ [];
  devices = device ∷ [];
}

datacenter_there : datacenter_exists (codes "d1") located ≡ true
unfolding runs
datacenter_there = refl

network_located : any (λ n. n.datacenter_id == codes "d1") located.networks ≡ true
unfolding runs
network_located = refl

delete_datacenter_partial_example :
    ((delete_datacenter env (codes "d1") located).0
      ≡ err (failed "failed to delete datacenter" foreign_key_failed))
    × (any
          (λ d. d.datacenter_id == codes "d1")
          (delete_datacenter env (codes "d1") located).1.devices
        ≡ false)
    × ((delete_datacenter env (codes "d1") located).1
        ≡ record located { devices = map (cleared (codes "d1")) located.devices })
delete_datacenter_partial_example =
    delete_datacenter_partial env (codes "d1") located refl datacenter_there network_located

abbrev blade : DeviceRow
blade = record device { id = codes "v2" }

abbrev racked : Store
racked = record located { devices = device ∷ blade ∷ [] }

-- A relationship that is added twice, and one to a device that is not there
abbrev changes : List (Env × Change)
changes =
    (env, adds (codes "v1") (codes "v3") (codes "contains") [])
    ∷ (env, adds (codes "v1") (codes "v2") (codes "contains") (codes "slot 2"))
    ∷ (env, adds (codes "v1") (codes "v2") (codes "contains") (codes "slot 1"))
    ∷ []

slot_test :
    notes_of (run_all changes racked) (codes "v1") (codes "v2") (codes "contains")
    ≡ some (codes "slot 2")
unfolding add_relationship upsert runs
slot_test = refl

relationships_refine_example :
    notes_of (run_all changes racked) ≡ spec_all (here_in racked) changes (notes_of racked)
relationships_refine_example = relationships_refine changes racked
