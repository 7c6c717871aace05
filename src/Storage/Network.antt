-- ===== src/Storage/Network.antt =====
-- internal/storage/network_sqlite.go: the rows of networks. LIKE of SQLite is a parameter; the search
-- with FTS5 and the devices of a network are not here.
pub mod Delete
pub mod Size
use rackd.Prelude.{
  ℕ, ◌-◌, ◌^◌, Bool, true, false, not, ◌&&◌, ◌||◌, Option, none, some, List, [], ◌∷◌, ◌++◌, map,
  ltb, leb, nat_eq, if◌then◌else◌, any, keep, find, length,
}
use rackd.Text.{Text, codes, ◌==◌, is_empty}
use rackd.Net.Cidr.{parse_cidr}
use rackd.Error.{
  Error, Result, ok, err, message, failed, unique_failed, foreign_key_failed, invalid_id,
  network_not_found, or_error,
}
use rackd.Model.{Time, Network, NetworkPool, AddressRow}
use rackd.Store.{
  Store, Env, Exec, return, ask, query, transaction, ◌>>=◌, ◌>>◌, fail_if, modify, audit_log,
  or_uuid,
}
use rackd.Storage.Order.{Like, contains_part, Pagination, paginate, text_leb, sort_by}
use rackd.Storage.Pool.{network_exists, is_id}
use rackd.Storage.Pool.Listing.{get_network}

-- model.NetworkFilter
pub record NetworkFilter : Type 0 where
  pub page : Pagination
  pub name : Text
  pub datacenter_id : Text
  pub vlan_id : ℕ

unfoldable pub matches_network : Like → Option NetworkFilter → Network → Bool
matches_network like none n = true
matches_network like (some f) n =
    contains_part like f.name n.name
    && (is_empty f.datacenter_id || n.datacenter_id == f.datacenter_id)
    && (nat_eq f.vlan_id 0 || nat_eq n.vlan_id f.vlan_id)

abbrev page_of : Option NetworkFilter → Option Pagination
page_of none = none
page_of (some f) = some f.page

-- ListNetworks
unfoldable pub list_networks : Like → Option NetworkFilter → Store → List Network
list_networks like filter s =
    paginate (page_of filter)
      (sort_by (λ a b. text_leb a.name b.name) (keep (matches_network like filter) s.networks))

-- An empty datacenter_id is NULL.
abbrev has_datacenter : Text → Store → Bool
has_datacenter id s = is_empty id || any (λ d. d.id == id) s.datacenters

-- INSERT INTO networks: the id is the primary key.
unfoldable pub insert_network : Network → Exec (Unit {0})
unfolding network_exists
insert_network n s =
    if network_exists n.id s
    then (err (failed "failed to create network" unique_failed), s)
    else if has_datacenter n.datacenter_id s
    then (ok tt, record s { networks = s.networks ++ n ∷ [] })
    else (err (failed "failed to create network" foreign_key_failed), s)

-- CreateNetwork, with createNetworkInTx
unfoldable pub create_network : Env → Network → Exec Network
create_network env network = do
  let stamped = record network {
    id = or_uuid env network.id;
    created_at = env.now;
    updated_at = env.now;
  }
  transaction (insert_network stamped)
  audit_log env (codes "create") (codes "network") stamped.id
  return stamped

abbrev pub update_row : Network → Network → Network
update_row new n =
    if n.id == new.id
    then record n {
      name = new.name;
      subnet = new.subnet;
      vlan_id = new.vlan_id;
      datacenter_id = new.datacenter_id;
      description = new.description;
      updated_at = new.updated_at;
    }
    else n

-- UpdateNetwork
unfoldable pub update_network : Env → Network → Exec Network
unfolding network_exists
update_network env network = do
  fail_if (is_empty network.id) invalid_id
  exists ← ask (network_exists network.id)
  fail_if (not exists) network_not_found
  let stamped = record network { updated_at = env.now }
  known ← ask (has_datacenter network.datacenter_id)
  fail_if (not known) (failed "failed to update network" foreign_key_failed)
  modify (λ s. record s { networks = map (update_row stamped) s.networks })
  audit_log env (codes "update") (codes "network") network.id
  return stamped

-- UPDATE addresses SET network_id = NULL WHERE network_id = ?
abbrev pub unlink_addresses : Text → Store → Store
unlink_addresses id s = record s {
  addresses =
      map {A = AddressRow}
        (λ a. if is_id id a.network_id then record a { network_id = none } else a) s.addresses;
}

-- The id is of a pool of the network.
abbrev pub of_pool : Text → Store → Text → Bool
of_pool network s id = any (λ p. p.network_id == network && p.id == id) s.network_pools

abbrev pub in_pool : Text → Store → Option Text → Bool
in_pool network s none = false
in_pool network s (some id) = of_pool network s id

-- DELETE FROM network_pools WHERE network_id = ?, with the rows that ON DELETE CASCADE takes along; an
-- address of one of the pools keeps it.
unfoldable pub delete_pools : Text → Exec (Unit {0})
delete_pools id s =
    if any (λ a. in_pool id s a.pool_id) s.addresses
    then (err (failed "failed to delete network pools" foreign_key_failed), s)
    else (
      ok tt,
      record s {
        network_pools = keep (λ p. not (p.network_id == id)) s.network_pools;
        pool_tags = keep (λ t. not (of_pool id s t.pool_id)) s.pool_tags;
        reservations = keep (λ r. not (of_pool id s r.pool_id)) s.reservations;
      },
    )

-- DELETE FROM networks WHERE id = ?; a row of discovery keeps it.
unfoldable pub delete_row : Text → Exec (Unit {0})
delete_row id s =
    if any (λ n. n == id) s.discovery_networks
    then (err (failed "failed to delete network" foreign_key_failed), s)
    else (ok tt, record s { networks = keep (λ n. not (n.id == id)) s.networks })

-- DeleteNetwork, with deleteNetworkInTx
unfoldable pub delete_network : Env → Text → Exec (Unit {0})
unfolding network_exists delete_pools delete_row
delete_network env id = do
  fail_if (is_empty id) invalid_id
  transaction (do
    exists ← ask (network_exists id)
    fail_if (not exists) network_not_found
    modify (unlink_addresses id)
    delete_pools id
    delete_row id)
  audit_log env (codes "delete") (codes "network") id

-- calculateCIDRSize after the subnet is parsed, by the bits of the host
unfoldable pub host_size : ℕ → ℕ → ℕ
host_size bits host_bits =
    if leb host_bits 0
    then 1
    else if ltb 20 host_bits
    then 2 ^ 20
    else if nat_eq bits 32 && leb 2 host_bits
    then 2 ^ host_bits - 2
    else 2 ^ host_bits

abbrev pub cidr_size : ℕ → ℕ → ℕ
cidr_size ones bits = host_size bits (bits - ones)

-- calculateCIDRSize
unfoldable pub calculate_cidr_size : Text → Result ℕ
calculate_cidr_size subnet = elim (parse_cidr subnet) [
  | none ↦ err (message "failed to parse subnet CIDR")
  | some p ↦ ok (cidr_size p.0 p.1)
]

-- model.NetworkUtilization, without the quotient
pub record NetworkUtilization : Type 0 where
  pub total_ips : ℕ
  pub used_ips : ℕ
  pub available_ips : ℕ

-- The texts that differ, each once
abbrev pub distinct : List Text → List Text
distinct [] = []
distinct (t ∷ ts) = let rest = distinct ts in if any (λ u. u == t) ts then rest else t ∷ rest

-- SELECT COUNT(DISTINCT ip) FROM addresses WHERE network_id = ?
unfoldable pub count_used : Text → Store → ℕ
count_used id s =
    length (distinct (map (λ a. a.ip) (keep (λ a. is_id id a.network_id) s.addresses)))

-- GetNetworkUtilization
unfoldable pub get_network_utilization : Text → Exec NetworkUtilization
get_network_utilization id = do
  network ← query (get_network id)
  total ← query (λ _. calculate_cidr_size network.subnet)
  used ← ask (count_used id)
  return (record { total_ips = total; used_ips = used; available_ips = total - used })
