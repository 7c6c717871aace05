-- ===== src/Storage/Pool/Heatmap.antt =====
-- internal/storage/pool_sqlite.go: GetPoolHeatmap.
pub mod Entries
use rackd.Prelude.{
  ℕ, zero, suc, Bool, true, false, ◌&&◌, Option, none, some, List, [], ◌∷◌, if◌then◌else◌, keep,
}
use rackd.Text.{Text, codes, ◌==◌, is_empty}
use rackd.Net.{format_ip}
use rackd.Error.{Error, Result, ok, err, invalid_id}
use rackd.Model.{AddressRow, ReservationRow}
use rackd.Store.{Store}
use rackd.Storage.IpRange.{increment_ip, ip_equal}
use rackd.Storage.Pool.{get_network_pool, is_id}
use rackd.Storage.Pool.Allocate.{parse_range}

-- storage.IPStatus
pub record IpStatus : Type 0 where
  pub ip : Text
  pub status : Text
  pub device_id : Text

-- The value of a map that a loop fills: the last assignment of the key.
unfoldable pub last_device : Text → List AddressRow → Option Text
last_device ip [] = none
last_device ip (a ∷ rows) = elim (last_device ip rows) [
  | some id ↦ some id
  | none ↦ if a.ip == ip then some a.device_id else none
]

-- SELECT ip, device_id FROM addresses WHERE pool_id = ?
unfoldable pub pool_addresses : Text → Store → List AddressRow
pool_addresses id s = keep (λ a. is_id id a.pool_id) s.addresses

-- SELECT ip_address, id FROM reservations WHERE pool_id = ? AND status = 'active'
unfoldable pub pool_reservations : Text → Store → List ReservationRow
pool_reservations id s = keep (λ r. r.pool_id == id && r.status == codes "active") s.reservations

-- The key is in the map of reservations.
unfoldable pub is_reserved : Text → List ReservationRow → Bool
is_reserved ip [] = false
is_reserved ip (r ∷ rows) = if r.ip_address == ip then true else is_reserved ip rows

-- One entry of the heatmap.
unfoldable pub ip_status : List AddressRow → List ReservationRow → Text → IpStatus
ip_status addresses reservations ip = elim (last_device ip addresses) [
  | some id ↦ record { ip = ip; status = codes "used"; device_id = id }
  | none ↦
      if is_reserved ip reservations
      then record { ip = ip; status = codes "reserved"; device_id = [] }
      else record { ip = ip; status = codes "available"; device_id = [] }
]

-- The loop; the first argument is what `count` has left.
unfoldable pub heatmap_loop : ℕ → (Text → IpStatus) → List ℕ → List ℕ → List IpStatus
heatmap_loop zero status current end_ip = []
heatmap_loop (suc left) status current end_ip =
    let next = increment_ip current end_ip in
    let rest = heatmap_loop left status next.0 end_ip in
    status (format_ip current)
    ∷ (if ip_equal current end_ip then [] else if next.1 then rest else [])

-- maxIPs
unfoldable pub max_ips : ℕ
max_ips = 65536

abbrev pub heatmap_of : (Text → IpStatus) → Result (List ℕ × List ℕ) → Result (List IpStatus)
heatmap_of status (err e) = err e
heatmap_of status (ok (start, end_ip)) = ok (heatmap_loop max_ips status start end_ip)

-- GetPoolHeatmap
unfoldable pub get_pool_heatmap : Text → Store → Result (List IpStatus)
get_pool_heatmap id s = if is_empty id then err invalid_id else elim (get_network_pool id s) [
  | err e ↦ err e
  | ok pool ↦
      heatmap_of (ip_status (pool_addresses id s) (pool_reservations id s))
        (parse_range pool.start_ip pool.end_ip)
]
