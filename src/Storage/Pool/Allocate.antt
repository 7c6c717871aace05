-- ===== src/Storage/Pool/Allocate.antt =====
-- internal/storage/pool_sqlite.go: GetNextAvailableIP, ValidateIPInPool and GetPoolHeatmap.
use rackd.Prelude.{ℕ, zero, suc, ◌^◌, Bool, Option, none, some, List, if◌then◌else◌, any, keep, map}
use rackd.Text.{Text, ◌==◌, is_empty}
use rackd.Net.{Ip, parse_ip, to4, format_ip}
use rackd.Error.{Error, Result, ok, err, invalid_id, ip_not_available, message, diverged, or_error}
use rackd.Store.{Store}
use rackd.Storage.IpRange.{increment_ip, ip_in_range}
use rackd.Storage.Pool.{get_network_pool, is_id}

abbrev pub both {ℓ} : {A : Type ℓ} → Option A → Option A → Option (A × A)
both none b = none
both (some a) none = none
both (some a) (some b) = some (a, b)

abbrev pub only_ip4 : Error
only_ip4 = message "only IPv4 addresses are currently supported"

-- net.ParseIP of both texts, then IP.To4 of both.
abbrev pub to4_pair : Option (Ip × Ip) → Error → Result (List ℕ × List ℕ)
to4_pair none e = err e
to4_pair (some (a, b)) e = or_error (both (to4 a) (to4 b)) only_ip4

unfoldable pub parse_range : Text → Text → Result (List ℕ × List ℕ)
parse_range start end_ip =
    to4_pair (both (parse_ip start) (parse_ip end_ip)) (message "invalid IP range")

-- SELECT ip FROM addresses WHERE pool_id = ?, as the keys of a map
unfoldable pub used_ips : Text → Store → List Text
used_ips id s = map (λ a. a.ip) (keep (λ a. is_id id a.pool_id) s.addresses)

abbrev pub contains : List Text → Text → Bool
contains ips ip = any (λ i. i == ip) ips

pub data Search : Type 0 where
  found : Text → Search
  exhausted out_of_fuel : Search

-- The loop of GetNextAvailableIP, with fuel.
unfoldable pub next_free : ℕ → List Text → List ℕ → List ℕ → Search
next_free zero used current end_ip = out_of_fuel
next_free (suc fuel) used current end_ip =
    let next = increment_ip current end_ip in
    let rest = next_free fuel used next.0 end_ip in
    if contains used (format_ip current)
    then if next.1 then rest else exhausted
    else found (format_ip current)

-- One round for each IPv4 address.
unfoldable pub search_fuel : ℕ
search_fuel = 2 ^ 32

abbrev pub search_result : Search → Result Text
search_result (found ip) = ok ip
search_result exhausted = err ip_not_available
search_result out_of_fuel = err diverged

abbrev search_range : List Text → Result (List ℕ × List ℕ) → Result Text
search_range used (err e) = err e
search_range used (ok (start, end_ip)) = search_result (next_free search_fuel used start end_ip)

-- GetNextAvailableIP
unfoldable pub get_next_available_ip : Text → Store → Result Text
get_next_available_ip id s = if is_empty id then err invalid_id else elim (get_network_pool id s) [
  | err e ↦ err e
  | ok pool ↦ search_range (used_ips id s) (parse_range pool.start_ip pool.end_ip)
]

-- Three addresses at once.
abbrev and_third : Option (Ip × Ip) → Option Ip → Option (Ip × Ip × Ip)
and_third none c = none
and_third (some (a, b)) none = none
and_third (some (a, b)) (some c) = some (a, b, c)

abbrev to4_in_range : Option (Ip × Ip × Ip) → Result Bool
to4_in_range none = err (message "invalid IP address")
to4_in_range (some (ip, start, end_ip)) = elim (both (to4 ip) (to4 start)) [
  | none ↦ err only_ip4
  | some (i, s) ↦ elim (to4 end_ip) [ none ↦ err only_ip4 | some e ↦ ok (ip_in_range i s e) ]
]

-- The check that ValidateIPInPool and CreateReservation share.
unfoldable pub check_in_range : Text → Text → Text → Result Bool
check_in_range ip start end_ip =
    to4_in_range (and_third (both (parse_ip ip) (parse_ip start)) (parse_ip end_ip))

-- ValidateIPInPool
unfoldable pub validate_ip_in_pool : Text → Text → Store → Result Bool
unfolding check_in_range
validate_ip_in_pool id ip s = if is_empty id then err invalid_id else elim (get_network_pool id s) [
  | err e ↦ err e
  | ok pool ↦ check_in_range ip pool.start_ip pool.end_ip
]
