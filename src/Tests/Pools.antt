-- ===== src/Tests/Pools.antt =====
-- The allocation of addresses.
use rackd.Prelude.{
  ℕ, ◌+◌, ◌%◌, ◌^◌, ◌≤◌, ◌<◌, ◌≡◌, ◌≢◌, refl, subst, sym, some, true, false, min, map, leb, [], ◌∷◌,
  arith, suc, ◌-◌,
}
use rackd.Text.{codes, ◌==◌}
use rackd.Net.{quad, parse_ip, v4, to4, format_ip}
use rackd.Net.RoundTrip.{parse_ip-format_ip}
use rackd.Error.{ok, err, diverged}
use rackd.Model.{NetworkPool}
use rackd.Store.{Store}
use rackd.Storage.IpRange.{increment_ip}
use rackd.Storage.IpRange.Value.{value, increment_ip-eq}
use rackd.Storage.IpRange.Address.{address}
use rackd.Storage.Order.{sort_by}
use rackd.Storage.Pool.{get_network_pool}
use rackd.Storage.Pool.Allocate.{
  parse_range, used_ips, contains, Search, search_result, get_next_available_ip, next_free,
  search_fuel,
}
use rackd.Storage.Pool.Search.{ip_text, FirstFree, get_next_available_ip-FirstFree}
use rackd.Storage.Pool.Rounds.{get_next_available_ip-returns}
use rackd.Storage.Pool.Heatmap.{
  get_pool_heatmap, ip_status, pool_addresses, pool_reservations, max_ips,
}
use rackd.Storage.Pool.Heatmap.Entries.{range_from, get_pool_heatmap-range}
use rackd.Tests.Fixtures.{pool, store, address_1}

abbrev lo : ℕ
lo = 0x0a000001

abbrev hi : ℕ
hi = 0x0a000003

range_test : parse_range (codes "10.0.0.1") (codes "10.0.0.3") ≡ ok (address lo, address hi)
unfolding parse_range parse_ip to4 address
range_test = refl

pool_test : get_network_pool (codes "p1") store ≡ ok pool
unfolding get_network_pool ◌==◌ sort_by
pool_test = refl

next_test : get_next_available_ip (codes "p1") store ≡ ok (codes "10.0.0.2")
unfolding get_next_available_ip get_network_pool ◌==◌ parse_range parse_ip to4 used_ips next_free
    search_fuel format_ip increment_ip
next_test = refl

parse_ip-format_ip_example :
    parse_ip (format_ip (10 ∷ 0 ∷ 0 ∷ 7 ∷ [])) ≡ some (v4 (10 ∷ 0 ∷ 0 ∷ 7 ∷ []))
parse_ip-format_ip_example =
    parse_ip-format_ip (quad 10 0 0 7 (omega arith) (omega arith) (omega arith) (omega arith))

get_next_available_ip-FirstFree_example :
    (r : Search) × (get_next_available_ip (codes "p1") store ≡ search_result r)
    × FirstFree (used_ips (codes "p1") store) lo hi r
get_next_available_ip-FirstFree_example =
    get_next_available_ip-FirstFree (codes "p1") store pool lo hi refl pool_test range_test
      (omega arith) (omega arith)

-- A pool that is one address, the last of all, and it is in use.
abbrev last_pool : NetworkPool
last_pool = record pool { start_ip = codes "255.255.255.255"; end_ip = codes "255.255.255.255" }

abbrev full_store : Store
full_store = record store {
  network_pools = last_pool ∷ [];
  addresses = record address_1 { ip = codes "255.255.255.255" } ∷ [];
}

last_pool_test : get_network_pool (codes "p1") full_store ≡ ok last_pool
unfolding get_network_pool ◌==◌ sort_by
last_pool_test = refl

last_range_test :
    parse_range (codes "255.255.255.255") (codes "255.255.255.255")
    ≡ ok (address (2 ^ 32 - 1), address (2 ^ 32 - 1))
unfolding parse_range parse_ip to4 address
last_range_test = refl

last_used : contains (used_ips (codes "p1") full_store) (ip_text (2 ^ 32 - 1)) ≡ true
unfolding used_ips ◌==◌ format_ip address
last_used = refl

zero_free : contains (used_ips (codes "p1") full_store) (ip_text 0) ≡ false
unfolding used_ips ◌==◌ format_ip address
zero_free = refl

all_used :
    (m : ℕ)
    → 2 ^ 32 - 1 ≤ m
    → m < 2 ^ 32
    → contains (used_ips (codes "p1") full_store) (ip_text m) ≡ true
all_used m a b =
    let e : m ≡ 2 ^ 32 - 1 = omega arith in
    subst (λ n. contains (used_ips (codes "p1") full_store) (ip_text n) ≡ true) (sym e) last_used

get_next_available_ip-returns_example : get_next_available_ip (codes "p1") full_store ≢ err diverged
get_next_available_ip-returns_example =
    get_next_available_ip-returns (codes "p1") full_store last_pool (2 ^ 32 - 1) (2 ^ 32 - 1) 0 refl
      last_pool_test last_range_test (omega arith) (omega arith) zero_free

get_pool_heatmap-range_example :
    get_pool_heatmap (codes "p1") store
    ≡ ok (
        map
          (λ n.
            ip_status
              (pool_addresses (codes "p1") store)
              (pool_reservations (codes "p1") store)
              (ip_text n))
          (range_from lo (min max_ips (suc hi - lo))))
get_pool_heatmap-range_example =
    get_pool_heatmap-range (codes "p1") store pool lo hi refl pool_test range_test (omega arith)
      (omega arith)

-- 10.0.0.255 + 1
increment_ip-eq_example :
    (value (increment_ip (10 ∷ 0 ∷ 0 ∷ 255 ∷ []) (10 ∷ 0 ∷ 1 ∷ 0 ∷ [])).0
      ≡ (value (10 ∷ 0 ∷ 0 ∷ 255 ∷ []) + 1) % 2 ^ 32)
    × ((increment_ip (10 ∷ 0 ∷ 0 ∷ 255 ∷ []) (10 ∷ 0 ∷ 1 ∷ 0 ∷ [])).1
        ≡ leb ((value (10 ∷ 0 ∷ 0 ∷ 255 ∷ []) + 1) % 2 ^ 32) (value (10 ∷ 0 ∷ 1 ∷ 0 ∷ [])))
increment_ip-eq_example =
    increment_ip-eq (quad 10 0 0 255 (omega arith) (omega arith) (omega arith) (omega arith))
      (quad 10 0 1 0 (omega arith) (omega arith) (omega arith) (omega arith))
