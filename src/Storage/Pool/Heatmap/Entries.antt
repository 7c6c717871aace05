-- ===== src/Storage/Pool/Heatmap/Entries.antt =====
-- The heatmap lists the addresses of the range in order, at most maxIPs of them.
use rackd.Prelude.{
  ℕ, zero, suc, ◌-◌, ◌^◌, ◌≤◌, ◌<◌, ◌≡◌, ap, min, true, false, List, [], ◌∷◌, map, arith, nat_eq,
  leb, Bool-cases, inl, inr,
}
use rackd.Text.{Text, is_empty}
use rackd.Storage.IpRange.{ip_equal}
use rackd.Storage.IpRange.Value.{ip_equal-eq}
use rackd.Storage.IpRange.Address.{address, address-IsIp4, value-address}
use rackd.Storage.Pool.{get_network_pool}
use rackd.Storage.Pool.Allocate.{parse_range}
use rackd.Storage.Pool.Search.{ip_text, increment-address}
use rackd.Storage.Pool.Heatmap.{
  IpStatus, ip_status, heatmap_loop, max_ips, get_pool_heatmap, pool_addresses, pool_reservations,
}
use rackd.Error.{ok}
use rackd.Model.{NetworkPool}
use rackd.Store.{Store}

-- lo, lo + 1, …: `n` numbers
abbrev pub range_from : ℕ → ℕ → List ℕ
range_from lo zero = []
range_from lo (suc n) = lo ∷ range_from (suc lo) n

ip_equal-address :
    (lo hi : ℕ) → lo < 2 ^ 32 → hi < 2 ^ 32 → ip_equal (address lo) (address hi) ≡ nat_eq lo hi
ip_equal-address lo hi h k =
    let p = value-address lo h in
    let q = value-address hi k in
    let e = ip_equal-eq (address-IsIp4 lo) (address-IsIp4 hi) in ground arith

heatmap_loop-range :
    (left : ℕ) (status : Text → IpStatus) (lo hi : ℕ)
    → lo ≤ hi
    → hi < 2 ^ 32
    → heatmap_loop left status (address lo) (address hi)
      ≡ map (λ n. status (ip_text n)) (range_from lo (min left (suc hi - lo)))
unfolding heatmap_loop
heatmap_loop-range zero status lo hi h k = let z : min 0 (suc hi - lo) ≡ 0 = omega arith in rw z
heatmap_loop-range (suc left) status lo hi h k = elim (Bool-cases (nat_eq lo hi)) [
  | inl last ↦
      let z : min (suc left) (suc hi - lo) ≡ 1 = ground arith in
      rw (z, ip_equal-address lo hi (omega arith) k, last)
  | inr more ↦
      let lt : lo < hi = ground arith in
      let z : min (suc left) (suc hi - lo) ≡ suc (min left (suc hi - suc lo)) = omega arith in
      let step = increment-address lo hi (omega arith) k in
      let within : leb (suc lo) hi ≡ true = ground arith in
      rw (z, ip_equal-address lo hi (omega arith) k, more, step.1, within, step.0)
        (ap (◌∷◌ (status (ip_text lo))) (heatmap_loop-range left status (suc lo) hi lt k))
]

-- For a range that is not reversed, GetPoolHeatmap has one entry per address of the range, in order,
-- up to the first 65536, each with the status of that address.
pub get_pool_heatmap-range :
    (id : Text) (s : Store) (pool : NetworkPool) (lo hi : ℕ)
    → is_empty id ≡ false
    → get_network_pool id s ≡ ok pool
    → parse_range pool.start_ip pool.end_ip ≡ ok (address lo, address hi)
    → lo ≤ hi
    → hi < 2 ^ 32
    → get_pool_heatmap id s
      ≡ ok (
          map
            (λ n. ip_status (pool_addresses id s) (pool_reservations id s) (ip_text n))
            (range_from lo (min max_ips (suc hi - lo))))
unfolding get_pool_heatmap
get_pool_heatmap-range id s pool lo hi e p q h k =
    rw (e, p, get_pool_heatmap, q) (ap ok (heatmap_loop-range max_ips _ lo hi h k))
