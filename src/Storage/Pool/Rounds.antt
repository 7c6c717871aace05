-- ===== src/Storage/Pool/Rounds.antt =====
-- The search of GetNextAvailableIP ends: it runs on only if every IPv4 address is in use.
use rackd.Prelude.{
  ℕ, zero, suc, ◌+◌, ◌-◌, ◌%◌, ◌^◌, ◌<◌, ◌≡◌, refl, ap, ◌∙◌, sym, ◌≢◌, true, false, List, arith,
}
use rackd.Text.{Text, is_empty}
use rackd.Storage.IpRange.{increment_ip}
use rackd.Storage.IpRange.Value.{value_injective, increment_ip-eq, increment_ip-IsIp4}
use rackd.Storage.IpRange.Address.{address, address-IsIp4, value-address}
use rackd.Storage.Pool.{get_network_pool}
use rackd.Storage.Pool.Allocate.{
  contains, Search, found, exhausted, out_of_fuel, next_free, search_result, search_fuel,
  get_next_available_ip, parse_range, used_ips,
}
use rackd.Storage.Pool.Search.{ip_text}
use rackd.Error.{ok, err, diverged}
use rackd.Model.{NetworkPool}
use rackd.Store.{Store}

increment-next :
    (n hi : ℕ) → n < 2 ^ 32 → (increment_ip (address n) (address hi)).0 ≡ address ((n + 1) % 2 ^ 32)
increment-next n hi h =
    let p = value-address n h in
    let r = value-address ((n + 1) % 2 ^ 32) (omega arith) in
    let e = (increment_ip-eq (address-IsIp4 n) (address-IsIp4 hi)).0 in
    value_injective (increment_ip-IsIp4 (address-IsIp4 n) _) (address-IsIp4 _) (omega arith)

-- When the fuel runs out, the addresses of all rounds were in use.
out_of_fuel-used :
    (fuel : ℕ) (used : List Text) (n hi k : ℕ)
    → n < 2 ^ 32
    → next_free fuel used (address n) (address hi) ≡ out_of_fuel
    → k < fuel
    → contains used (ip_text ((n + k) % 2 ^ 32)) ≡ true
unfolding next_free
out_of_fuel-used zero used n hi k h e lt = absurd (omega arith)
out_of_fuel-used (suc fuel) used n hi zero h e lt =
    let z : (n + 0) % 2 ^ 32 ≡ n = omega arith in rw z (ground arith)
out_of_fuel-used (suc fuel) used n hi (suc k) h e lt =
    let z : (n + suc k) % 2 ^ 32 ≡ ((n + 1) % 2 ^ 32 + k) % 2 ^ 32 = omega arith in
    let more : next_free fuel used (increment_ip (address n) (address hi)).0 (address hi)
        ≡ out_of_fuel =
      ground arith in
    rw z (
      out_of_fuel-used fuel used ((n + 1) % 2 ^ 32) hi k (omega arith)
        (ap (λ a. next_free fuel used a (address hi)) (sym (increment-next n hi h)) ∙ more)
        (omega arith))

search_result-diverged : (r : Search) → search_result r ≡ err diverged → r ≡ out_of_fuel
search_result-diverged (found t) e = ground arith
search_result-diverged exhausted e = ground arith
search_result-diverged out_of_fuel e = refl

-- The search of GetNextAvailableIP ends within 2^32 rounds, whatever the range, if some IPv4 address
-- is not used in the pool.
pub get_next_available_ip-returns :
    (id : Text) (s : Store) (pool : NetworkPool) (lo hi m : ℕ)
    → is_empty id ≡ false
    → get_network_pool id s ≡ ok pool
    → parse_range pool.start_ip pool.end_ip ≡ ok (address lo, address hi)
    → lo < 2 ^ 32
    → m < 2 ^ 32
    → contains (used_ips id s) (ip_text m) ≡ false
    → get_next_available_ip id s ≢ err diverged
unfolding get_next_available_ip search_fuel
get_next_available_ip-returns id s pool lo hi m e p q a b u d =
    let r = next_free (2 ^ 32) (used_ips id s) (address lo) (address hi) in
    let same : get_next_available_ip id s ≡ search_result r = rw (e, p, get_next_available_ip, q) in
    let k = (m + 2 ^ 32 - lo) % 2 ^ 32 in
    let z : (lo + k) % 2 ^ 32 ≡ m = omega arith in
    let all =
      out_of_fuel-used (2 ^ 32) (used_ips id s) lo hi k a (search_result-diverged r (sym same ∙ d))
        (omega arith) in
    cc (ap (λ n. contains (used_ips id s) (ip_text n)) z)
