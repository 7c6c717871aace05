-- ===== src/Storage/Pool/Wrap.antt =====
-- The search of GetNextAvailableIP outside the ranges of Search: a pool that ends at
-- 255.255.255.255, a pool whose end is below its start, and the bound on the rounds.
use rackd.Prelude.{
  ℕ, zero, suc, ◌+◌, ◌-◌, ◌%◌, ◌^◌, ◌≤◌, ◌<◌, ◌≡◌, ap, ◌∙◌, true, false, List, arith,
}
use rackd.Text.{Text, is_empty}
use rackd.Storage.IpRange.{increment_ip}
use rackd.Storage.IpRange.Value.{value_injective, increment_ip-eq, increment_ip-IsIp4}
use rackd.Storage.IpRange.Address.{address, address-IsIp4, value-address}
use rackd.Storage.Pool.{get_network_pool}
use rackd.Storage.Pool.Allocate.{
  contains, found, next_free, search_result, search_fuel, get_next_available_ip, parse_range,
  used_ips,
}
use rackd.Storage.Pool.Search.{ip_text}
use rackd.Error.{ok}
use rackd.Model.{NetworkPool}
use rackd.Store.{Store}

abbrev last : ℕ
last = 2 ^ 32 - 1

-- incrementIP toward the last address never says that the end is passed.
increment-last :
    (n : ℕ)
    → n < 2 ^ 32
    → ((increment_ip (address n) (address last)).0 ≡ address ((n + 1) % 2 ^ 32))
      × ((increment_ip (address n) (address last)).1 ≡ true)
increment-last n h =
    let p = value-address n h in
    let q = value-address last (omega arith) in
    let r = value-address ((n + 1) % 2 ^ 32) (omega arith) in
    let e = increment_ip-eq (address-IsIp4 n) (address-IsIp4 last) in
    (
      value_injective (increment_ip-IsIp4 (address-IsIp4 n) _) (address-IsIp4 _) (omega arith),
      ground arith,
    )

-- One round at a used address.
next_free-used :
    (fuel : ℕ) (used : List Text) (n : ℕ)
    → n < 2 ^ 32
    → contains used (ip_text n) ≡ true
    → next_free (suc fuel) used (address n) (address last)
      ≡ next_free fuel used (address ((n + 1) % 2 ^ 32)) (address last)
unfolding next_free
next_free-used fuel used n h u = rw (u, (increment-last n h).1, (increment-last n h).0)

-- Rounds at used addresses, from `lo` to the last one, lead to 0.0.0.0.
next_free_wraps :
    (rounds fuel : ℕ) (used : List Text) (lo : ℕ)
    → lo + suc rounds ≡ 2 ^ 32
    → ((m : ℕ) → lo ≤ m → m < 2 ^ 32 → contains used (ip_text m) ≡ true)
    → next_free (suc rounds + fuel) used (address lo) (address last)
      ≡ next_free fuel used (address 0) (address last)
next_free_wraps zero fuel used lo e u =
    let f : 1 + fuel ≡ suc fuel = omega arith in
    let z : (lo + 1) % 2 ^ 32 ≡ 0 = omega arith in
    rw f (
      next_free-used fuel used lo (omega arith) (u lo (omega arith) (omega arith))
      ∙ ap (λ n. next_free fuel used (address n) (address last)) z)
next_free_wraps (suc rounds) fuel used lo e u =
    let f : suc (suc rounds) + fuel ≡ suc (suc rounds + fuel) = omega arith in
    let z : (lo + 1) % 2 ^ 32 ≡ suc lo = omega arith in
    rw f (
      next_free-used (suc rounds + fuel) used lo (omega arith) (u lo (omega arith) (omega arith))
      ∙ ap (λ n. next_free (suc rounds + fuel) used (address n) (address last)) z
      ∙ next_free_wraps rounds fuel used (suc lo) (omega arith) (λ m a b. u m (omega arith) b))

next_free-found :
    (fuel : ℕ) (used : List Text) (n hi : ℕ)
    → contains used (ip_text n) ≡ false
    → next_free (suc fuel) used (address n) (address hi) ≡ found (ip_text n)
unfolding next_free
next_free-found fuel used n hi u = rw u

-- In a full pool that ends at 255.255.255.255 and does not start at 0.0.0.0, GetNextAvailableIP
-- answers with 0.0.0.0, if no device of the pool uses it.
pub get_next_available_ip_wraps :
    (id : Text) (s : Store) (pool : NetworkPool) (lo : ℕ)
    → is_empty id ≡ false
    → get_network_pool id s ≡ ok pool
    → parse_range pool.start_ip pool.end_ip ≡ ok (address lo, address last)
    → 0 < lo
    → lo < 2 ^ 32
    → ((m : ℕ) → lo ≤ m → m < 2 ^ 32 → contains (used_ips id s) (ip_text m) ≡ true)
    → contains (used_ips id s) (ip_text 0) ≡ false
    → get_next_available_ip id s ≡ ok (ip_text 0)
unfolding get_next_available_ip search_fuel
get_next_available_ip_wraps id s pool lo e p q a b u z =
    let used = used_ips id s in
    let f : 2 ^ 32 ≡ suc (last - lo) + suc (lo - 1) = omega arith in
    rw (e, p, get_next_available_ip, q)
      (ap search_result (
        ap (λ n. next_free n used (address lo) (address last)) f
        ∙ next_free_wraps (last - lo) (suc (lo - 1)) used lo (omega arith) u
        ∙ next_free-found (lo - 1) used 0 last z))

-- For a pool whose range is reversed, GetNextAvailableIP answers with the start of the range, if no
-- device of the pool uses it.
pub get_next_available_ip_reversed :
    (id : Text) (s : Store) (pool : NetworkPool) (lo hi : ℕ)
    → is_empty id ≡ false
    → get_network_pool id s ≡ ok pool
    → parse_range pool.start_ip pool.end_ip ≡ ok (address lo, address hi)
    → hi < lo
    → contains (used_ips id s) (ip_text lo) ≡ false
    → get_next_available_ip id s ≡ ok (ip_text lo)
unfolding get_next_available_ip search_fuel
get_next_available_ip_reversed id s pool lo hi e p q h u =
    rw (e, p, get_next_available_ip, q)
      (ap search_result (next_free-found (2 ^ 32 - 1) (used_ips id s) lo hi u))
