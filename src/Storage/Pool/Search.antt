-- ===== src/Storage/Pool/Search.antt =====
-- The search of GetNextAvailableIP against its specification: the first unused address of a range.
-- Addresses are numbers here; `address` gives the four bytes.
use rackd.Prelude.{
  ℕ, zero, suc, ◌+◌, ◌-◌, ◌^◌, ◌≤◌, ◌<◌, ◌≡◌, refl, subst, ◌⊎◌, inl, inr, true, false, List, arith,
  leb, Bool-cases,
}
use rackd.Text.{Text, is_empty}
use rackd.Net.{format_ip}
use rackd.Storage.IpRange.{increment_ip}
use rackd.Storage.IpRange.Value.{value_injective, increment_ip-eq, increment_ip-IsIp4}
use rackd.Storage.IpRange.Address.{address, address-IsIp4, value-address}
use rackd.Storage.Pool.Allocate.{
  contains, Search, found, exhausted, out_of_fuel, next_free, search_result, search_fuel,
  get_next_available_ip, parse_range, used_ips,
}
use rackd.Storage.Pool.{get_network_pool}
use rackd.Error.{ok}
use rackd.Model.{NetworkPool}
use rackd.Store.{Store}

-- The text of a number, as the tables hold it.
abbrev pub ip_text : ℕ → Text
ip_text n = format_ip (address n)

-- The loop finds the first unused address from `lo` to `hi`, or there is none.
abbrev pub FirstFree : List Text → ℕ → ℕ → Search → Type 0
FirstFree used lo hi (found t) =
    (n : ℕ) × (lo ≤ n)
    × (n ≤ hi)
    × (t ≡ ip_text n)
    × (contains used t ≡ false)
    × ((m : ℕ) → lo ≤ m → m < n → contains used (ip_text m) ≡ true)
FirstFree used lo hi exhausted = (m : ℕ) → lo ≤ m → m ≤ hi → contains used (ip_text m) ≡ true
FirstFree used lo hi out_of_fuel = ⊥

-- What holds at `lo` and above it holds from `lo`.
from_next : (P : ℕ → Type 0) (lo : ℕ) → P lo → ((m : ℕ) → suc lo ≤ m → P m) → (m : ℕ) → lo ≤ m → P m
from_next P lo at above m h = go (omega arith)
  where
    go : (lo ≡ m) ⊎ (suc lo ≤ m) → P m
    go (inl e) = subst P e at
    go (inr k) = above m k

-- A used address in front of a range leaves the answer as it is.
FirstFree-suc :
    (used : List Text) (lo hi : ℕ) (r : Search)
    → contains used (ip_text lo) ≡ true
    → FirstFree used (suc lo) hi r
    → FirstFree used lo hi r
FirstFree-suc used lo hi (found t) u (n, a, b, c, d, e) = (
  n,
  omega arith,
  b,
  c,
  d,
  from_next (λ m. m < n → contains used (ip_text m) ≡ true) lo (λ _. u) e,
)
FirstFree-suc used lo hi exhausted u f =
    from_next (λ m. m ≤ hi → contains used (ip_text m) ≡ true) lo (λ _. u) f
FirstFree-suc used lo hi out_of_fuel u f = f

-- incrementIP on numbers, below the last address.
pub increment-address :
    (lo hi : ℕ)
    → lo < 2 ^ 32 - 1
    → hi < 2 ^ 32
    → ((increment_ip (address lo) (address hi)).0 ≡ address (suc lo))
      × ((increment_ip (address lo) (address hi)).1 ≡ leb (suc lo) hi)
increment-address lo hi h k =
    let p = value-address lo (omega arith) in
    let q = value-address hi (omega arith) in
    let r = value-address (suc lo) (omega arith) in
    let e = increment_ip-eq (address-IsIp4 lo) (address-IsIp4 hi) in
    (
      value_injective (increment_ip-IsIp4 (address-IsIp4 lo) _) (address-IsIp4 (suc lo))
          (omega arith),
      ground arith,
    )

-- With enough fuel, and the end below 255.255.255.255, the loop ends with the right answer.
pub next_free-FirstFree :
    (fuel : ℕ) (used : List Text) (lo hi : ℕ)
    → lo ≤ hi
    → hi < lo + fuel
    → hi < 2 ^ 32 - 1
    → FirstFree used lo hi (next_free fuel used (address lo) (address hi))
unfolding next_free
next_free-FirstFree zero used lo hi h f k = absurd (omega arith)
next_free-FirstFree (suc fuel) used lo hi h f k =
    let step = increment-address lo hi (omega arith) (omega arith) in
    elim (Bool-cases (contains used (ip_text lo))) [
      | inr free ↦ rw free (lo, omega arith, h, refl, free, λ m a b. absurd (omega arith))
      | inl taken ↦
          rw (taken, step.1, step.0)
            (elim (Bool-cases (leb (suc lo) hi)) [
              | inl more ↦ rw more (
                  FirstFree-suc used lo hi _ taken
                    (next_free-FirstFree fuel used (suc lo) hi (ground arith) (omega arith) k))
              | inr last ↦ rw last (λ m a b. let e : lo ≡ m = ground arith in rw (← e) taken)
            ])
    ]

-- For a pool range that is not reversed and ends below 255.255.255.255, GetNextAvailableIP answers
-- with the first address of the range that no device of the pool uses, or with ErrIPNotAvailable if
-- all are used.
pub get_next_available_ip-FirstFree :
    (id : Text) (s : Store) (pool : NetworkPool) (lo hi : ℕ)
    → is_empty id ≡ false
    → get_network_pool id s ≡ ok pool
    → parse_range pool.start_ip pool.end_ip ≡ ok (address lo, address hi)
    → lo ≤ hi
    → hi < 2 ^ 32 - 1
    → (r : Search) × (get_next_available_ip id s ≡ search_result r)
      × FirstFree (used_ips id s) lo hi r
unfolding get_next_available_ip search_fuel
get_next_available_ip-FirstFree id s pool lo hi e p q h k = (
  next_free search_fuel (used_ips id s) (address lo) (address hi),
  rw (e, p, get_next_available_ip, q),
  next_free-FirstFree search_fuel (used_ips id s) lo hi h (omega arith) k,
)
