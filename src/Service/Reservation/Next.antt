-- ===== src/Service/Reservation/Next.antt =====
-- The address that the service's GetNextAvailableIP proposes.
use rackd.Prelude.{
  ℕ, zero, suc, ◌≡◌, refl, sym, subst, ◌∙◌, true, false, ◌&&◌, none, List, [], ◌∷◌, arith, any,
  Bool-cases, inl, inr,
}
use rackd.Text.{Text, codes, ◌==◌}
use rackd.Rows.{any-keep, any_congr, count_of_none}
use rackd.Error.{Result, ok, err, Result-cases}
use rackd.Model.{AddressRow, ReservationRow}
use rackd.ReservationStatus.{active}
use rackd.Store.{Store, Env}
use rackd.Net.{format_ip}
use rackd.Storage.IpRange.{increment_ip}
use rackd.Storage.Pool.{is_id, get_network_pool}
use rackd.Storage.Pool.Allocate.{parse_range}
use rackd.Storage.Pool.Heatmap.{
  IpStatus, last_device, pool_addresses, pool_reservations, is_reserved, ip_status, heatmap_loop,
  heatmap_of, max_ips, get_pool_heatmap,
}
use rackd.Storage.Reservation.{holds, used_by_device}
use rackd.Storage.Reservation.Unique.{holders}
use rackd.Service.Access.{require_permission}
use rackd.Service.Reservation.{first_available, first_of, next_available_ip}

module _ (addresses : List AddressRow) (reservations : List ReservationRow) where
  ip_status-ip : (ip : Text) → (ip_status addresses reservations ip).ip ≡ ip
  unfolding ip_status
  ip_status-ip ip = ground arith

  -- An entry is "available" only for an address that neither table has.
  ip_status-available :
      (ip : Text)
      → (ip_status addresses reservations ip).status == codes "available" ≡ true
      → (last_device ip addresses ≡ none) × (is_reserved ip reservations ≡ false)
  unfolding ip_status ◌==◌
  ip_status-available ip h = ground arith

last_device-any :
    (ip : Text) (rows : List AddressRow)
    → last_device ip rows ≡ none
    → any (λ a. a.ip == ip) rows ≡ false
unfolding last_device
last_device-any ip [] h = refl
last_device-any ip (a ∷ rows) h = ground (arith, last_device-any ip rows)

is_reserved-any :
    (ip : Text) (rows : List ReservationRow)
    → is_reserved ip rows ≡ any (λ r. r.ip_address == ip) rows
unfolding is_reserved
is_reserved-any ip [] = refl
is_reserved-any ip (r ∷ rows) = ground (arith, is_reserved-any ip rows)

-- What the loop of the service finds is an available entry of the heatmap.
first_available-heatmap_loop :
    (left : ℕ) (status : Text → IpStatus) (current end_ip : List ℕ) (ip : Text)
    → first_available (heatmap_loop left status current end_ip) ≡ ok ip
    → (x : Text) × ((status x).status == codes "available" ≡ true) × ((status x).ip ≡ ip)
unfolding first_available heatmap_loop
first_available-heatmap_loop zero status current end_ip ip h = absurd (ground arith)
first_available-heatmap_loop (suc left) status current end_ip ip h =
    elim (Bool-cases ((status (format_ip current)).status == codes "available")) [
      | inl e ↦ (format_ip current, e, ground arith)
      | inr e ↦
          first_available-heatmap_loop left status (increment_ip current end_ip).0 end_ip ip
            (ground arith)
    ]

-- The same for the answer of GetPoolHeatmap.
Available : (Text → IpStatus) → Text → Type 0
Available status ip =
    (x : Text) × ((status x).status == codes "available" ≡ true) × ((status x).ip ≡ ip)

first_of-heatmap_of :
    (status : Text → IpStatus) (r : Result (List ℕ × List ℕ)) (ip : Text)
    → first_of (heatmap_of status r) ≡ ok ip
    → Available status ip
unfolding Available
first_of-heatmap_of status (err e) ip h = absurd (ground arith)
first_of-heatmap_of status (ok (start, end_ip)) ip h =
    first_available-heatmap_loop max_ips status start end_ip ip h

first_of-get_pool_heatmap :
    (pool ip : Text) (s : Store)
    → first_of (get_pool_heatmap pool s) ≡ ok ip
    → Available (ip_status (pool_addresses pool s) (pool_reservations pool s)) ip
unfolding get_pool_heatmap
first_of-get_pool_heatmap pool ip s h = elim (Result-cases (get_network_pool pool s)) [
  | inl (p, e) ↦ first_of-heatmap_of _ (parse_range p.start_ip p.end_ip) ip (ground arith)
  | inr (e, f) ↦ absurd (ground arith)
]

used_by_device-free :
    (pool ip : Text) (s : Store)
    → last_device ip (pool_addresses pool s) ≡ none
    → used_by_device pool ip s ≡ false
unfolding used_by_device pool_addresses
used_by_device-free pool ip s h =
    any_congr (λ a. is_id pool a.pool_id && a.ip == ip) (λ a. a.ip == ip && is_id pool a.pool_id)
      s.addresses (λ a. ground arith)
    ∙ sym (any-keep (λ a. a.ip == ip) (λ a. is_id pool a.pool_id) s.addresses)
    ∙ last_device-any ip (pool_addresses pool s) h

holders-free :
    (pool ip : Text) (s : Store)
    → is_reserved ip (pool_reservations pool s) ≡ false
    → holders pool ip s ≡ 0
unfolding pool_reservations
holders-free pool ip s h = count_of_none (holds pool ip) s.reservations (
    any_congr (holds pool ip) (λ r. r.ip_address == ip && (r.pool_id == pool && r.status == active))
      s.reservations (λ r. ground arith)
    ∙ sym (
        any-keep (λ r. r.ip_address == ip) (λ r. r.pool_id == pool && r.status == active)
          s.reservations)
    ∙ sym (is_reserved-any ip (pool_reservations pool s))
    ∙ h)

-- The address that the service's GetNextAvailableIP answers with is used by no device of the pool
-- and has no active reservation there.
pub next_available_ip_free :
    (env : Env) (pool ip : Text) (s : Store)
    → (next_available_ip env pool s).0 ≡ ok ip
    → (used_by_device pool ip s ≡ false) × (holders pool ip s ≡ 0)
unfolding next_available_ip require_permission Available
next_available_ip_free env pool ip s h =
    let run : first_of (get_pool_heatmap pool s) ≡ ok ip = ground arith in
    let (x, available, same) = first_of-get_pool_heatmap pool ip s run in
    let x_is_ip : x ≡ ip =
      sym (ip_status-ip (pool_addresses pool s) (pool_reservations pool s) x) ∙ same in
    let (no_device, not_reserved) =
      ip_status-available (pool_addresses pool s) (pool_reservations pool s) ip (
        subst
          (λ t.
            (ip_status (pool_addresses pool s) (pool_reservations pool s) t).status
              == codes "available"
            ≡ true)
          x_is_ip available) in
    (used_by_device-free pool ip s no_device, holders-free pool ip s not_reserved)
