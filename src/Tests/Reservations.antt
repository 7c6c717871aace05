-- ===== src/Tests/Reservations.antt =====
-- Reservations in the small store.
use rackd.Prelude.{inl, ◌≤◌, ◌<◌, ◌≡◌, refl, true, false, none, some, [], arith}
use rackd.Text.{codes, ◌==◌}
use rackd.Net.{parse_ip, to4, format_ip}
use rackd.Error.{ok, err, ip_already_reserved}
use rackd.Model.{Reservation, CreateReservationRequest}
use rackd.Store.{Store, enqueue}
use rackd.Storage.IpRange.{increment_ip, ip_in_range, ip_equal}
use rackd.Storage.Pool.{get_network_pool, find_pool}
use rackd.Storage.Pool.Allocate.{
  parse_range, check_in_range, used_ips, next_free, search_fuel, get_next_available_ip,
}
use rackd.Storage.Reservation.{
  to_row, stamp, used_by_device, insert_reservation, create_reservation, get_reservation_by_ip,
}
use rackd.Storage.Reservation.Unique.{holders}
use rackd.Storage.Reservation.Create.{get_reservation_by_ip-create}
use rackd.Storage.Steps.{here, next, reserves, one_active_reservation}
use rackd.Service.Access.{require_permission, enrich_audit}
use rackd.Storage.Pool.Heatmap.{
  get_pool_heatmap, pool_addresses, pool_reservations, ip_status, last_device, is_reserved,
  heatmap_loop, max_ips,
}
use rackd.Storage.Order.{pos}
use rackd.Storage.Reservation.Listing.{ReservationFilter}
use rackd.Storage.Reservation.{get_reservation, update_reservation, update_rows, from_row}
use rackd.Service.Reservation.{release}
use rackd.Service.Reservation.{
  first_available, next_available_ip, World, create, create_loop, pick_address, after_failure,
  contention,
}
use rackd.Service.Reservation.Create.{create-holds, create-stuck}
use rackd.Tests.Fixtures.{store, pool, env, reservation_2, any_address}

runs : Unit {0}
unfolding release get_reservation update_reservation update_rows from_row next_available_ip
    first_available get_pool_heatmap pool_addresses pool_reservations ip_status last_device
    is_reserved heatmap_loop max_ips ip_equal create_reservation insert_reservation to_row stamp
    check_in_range parse_ip to4 ip_in_range used_by_device ◌==◌ enqueue create create_loop
    pick_address after_failure require_permission enrich_audit get_next_available_ip
    get_network_pool parse_range used_ips next_free search_fuel format_ip increment_ip
runs = tt

abbrev reservation_3 : Reservation
reservation_3 = record reservation_2 { id = codes "r3"; ip_address = codes "10.0.0.3"; status = [] }

reserve_free : (create_reservation env reservation_3 store).0 ≡ ok (stamp env reservation_3)
unfolding runs
reserve_free = refl

reserve_taken : (create_reservation env reservation_2 store).0 ≡ err ip_already_reserved
unfolding runs
reserve_taken = refl

get_reservation_by_ip-create_example :
    (get_reservation_by_ip
        (codes "p1")
        (codes "10.0.0.3")
        (create_reservation env reservation_3 store).1
      ≡ ok (stamp env reservation_3))
    × (holders (codes "p1") (codes "10.0.0.3") (create_reservation env reservation_3 store).1 ≡ 1)
get_reservation_by_ip-create_example =
    get_reservation_by_ip-create env reservation_3 store (stamp env reservation_3) reserve_free
      (inl refl) refl refl

abbrev no_reservations : Store
no_reservations = record store { reservations = [] }

one_active_reservation_example :
    holders (codes "p1") (codes "10.0.0.2") (create_reservation env reservation_2 no_reservations).1
    ≤ 1
one_active_reservation_example =
    one_active_reservation no_reservations (create_reservation env reservation_2 no_reservations).1
      (codes "p1") (codes "10.0.0.2") refl (next here (reserves env reservation_2 no_reservations))

abbrev quiet : World
quiet = record { env = λ k. env; others = λ k s. s }

abbrev third : CreateReservationRequest
third = record any_address { ip_address = codes "10.0.0.3" }

abbrev third_stored : Reservation
third_stored = record {
  id = codes "x1";
  pool_id = codes "p1";
  ip_address = codes "10.0.0.3";
  hostname = codes "new";
  purpose = [];
  reserved_by = codes "system";
  reserved_at = 100;
  expires_at = none;
  status = codes "active";
  notes = [];
  created_at = 100;
  updated_at = 100;
}

create-third : (create env quiet third store).0 ≡ ok third_stored
unfolding runs
create-third = refl

create-holds_example :
    (get_reservation_by_ip (codes "p1") (codes "10.0.0.3") (create env quiet third store).1
      ≡ ok third_stored)
    × (holders (codes "p1") (codes "10.0.0.3") (create env quiet third store).1 ≡ 1)
create-holds_example = create-holds env quiet third store third_stored create-third

may_create : (require_permission env (codes "reservations") (codes "create") store).0 ≡ ok tt
unfolding runs
may_create = refl

next_second : get_next_available_ip (codes "p1") store ≡ ok (codes "10.0.0.2")
unfolding runs
next_second = refl

second_found : find_pool (codes "p1") store ≡ some pool
unfolding runs
second_found = refl

second_in_range : check_in_range (codes "10.0.0.2") (codes "10.0.0.1") (codes "10.0.0.3") ≡ ok true
unfolding runs
second_in_range = refl

second_unused : used_by_device (codes "p1") (codes "10.0.0.2") store ≡ false
unfolding runs
second_unused = refl

second_reserved : 0 < holders (codes "p1") (codes "10.0.0.2") store
unfolding runs
second_reserved = omega arith

-- 10.0.0.3 is free, and the request for any address fails.
create-stuck_example : create env quiet any_address store ≡ (err contention, store)
create-stuck_example =
    create-stuck env quiet any_address store pool (codes "10.0.0.2") (λ k t. refl) may_create refl
      refl next_second second_found second_in_range second_unused second_reserved

-- Another spelling of a reserved address is reserved beside it.
abbrev reservation_mapped : Reservation
reservation_mapped = record reservation_2 { id = codes "r4"; ip_address = codes "::ffff:10.0.0.2" }

reserve_mapped :
    (create_reservation env reservation_mapped store).0 ≡ ok (stamp env reservation_mapped)
unfolding runs
reserve_mapped = refl

-- The reservations of user u1.
abbrev of_u1 : ReservationFilter
of_u1 = record {
  page = record { limit = pos 0; offset = pos 0 };
  pool_id = [];
  status = [];
  reserved_by = codes "u1";
  ip_address = [];
}

release_test : (release env (codes "r1") store).0 ≡ ok tt
unfolding runs
release_test = refl

second_once : holders (codes "p1") (codes "10.0.0.2") store ≤ 1
unfolding runs
second_once = omega arith

stored_test : get_reservation (codes "r1") store ≡ ok reservation_2
unfolding runs
stored_test = refl
