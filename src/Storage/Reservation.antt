-- ===== src/Storage/Reservation.antt =====
-- internal/storage/reservation_sqlite.go: the rows of reservations.
pub mod Unique
pub mod Create
pub mod Listing
pub mod Expire
use rackd.Prelude.{
  ℕ, ◌≡◌, refl, Bool, true, false, not, ◌&&◌, ◌||◌, Option, none, some, List, [], ◌∷◌, ◌++◌, map,
  ltb, leb, nat_eq, if◌then◌else◌, any, keep, find, count,
}
use rackd.Text.{Text, codes, ◌==◌, is_empty}
use rackd.Error.{
  Error, Result, ok, err, unique_failed, invalid_id, pool_not_found, ip_conflict,
  reservation_not_found, ip_already_reserved, message, failed, or_error,
}
use rackd.Model.{Time, Reservation, ReservationRow, AddressRow, NetworkPool}
use rackd.ReservationStatus.{active, expired}
use rackd.Store.{
  Store, Env, Exec, return, raise, query, ask, transaction, ◌>>=◌, ◌>>◌, fail_if, modify, audit_log,
  or_uuid,
}
use rackd.Storage.Order.{text_leb, sort_by, Pagination, paginate}
use rackd.Storage.Pool.{find_pool, is_id}
use rackd.Storage.Pool.Allocate.{check_in_range}

-- nullString
abbrev pub null_string : Text → Option Text
null_string [] = none
null_string (c ∷ s) = some (c ∷ s)

-- A scanned sql.NullString; the field keeps "" for NULL.
abbrev pub or_empty : Option Text → Text
or_empty none = []
or_empty (some s) = s

-- The row that INSERT writes.
unfoldable pub to_row : Reservation → ReservationRow
to_row r = record {
  id = r.id;
  pool_id = r.pool_id;
  ip_address = r.ip_address;
  hostname = null_string r.hostname;
  purpose = null_string r.purpose;
  reserved_by = r.reserved_by;
  reserved_at = r.reserved_at;
  expires_at = r.expires_at;
  status = r.status;
  notes = null_string r.notes;
  created_at = r.created_at;
  updated_at = r.updated_at;
}

-- scanReservations, for one row
unfoldable pub from_row : ReservationRow → Reservation
from_row r = record {
  id = r.id;
  pool_id = r.pool_id;
  ip_address = r.ip_address;
  hostname = or_empty r.hostname;
  purpose = or_empty r.purpose;
  reserved_by = r.reserved_by;
  reserved_at = r.reserved_at;
  expires_at = r.expires_at;
  status = r.status;
  notes = or_empty r.notes;
  created_at = r.created_at;
  updated_at = r.updated_at;
}

-- An active reservation of this address in this pool.
abbrev pub holds : Text → Text → ReservationRow → Bool
holds pool ip r = r.pool_id == pool && r.ip_address == ip && r.status == active

-- SELECT EXISTS(SELECT 1 FROM addresses WHERE pool_id = ? AND ip = ?)
unfoldable pub used_by_device : Text → Text → Store → Bool
used_by_device pool ip s = any (λ a. is_id pool a.pool_id && a.ip == ip) s.addresses

-- INSERT INTO reservations: the id is the primary key, and (pool_id, ip_address) is unique among
-- active rows. The program reads either failure as a reserved address.
unfoldable pub insert_reservation : ReservationRow → Exec (Unit {0})
insert_reservation r s =
    if any (λ q. q.id == r.id) s.reservations
      || r.status == active && any (holds r.pool_id r.ip_address) s.reservations
    then (err ip_already_reserved, s)
    else (ok tt, record s { reservations = s.reservations ++ r ∷ [] })

abbrev or_now : Time → Time → Time
or_now now t = if nat_eq t 0 then now else t

abbrev or_active : Text → Text
or_active [] = active
or_active (c ∷ s) = c ∷ s

-- The reservation as CreateReservation completes it: its id, its times and its status.
unfoldable pub stamp : Env → Reservation → Reservation
stamp env reservation = record reservation {
  id = or_uuid env reservation.id;
  reserved_at = or_now env.now reservation.reserved_at;
  created_at = env.now;
  updated_at = env.now;
  status = or_active reservation.status;
}

-- CreateReservation
unfoldable pub create_reservation : Env → Reservation → Exec Reservation
unfolding used_by_device
create_reservation env reservation = do
  stored ← transaction (do
    pool ← query (λ s. or_error (find_pool reservation.pool_id s) pool_not_found)
    in_range ← query (λ _. check_in_range reservation.ip_address pool.start_ip pool.end_ip)
    fail_if (not in_range) (message "IP address is not within pool range")
    used ← ask (used_by_device reservation.pool_id reservation.ip_address)
    fail_if used ip_conflict
    reserved_count ←
        ask (λ s. count (holds reservation.pool_id reservation.ip_address) s.reservations)
    fail_if (ltb 0 reserved_count) ip_already_reserved
    let stamped = stamp env reservation
    insert_reservation (to_row stamped)
    return stamped)
  audit_log env (codes "create") (codes "reservation") stored.id
  return stored

abbrev pub found_row : Option ReservationRow → Result Reservation
found_row none = err reservation_not_found
found_row (some r) = ok (from_row r)

-- GetReservation
unfoldable pub get_reservation : Text → Store → Result Reservation
get_reservation id s =
    if is_empty id then err invalid_id else found_row (find (λ r. r.id == id) s.reservations)

-- GetReservationByIP
unfoldable pub get_reservation_by_ip : Text → Text → Store → Result Reservation
get_reservation_by_ip pool ip s =
    if is_empty pool || is_empty ip
    then err invalid_id
    else found_row (find (holds pool ip) s.reservations)

-- UPDATE reservations SET … WHERE id = ?
abbrev pub update_row : ReservationRow → ReservationRow → ReservationRow
update_row new r =
    if r.id == new.id
    then record r {
      hostname = new.hostname;
      purpose = new.purpose;
      expires_at = new.expires_at;
      status = new.status;
      notes = new.notes;
      updated_at = new.updated_at;
    }
    else r

-- Another active row has the address of a row that is to become active.
abbrev conflicts : ReservationRow → ReservationRow → List ReservationRow → Bool
conflicts new r rows =
    r.id == new.id
    && new.status == active
    && any (λ q. not (q.id == r.id) && holds r.pool_id r.ip_address q) rows

unfoldable pub update_rows : ReservationRow → Exec (Unit {0})
update_rows new s =
    if any (λ r. conflicts new r s.reservations) s.reservations
    then (err (failed "failed to update reservation" unique_failed), s)
    else (ok tt, record s { reservations = map (update_row new) s.reservations })

-- UpdateReservation. An id that no row has is no error.
unfoldable pub update_reservation : Env → Reservation → Exec Reservation
update_reservation env reservation = do
  fail_if (is_empty reservation.id) invalid_id
  let stamped = record reservation { updated_at = env.now }
  update_rows (to_row stamped)
  audit_log env (codes "update") (codes "reservation") reservation.id
  return stamped

-- DeleteReservation
unfoldable pub delete_reservation : Env → Text → Exec (Unit {0})
delete_reservation env id = do
  fail_if (is_empty id) invalid_id
  modify (λ s. record s { reservations = keep (λ r. not (r.id == id)) s.reservations })
  audit_log env (codes "delete") (codes "reservation") id

-- The row has passed its expiry: expires_at IS NOT NULL AND expires_at < now.
abbrev pub is_due : Time → ReservationRow → Bool
is_due now r = elim r.expires_at [ none ↦ false | some t ↦ r.status == active && ltb t now ]

abbrev pub expire_row : Time → Time → ReservationRow → ReservationRow
expire_row stamp now r =
    if is_due now r then record r { status = expired; updated_at = stamp } else r

-- ExpireReservations, with the two readings of the clock: the stamp and the time compared with.
unfoldable pub expire_reservations : Time → Time → Exec ℕ
expire_reservations stamp now s = (
  ok (count (is_due now) s.reservations),
  record s { reservations = map (expire_row stamp now) s.reservations },
)

-- IsIPReserved
unfoldable pub is_ip_reserved : Text → Text → Store → Result Bool
is_ip_reserved pool ip s =
    if is_empty pool || is_empty ip
    then err invalid_id
    else ok (ltb 0 (count (holds pool ip) s.reservations))
