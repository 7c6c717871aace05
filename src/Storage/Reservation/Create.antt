-- ===== src/Storage/Reservation/Create.antt =====
-- What CreateReservation does, on success and on failure.
use rackd.Prelude.{
  ◌≡◌, refl, ap, ◌∙◌, sym, ◌⊎◌, true, false, some, [], ◌∷◌, ◌++◌, arith, Option-cases, inl, inr,
}
use rackd.Text.{Text, ◌==◌, ==_refl, is_empty}
use rackd.Rows.{count-append, any_of_count, find-append}
use rackd.Error.{Error, ok, err}
use rackd.Model.{Reservation, NetworkPool}
use rackd.ReservationStatus.{active}
use rackd.Store.{Store, Env, enqueue}
use rackd.Storage.Pool.{find_pool}
use rackd.Storage.Pool.Allocate.{check_in_range}
use rackd.Storage.Reservation.{
  to_row, from_row, stamp, null_string, or_empty, holds, used_by_device, insert_reservation,
  create_reservation, get_reservation_by_ip,
}
use rackd.Storage.Reservation.Unique.{holders}

or_empty-null_string : (t : Text) → or_empty (null_string t) ≡ t
or_empty-null_string [] = refl
or_empty-null_string (c ∷ t) = refl

-- A row keeps a reservation: NULL stands for the empty text.
pub from_row-to_row : (r : Reservation) → from_row (to_row r) ≡ r
unfolding from_row to_row
from_row-to_row r =
    rw (
      or_empty-null_string r.hostname,
      or_empty-null_string r.purpose,
      or_empty-null_string r.notes,
    )

-- The checks that a successful CreateReservation has passed.
pub record IsFree (r : Reservation) (s : Store) : Type 0 where
  pub pool : NetworkPool
  pub pool_found : find_pool r.pool_id s ≡ some pool
  pub in_range : check_in_range r.ip_address pool.start_ip pool.end_ip ≡ ok true
  pub no_device : used_by_device r.pool_id r.ip_address s ≡ false
  pub not_reserved : holders r.pool_id r.ip_address s ≡ 0

pub create_reservation-IsFree :
    (env : Env) (r : Reservation) (s : Store) (stored : Reservation)
    → (create_reservation env r s).0 ≡ ok stored
    → IsFree r s
unfolding create_reservation
create_reservation-IsFree env r s stored h = elim (Option-cases (find_pool r.pool_id s)) [
  | inl e ↦ absurd (ground arith)
  | inr (pool, e) ↦ record {
    pool = pool;
    pool_found = e;
    in_range = ground arith;
    no_device = ground arith;
    not_reserved = ground arith;
  }
]

-- After a success the row is the last of the table.
pub create_reservation-stored :
    (env : Env) (r : Reservation) (s : Store) (stored : Reservation)
    → (create_reservation env r s).0 ≡ ok stored
    → (stored ≡ stamp env r)
      × ((create_reservation env r s).1.reservations ≡ s.reservations ++ to_row (stamp env r) ∷ [])
unfolding create_reservation insert_reservation enqueue
create_reservation-stored env r s stored h = (ground arith, ground arith)

-- A CreateReservation that returns an error leaves the store as it was.
pub create_reservation-failed :
    (env : Env) (r : Reservation) (s : Store) (e : Error)
    → (create_reservation env r s).0 ≡ err e
    → (create_reservation env r s).1 ≡ s
unfolding create_reservation
create_reservation-failed env r s e h = ground arith

holds-stamp :
    (env : Env) (r : Reservation)
    → (is_empty r.status ≡ true) ⊎ (r.status ≡ active)
    → holds r.pool_id r.ip_address (to_row (stamp env r)) ≡ true
unfolding to_row stamp ◌==◌
holds-stamp env r (inl a) = ground (arith, ==_refl r.pool_id, ==_refl r.ip_address)
holds-stamp env r (inr a) = rw (==_refl r.pool_id, ==_refl r.ip_address, a)

-- A reservation that CreateReservation stored, given with the status active or none and with a pool
-- and an address that are not empty, is what GetReservationByIP finds for them, and it is the only
-- active one there.
pub get_reservation_by_ip-create :
    (env : Env) (r : Reservation) (s : Store) (stored : Reservation)
    → (create_reservation env r s).0 ≡ ok stored
    → (is_empty r.status ≡ true) ⊎ (r.status ≡ active)
    → is_empty r.pool_id ≡ false
    → is_empty r.ip_address ≡ false
    → (get_reservation_by_ip r.pool_id r.ip_address (create_reservation env r s).1 ≡ ok stored)
      × (holders r.pool_id r.ip_address (create_reservation env r s).1 ≡ 1)
unfolding get_reservation_by_ip
get_reservation_by_ip-create env r s stored h a e f =
    let free = create_reservation-IsFree env r s stored h in
    let done = create_reservation-stored env r s stored h in
    let row = to_row (stamp env r) in
    let it = holds-stamp env r a in
    let before = any_of_count (holds r.pool_id r.ip_address) s.reservations free.not_reserved in
    (
      rw (e, f, get_reservation_by_ip, done.1, find-append _ s.reservations row before it)
          (ap ok (from_row-to_row (stamp env r) ∙ sym done.0)),
      rw done.1 (
          ground (
            arith,
            it,
            count-append (holds r.pool_id r.ip_address) s.reservations (row ∷ []),
            free.not_reserved,
          )),
    )
