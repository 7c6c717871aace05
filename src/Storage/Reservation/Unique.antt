-- ===== src/Storage/Reservation/Unique.antt =====
-- An address of a pool has at most one active reservation.
use rackd.Prelude.{
  ℕ, ◌+◌, ◌≤◌, ◌≡◌, refl, Bool, true, false, List, [], ◌∷◌, arith, count, any, map, not, ◌&&◌,
  Bool-cases, inl, inr,
}
use rackd.Text.{Text, ◌==◌, eq_iff}
use rackd.Rows.{count-append, count-keep-le, count_of_none}
use rackd.Model.{ReservationRow, Reservation, Time}
use rackd.Store.{Store, Env, enqueue}
use rackd.Storage.Reservation.{
  to_row, holds, stamp, insert_reservation, create_reservation, update_rows, update_reservation,
  delete_reservation, expire_reservations, expire_row, update_row, conflicts,
}
use rackd.ReservationStatus.{active, expired}
use rackd.Storage.Pool.{delete_network_pool}
use rackd.Storage.Network.{delete_network, delete_pools, delete_row, of_pool}

-- The rows that hold an address of a pool.
abbrev pub holders : Text → Text → Store → ℕ
holders pool ip s = count (holds pool ip) s.reservations

insert_reservation_unique :
    (r : ReservationRow) (pool ip : Text) (s : Store)
    → holders pool ip s ≤ 1
    → holders pool ip (insert_reservation r s).1 ≤ 1
unfolding insert_reservation
insert_reservation_unique r pool ip s h = ground (
  arith,
  count-append (holds pool ip) s.reservations (r ∷ []),
  count_of_none (holds r.pool_id r.ip_address) s.reservations,
  eq_iff r.pool_id pool,
  eq_iff r.ip_address ip,
)

create_reservation_unique :
    (env : Env) (r : Reservation) (pool ip : Text) (s : Store)
    → holders pool ip s ≤ 1
    → holders pool ip (create_reservation env r s).1 ≤ 1
unfolding create_reservation enqueue
create_reservation_unique env r pool ip s h =
    ground (arith, insert_reservation_unique (to_row (stamp env r)) pool ip s h)

module _ (new : ReservationRow) (pool ip : Text) where
  abbrev mine : ReservationRow → Bool
  mine r = r.id == new.id

  -- A row of the updated id at this address.
  abbrev here : ReservationRow → Bool
  here r = mine r && (r.pool_id == pool && r.ip_address == ip)

  abbrev elsewhere : ReservationRow → Bool
  elsewhere r = not (mine r) && holds pool ip r

  count-update-le :
      (rows : List ReservationRow)
      → count (holds pool ip) (map (update_row new) rows) ≤ count elsewhere rows + count mine rows
  count-update-le [] = omega arith
  count-update-le (r ∷ rows) = ground (arith, count-update-le rows)

  count-update_inactive :
      (rows : List ReservationRow)
      → new.status == active ≡ false
      → count (holds pool ip) (map (update_row new) rows) ≤ count (holds pool ip) rows
  count-update_inactive [] h = omega arith
  count-update_inactive (r ∷ rows) h = ground (arith, count-update_inactive rows h)

  count-update_away :
      (rows : List ReservationRow)
      → any here rows ≡ false
      → count (holds pool ip) (map (update_row new) rows) ≤ count (holds pool ip) rows
  count-update_away [] h = omega arith
  count-update_away (r ∷ rows) h = ground (arith, count-update_away rows)

  no_conflict-elsewhere :
      (rows all : List ReservationRow)
      → new.status == active ≡ true
      → any here rows ≡ true
      → any (λ r. conflicts new r all) rows ≡ false
      → any elsewhere all ≡ false
  no_conflict-elsewhere [] all a h c = ground arith
  no_conflict-elsewhere (r ∷ rows) all a h c = elim (Bool-cases (here r)) [
    | inr away ↦ no_conflict-elsewhere rows all a (ground arith) (ground arith)
    | inl at ↦
        let e : r.id ≡ new.id = (eq_iff r.id new.id).0 (ground arith) in
        let f : r.pool_id ≡ pool = (eq_iff r.pool_id pool).0 (ground arith) in
        let g : r.ip_address ≡ ip = (eq_iff r.ip_address ip).0 (ground arith) in
        let w : any (λ q. not (q.id == r.id) && holds r.pool_id r.ip_address q) all ≡ false =
          ground arith in
        rw (← e, ← f, ← g) w
  ]

  update_rows_unique :
      (s : Store)
      → count mine s.reservations ≤ 1
      → holders pool ip s ≤ 1
      → holders pool ip (update_rows new s).1 ≤ 1
  unfolding update_rows
  update_rows_unique s ids h = elim (Bool-cases (any here s.reservations)) [
    | inr away ↦ ground (arith, count-update_away s.reservations away)
    | inl at ↦ elim (Bool-cases (new.status == active)) [
      | inr other ↦ ground (arith, count-update_inactive s.reservations other)
      | inl act ↦ ground (
        arith,
        count-update-le s.reservations,
        no_conflict-elsewhere s.reservations s.reservations act at,
        count_of_none elsewhere s.reservations,
      )
    ]
  ]

-- The primary key: an id has at most one row.
abbrev pub with_id : Text → Store → ℕ
with_id id s = count (λ r. r.id == id) s.reservations

-- The two constraints on the table of reservations.
pub record IsUnique (s : Store) : Type 0 where
  pub ids : (id : Text) → with_id id s ≤ 1
  pub holding : (pool ip : Text) → holders pool ip s ≤ 1

ids-insert :
    (r : ReservationRow) (id : Text) (s : Store)
    → with_id id s ≤ 1
    → with_id id (insert_reservation r s).1 ≤ 1
unfolding insert_reservation
ids-insert r id s h = ground (
  arith,
  count-append (λ q. q.id == id) s.reservations (r ∷ []),
  count_of_none (λ q. q.id == r.id) s.reservations,
  eq_iff r.id id,
)

ids-update :
    (new : ReservationRow) (id : Text) (rows : List ReservationRow)
    → count (λ r. r.id == id) (map (update_row new) rows) ≡ count (λ r. r.id == id) rows
ids-update new id [] = refl
ids-update new id (r ∷ rows) = ground (arith, ids-update new id rows)

pub create_reservation-IsUnique :
    (env : Env) (r : Reservation) (s : Store) → IsUnique s → IsUnique (create_reservation env r s).1
unfolding create_reservation enqueue
create_reservation-IsUnique env r s u = record {
  ids = λ id. ground (arith, ids-insert (to_row (stamp env r)) id s (u.ids id), u.ids id);
  holding = λ pool ip. create_reservation_unique env r pool ip s (u.holding pool ip);
}

ids-update_rows :
    (new : ReservationRow) (id : Text) (s : Store)
    → with_id id s ≤ 1
    → with_id id (update_rows new s).1 ≤ 1
unfolding update_rows
ids-update_rows new id s h = ground (arith, ids-update new id s.reservations)

pub update_reservation-IsUnique :
    (env : Env) (r : Reservation) (s : Store) → IsUnique s → IsUnique (update_reservation env r s).1
unfolding update_reservation enqueue
update_reservation-IsUnique env r s u =
    let row = to_row (record r { updated_at = env.now }) in
    record {
      ids = λ id. ground (arith, ids-update_rows row id s (u.ids id), u.ids id);
      holding = λ pool ip. ground (
        arith,
        update_rows_unique row pool ip s (u.ids row.id) (u.holding pool ip),
        u.holding pool ip,
      );
    }

pub delete_reservation-IsUnique :
    (env : Env) (id : Text) (s : Store) → IsUnique s → IsUnique (delete_reservation env id s).1
unfolding delete_reservation enqueue
delete_reservation-IsUnique env id s u = record {
  ids = λ i.
      ground
        (arith, count-keep-le (λ r. r.id == i) (λ r. not (r.id == id)) s.reservations, u.ids i);
  holding = λ pool ip. ground (
    arith,
    count-keep-le (holds pool ip) (λ r. not (r.id == id)) s.reservations,
    u.holding pool ip,
  );
}

ids-expire :
    (stamp now : Time) (id : Text) (rows : List ReservationRow)
    → count (λ r. r.id == id) (map (expire_row stamp now) rows) ≡ count (λ r. r.id == id) rows
ids-expire stamp now id [] = refl
ids-expire stamp now id (r ∷ rows) = ground (arith, ids-expire stamp now id rows)

expired-ne-active : expired == active ≡ false
unfolding ◌==◌
expired-ne-active = refl

count-expire-le :
    (stamp now : Time) (pool ip : Text) (rows : List ReservationRow)
    → count (holds pool ip) (map (expire_row stamp now) rows) ≤ count (holds pool ip) rows
count-expire-le stamp now pool ip [] = omega arith
count-expire-le stamp now pool ip (r ∷ rows) =
    ground (arith, count-expire-le stamp now pool ip rows, expired-ne-active)

pub expire_reservations-IsUnique :
    (stamp now : Time) (s : Store) → IsUnique s → IsUnique (expire_reservations stamp now s).1
unfolding expire_reservations
expire_reservations-IsUnique stamp now s u = record {
  ids = λ i. ground (arith, ids-expire stamp now i s.reservations, u.ids i);
  holding = λ pool ip.
      ground (arith, count-expire-le stamp now pool ip s.reservations, u.holding pool ip);
}

pub delete_network_pool-IsUnique :
    (env : Env) (id : Text) (s : Store) → IsUnique s → IsUnique (delete_network_pool env id s).1
unfolding delete_network_pool enqueue
delete_network_pool-IsUnique env id s u = record {
  ids = λ i.
      ground (
        arith,
        count-keep-le (λ r. r.id == i) (λ r. not (r.pool_id == id)) s.reservations,
        u.ids i,
      );
  holding = λ pool ip. ground (
    arith,
    count-keep-le (holds pool ip) (λ r. not (r.pool_id == id)) s.reservations,
    u.holding pool ip,
  );
}

pub delete_network-IsUnique :
    (env : Env) (id : Text) (s : Store) → IsUnique s → IsUnique (delete_network env id s).1
unfolding delete_network delete_pools delete_row enqueue
delete_network-IsUnique env id s u = record {
  ids = λ i. ground (
    arith,
    count-keep-le (λ r. r.id == i) (λ r. not (of_pool id s r.pool_id)) s.reservations,
    u.ids i,
  );
  holding = λ pool ip. ground (
    arith,
    count-keep-le (holds pool ip) (λ r. not (of_pool id s r.pool_id)) s.reservations,
    u.holding pool ip,
  );
}
