-- ===== src/Storage/References/Reservations.antt =====
-- The methods of reservations keep the references.
use rackd.Prelude.{
  ◌≡◌, ◌⊎◌, sym, subst, ap, ◌∙◌, Bool, true, false, not, none, some, List, [], ◌∷◌, ◌++◌, map, any,
  keep, arith, Option-cases, inl, inr,
}
use rackd.Text.{Text, codes, ◌==◌}
use rackd.Rows.{any-append, any-map, any_congr, find-any}
use rackd.Model.{Time, NetworkPool, Reservation, ReservationRow}
use rackd.Store.{Store, Env, enqueue}
use rackd.Storage.Pool.{network_exists, pool_exists, find_pool}
use rackd.Storage.References.{References, refers-keep, enqueue-References}
use rackd.Storage.Reservation
use rackd.Storage.Reservation.{
  to_row, stamp, insert_reservation, create_reservation, update_rows, update_reservation,
  delete_reservation, expire_reservations, expire_row,
}

-- Reservations that refer to pools may take the place of the old ones.
with_reservations :
    (rows : List ReservationRow) (s : Store)
    → References s
    → any (λ r. not (pool_exists r.pool_id s)) rows ≡ false
    → References (record s { reservations = rows })
unfolding network_exists pool_exists
with_reservations rows s h k = record { networks = h.networks; tags = h.tags; reservations = k }

create_reservation-cases :
    (env : Env) (r : Reservation) (s : Store) (p : NetworkPool)
    → find_pool r.pool_id s ≡ some p
    → ((create_reservation env r s).1 ≡ s)
      ⊎ ((create_reservation env r s).1
          ≡ enqueue env
              (codes "create")
              (codes "reservation")
              (stamp env r).id
              (record s { reservations = s.reservations ++ to_row (stamp env r) ∷ [] }))
unfolding create_reservation insert_reservation
create_reservation-cases env r s p e = ground arith

create_reservation-none :
    (env : Env) (r : Reservation) (s : Store)
    → find_pool r.pool_id s ≡ none
    → (create_reservation env r s).1 ≡ s
unfolding create_reservation
create_reservation-none env r s e = ground arith

update_reservation-cases :
    (env : Env) (r : Reservation) (s : Store)
    → ((update_reservation env r s).1 ≡ s)
      ⊎ ((update_reservation env r s).1
          ≡ enqueue env (codes "update") (codes "reservation") r.id (record s {
            reservations =
                map
                  (Reservation.update_row (to_row (record r { updated_at = env.now })))
                  s.reservations;
          }))
unfolding update_reservation update_rows
update_reservation-cases env r s = ground arith

delete_reservation-cases :
    (env : Env) (id : Text) (s : Store)
    → ((delete_reservation env id s).1 ≡ s)
      ⊎ ((delete_reservation env id s).1
          ≡ enqueue env
              (codes "delete")
              (codes "reservation")
              id
              (record s { reservations = keep (λ r. not (r.id == id)) s.reservations }))
unfolding delete_reservation
delete_reservation-cases env id s = ground arith

add_reservation :
    (r : ReservationRow) (s : Store)
    → References s
    → any (λ q. q.id == r.pool_id) s.network_pools ≡ true
    → References (record s { reservations = s.reservations ++ r ∷ [] })
unfolding pool_exists
add_reservation r s h e = with_reservations (s.reservations ++ r ∷ []) s h (
    ground (
      arith,
      h.reservations,
      any-append (λ q. not (any (λ p. p.id == q.pool_id) s.network_pools)) s.reservations (r ∷ []),
    ))

pub create_reservation-References :
    (env : Env) (r : Reservation) (s : Store)
    → References s
    → References (create_reservation env r s).1
unfolding stamp to_row
create_reservation-References env r s h = elim (Option-cases (find_pool r.pool_id s)) [
  | inl e ↦ subst References (sym (create_reservation-none env r s e)) h
  | inr (p, e) ↦ elim (create_reservation-cases env r s p e) [
    | inl k ↦ subst References (sym k) h
    | inr k ↦ subst References (sym k) (
        enqueue-References env (codes "create") (codes "reservation") (stamp env r).id _ (
          add_reservation (to_row (stamp env r)) s h
            (find-any (λ q. q.id == r.pool_id) s.network_pools p e).0))
  ]
]

-- A change of rows that leaves their pools
changed :
    (f : ReservationRow → ReservationRow) (q : Text → Bool) (rows : List ReservationRow)
    → ((r : ReservationRow) → (f r).pool_id ≡ r.pool_id)
    → any (λ r. q r.pool_id) (map f rows) ≡ any (λ r. q r.pool_id) rows
changed f q rows k =
    any-map (λ r. q r.pool_id) f rows
    ∙ any_congr (λ r. q (f r).pool_id) (λ r. q r.pool_id) rows (λ r. ap q (k r))

map_reservations :
    (f : ReservationRow → ReservationRow) (s : Store)
    → ((r : ReservationRow) → (f r).pool_id ≡ r.pool_id)
    → References s
    → References (record s { reservations = map f s.reservations })
map_reservations f s k h =
    with_reservations (map f s.reservations) s h
      (changed f (λ id. not (pool_exists id s)) s.reservations k ∙ h.reservations)

pub update_reservation-References :
    (env : Env) (r : Reservation) (s : Store)
    → References s
    → References (update_reservation env r s).1
update_reservation-References env r s h = elim (update_reservation-cases env r s) [
  | inl e ↦ subst References (sym e) h
  | inr e ↦
      let new = to_row (record r { updated_at = env.now }) in
      subst References (sym e) (
        enqueue-References env (codes "update") (codes "reservation") r.id _
          (map_reservations (Reservation.update_row new) s (λ q. ground arith) h))
]

pub delete_reservation-References :
    (env : Env) (id : Text) (s : Store) → References s → References (delete_reservation env id s).1
delete_reservation-References env id s h = elim (delete_reservation-cases env id s) [
  | inl e ↦ subst References (sym e) h
  | inr e ↦ subst References (sym e) (
      enqueue-References env (codes "delete") (codes "reservation") id _ (
        with_reservations (keep (λ r. not (r.id == id)) s.reservations) s h (
          refers-keep (λ r. pool_exists r.pool_id s) (λ r. pool_exists r.pool_id s)
            (λ r. not (r.id == id)) s.reservations h.reservations (λ r a b. a))))
]

pub expire_reservations-References :
    (at now : Time) (s : Store) → References s → References (expire_reservations at now s).1
unfolding expire_reservations
expire_reservations-References at now s h =
    map_reservations (expire_row at now) s (λ r. ground arith) h
