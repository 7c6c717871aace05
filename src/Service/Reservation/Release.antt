-- ===== src/Service/Reservation/Release.antt =====
-- Release frees the address of an active reservation.
use rackd.Prelude.{
  ◌≡◌, ◌≤◌, refl, sym, subst, ap, ◌∙◌, true, false, not, ◌&&◌, some, List, map, arith, find, count,
  Option-cases, inl, inr,
}
use rackd.Text.{Text, ◌==◌, ==_refl, eq_iff}
use rackd.Rows.{count-map, count_congr, count-split, count-find-some, find-any}
use rackd.Error.{ok}
use rackd.Model.{Reservation, ReservationRow}
use rackd.ReservationStatus.{active, released}
use rackd.Store.{Store, Env, enqueue}
use rackd.Storage.Reservation.{
  holds, to_row, from_row, get_reservation, update_reservation, update_rows, update_row,
}
use rackd.Storage.Reservation.Unique.{holders}
use rackd.Service.Access.{require_permission, enrich_audit}
use rackd.Service.Reservation.{release}

released-active : released == active ≡ false
unfolding ◌==◌
released-active = refl

-- The rows after a status becomes "released".
update_row-holds :
    (new r : ReservationRow) (pool ip : Text)
    → new.status ≡ released
    → holds pool ip (update_row new r) ≡ holds pool ip r && not (r.id == new.id)
update_row-holds new r pool ip e =
    let other = subst (λ t. t == active ≡ false) (sym e) released-active in ground (arith, other)

-- The row that Release writes.
released_row : Env → Reservation → ReservationRow
released_row env r = to_row (record r { status = released; updated_at = env.now })

release-rows :
    (env : Env) (id : Text) (s : Store) (r : Reservation)
    → get_reservation id s ≡ ok r
    → (release env id s).0 ≡ ok tt
    → (release env id s).1.reservations ≡ map (update_row (released_row env r)) s.reservations
unfolding release update_reservation update_rows enqueue require_permission enrich_audit
    released_row
release-rows env id s r e h = ground arith

-- Of one holder, none is left without it.
no_other :
    (pool ip id : Text) (row : ReservationRow) (rows : List ReservationRow)
    → count (holds pool ip) rows ≤ 1
    → find (λ x. x.id == id) rows ≡ some row
    → holds pool ip row ≡ true
    → count (λ x. holds pool ip x && not (x.id == id)) rows ≡ 0
no_other pool ip id row rows one found it = omega (
  arith,
  count-split (holds pool ip) (λ x. x.id == id) rows,
  count-find-some (holds pool ip) (λ x. x.id == id) row rows found it,
)

holders-release_row :
    (env : Env) (id : Text) (s : Store) (row : ReservationRow)
    → holders row.pool_id row.ip_address s ≤ 1
    → find (λ x. x.id == id) s.reservations ≡ some row
    → row.status ≡ active
    → count
        (holds row.pool_id row.ip_address)
        (map (update_row (released_row env (from_row row))) s.reservations)
      ≡ 0
unfolding released_row to_row from_row
holders-release_row env id s row one found a =
    let same : row.id ≡ id =
      (eq_iff row.id id).0 (find-any (λ x. x.id == id) s.reservations row found).1 in
    let it : holds row.pool_id row.ip_address row ≡ true = ground (
      arith,
      ==_refl row.pool_id,
      ==_refl row.ip_address,
      subst (λ t. t == active ≡ true) (sym a) (==_refl active),
    ) in
    let new = released_row env (from_row row) in
    count-map (holds row.pool_id row.ip_address) (update_row new) s.reservations
    ∙ count_congr (λ x. holds row.pool_id row.ip_address (update_row new x))
        (λ x. holds row.pool_id row.ip_address x && not (x.id == row.id)) s.reservations
        (λ x. update_row-holds new x row.pool_id row.ip_address refl)
    ∙ subst
        (λ t. count (λ x. holds row.pool_id row.ip_address x && not (x.id == t)) s.reservations ≡ 0)
        (sym same) (no_other row.pool_id row.ip_address id row s.reservations one found it)

get_reservation-found :
    (id : Text) (s : Store) (r : Reservation)
    → get_reservation id s ≡ ok r
    → (row : ReservationRow) × (find (λ x. x.id == id) s.reservations ≡ some row)
      × (from_row row ≡ r)
unfolding get_reservation
get_reservation-found id s r e = elim (Option-cases (find (λ x. x.id == id) s.reservations)) [
  | inl f ↦ absurd (ground arith)
  | inr (row, f) ↦ (row, f, ground arith)
]

-- A successful Release of an active reservation leaves no active reservation of its address, where
-- that address had at most one.
pub holders-release :
    (env : Env) (id : Text) (s : Store) (r : Reservation)
    → holders r.pool_id r.ip_address s ≤ 1
    → get_reservation id s ≡ ok r
    → r.status ≡ active
    → (release env id s).0 ≡ ok tt
    → holders r.pool_id r.ip_address (release env id s).1 ≡ 0
unfolding from_row
holders-release env id s r one e a h =
    let (row, found, same) = get_reservation-found id s r e in
    ap (count (holds r.pool_id r.ip_address)) (release-rows env id s r e h)
    ∙ subst
        (λ q.
          holders q.pool_id q.ip_address s ≤ 1
          → q.status ≡ active
          → count (holds q.pool_id q.ip_address)
              (map (update_row (released_row env q)) s.reservations)
            ≡ 0)
        same (λ o b. holders-release_row env id s row o found b) one a
