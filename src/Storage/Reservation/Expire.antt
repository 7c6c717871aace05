-- ===== src/Storage/Reservation/Expire.antt =====
-- ExpireReservations: which reservations stay active.
use rackd.Prelude.{◌≡◌, refl, ◌∙◌, Bool, false, not, ◌&&◌, List, [], ◌∷◌, arith, any, count}
use rackd.Text.{Text, ◌==◌}
use rackd.Rows.{any-map, count-map, count_congr}
use rackd.Model.{Time, ReservationRow}
use rackd.Store.{Store}
use rackd.Storage.Reservation.{holds, is_due, expire_row, expire_reservations}
use rackd.Storage.Reservation.Unique.{holders}

expire_row-is_due :
    (stamp now : Time) (r : ReservationRow) → is_due now (expire_row stamp now r) ≡ false
unfolding ◌==◌
expire_row-is_due stamp now r = ground arith

expire_row-holds :
    (stamp now : Time) (pool ip : Text) (r : ReservationRow)
    → holds pool ip (expire_row stamp now r) ≡ holds pool ip r && not (is_due now r)
unfolding ◌==◌
expire_row-holds stamp now pool ip r = ground arith

any_of_none :
    (p : ReservationRow → Bool) (rows : List ReservationRow)
    → ((r : ReservationRow) → p r ≡ false)
    → any p rows ≡ false
any_of_none p [] h = refl
any_of_none p (r ∷ rows) h = ground (arith, h r, any_of_none p rows h)

-- ExpireReservations leaves no active reservation whose end is before its clock, and of each address
-- exactly the active reservations that were not due.
pub expire_reservations-holders :
    (stamp now : Time) (pool ip : Text) (s : Store)
    → (any (is_due now) (expire_reservations stamp now s).1.reservations ≡ false)
      × (holders pool ip (expire_reservations stamp now s).1
          ≡ count (λ r. holds pool ip r && not (is_due now r)) s.reservations)
unfolding expire_reservations
expire_reservations-holders stamp now pool ip s = (
  any-map (is_due now) (expire_row stamp now) s.reservations
      ∙ any_of_none (λ r. is_due now (expire_row stamp now r)) s.reservations
          (expire_row-is_due stamp now),
  count-map (holds pool ip) (expire_row stamp now) s.reservations
      ∙ count_congr (λ r. holds pool ip (expire_row stamp now r))
          (λ r. holds pool ip r && not (is_due now r)) s.reservations
          (expire_row-holds stamp now pool ip),
)
