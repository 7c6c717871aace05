-- ===== src/ReservationStatus.antt =====
-- The constants of model.ReservationStatus and the methods of model.Reservation.
use rackd.Prelude.{Bool, false, not, ◌&&◌, none, some, ltb}
use rackd.Text.{Text, codes, ◌==◌}
use rackd.Model.{Time, Reservation}

abbrev pub active : Text
active = codes "active"

abbrev pub expired : Text
expired = codes "expired"

abbrev pub claimed : Text
claimed = codes "claimed"

abbrev pub released : Text
released = codes "released"

-- Reservation.IsExpired, at the time `now`
unfoldable pub is_expired : Time → Reservation → Bool
is_expired now r = elim r.expires_at [ none ↦ false | some t ↦ ltb t now ]

-- Reservation.IsActive
unfoldable pub is_active : Time → Reservation → Bool
is_active now r = r.status == active && not (is_expired now r)
