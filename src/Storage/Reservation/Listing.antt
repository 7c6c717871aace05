-- ===== src/Storage/Reservation/Listing.antt =====
-- internal/storage/reservation_sqlite.go: the lists of reservations, and model.ReservationFilter.
use rackd.Prelude.{
  ◌≡◌, ◌≤◌, refl, ap, ◌∙◌, Bool, true, false, not, ◌&&◌, Option, none, some, List, [], ◌∷◌, map,
  leb, if◌then◌else◌, any, keep, length, arith,
}
use rackd.Rows.{any-map, any_congr}
use rackd.Text.{Text, ◌==◌, is_empty}
use rackd.Error.{Result, ok, err, invalid_id}
use rackd.Model.{Reservation, ReservationRow}
use rackd.ReservationStatus.{active}
use rackd.Store.{Store}
use rackd.Storage.Order.{
  text_leb, sort_by, Pagination, paginate, max_page_size, length-paginate, any-paginate,
  any-sort_by,
}
use rackd.Storage.Reservation.{from_row, to_row}

-- GetReservationsByPool
unfoldable pub get_reservations_by_pool : Text → Store → Result (List Reservation)
get_reservations_by_pool pool s =
    if is_empty pool
    then err invalid_id
    else ok (
        map from_row (
          sort_by (λ a b. text_leb a.ip_address b.ip_address)
            (keep (λ r. r.pool_id == pool && r.status == active) s.reservations)))

-- GetReservationsByUser
unfoldable pub get_reservations_by_user : Text → Store → Result (List Reservation)
get_reservations_by_user user s =
    if is_empty user
    then err invalid_id
    else ok (
        map from_row (
          sort_by (λ a b. leb b.reserved_at a.reserved_at)
            (keep (λ r. r.reserved_by == user) s.reservations)))

-- model.ReservationFilter
pub record ReservationFilter : Type 0 where
  pub page : Pagination
  pub pool_id : Text
  pub status : Text
  pub reserved_by : Text
  pub ip_address : Text

-- A condition of the query, left out for an empty field.
abbrev pub matches_text : Text → Text → Bool
matches_text [] value = true
matches_text (c ∷ s) value = value == (c ∷ s)

unfoldable pub matches : Option ReservationFilter → ReservationRow → Bool
matches none r = true
matches (some f) r =
    matches_text f.pool_id r.pool_id
    && matches_text f.status r.status
    && matches_text f.reserved_by r.reserved_by
    && matches_text f.ip_address r.ip_address

abbrev page_of : Option ReservationFilter → Option Pagination
page_of none = none
page_of (some f) = some f.page

-- ListReservations
unfoldable pub list_reservations : Option ReservationFilter → Store → List Reservation
unfolding matches
list_reservations filter s = map from_row (
    paginate (page_of filter)
      (sort_by (λ a b. leb b.reserved_at a.reserved_at) (keep (matches filter) s.reservations)))

length-map : {A B : Type 0} (f : A → B) (xs : List A) → length (map f xs) ≡ length xs
length-map f [] = refl
length-map f (x ∷ xs) = omega (arith, length-map f xs)

any-keep-not :
    (p : ReservationRow → Bool) (rows : List ReservationRow)
    → any (λ r. not (p r)) (keep p rows) ≡ false
any-keep-not p [] = refl
any-keep-not p (r ∷ rows) = ground (arith, any-keep-not p rows)

-- The filter does not read what NULL becomes.
matches_row :
    (filter : Option ReservationFilter) (r : ReservationRow)
    → matches filter (to_row (from_row r)) ≡ matches filter r
unfolding matches to_row from_row
matches_row none r = refl
matches_row (some f) r = refl

-- ListReservations gives at most MaxPageSize reservations, and all of them match the filter.
pub list_reservations-matches :
    (filter : Option ReservationFilter) (s : Store)
    → (length (list_reservations filter s) ≤ max_page_size)
      × (any (λ r. not (matches filter (to_row r))) (list_reservations filter s) ≡ false)
unfolding list_reservations from_row to_row
list_reservations-matches filter s =
    let before = λ (a b : ReservationRow). leb b.reserved_at a.reserved_at in
    let kept = keep (matches filter) s.reservations in
    let page = paginate (page_of filter) (sort_by before kept) in
    (
      omega
          (arith, length-map from_row page, length-paginate (page_of filter) (sort_by before kept)),
      any-map (λ r. not (matches filter (to_row r))) from_row page
          ∙ any-paginate (λ r. not (matches filter (to_row (from_row r)))) (page_of filter)
              (sort_by before kept)
              (any-sort_by before (λ r. not (matches filter (to_row (from_row r)))) kept
                ∙ any_congr (λ r. not (matches filter (to_row (from_row r))))
                    (λ r. not (matches filter r)) kept (λ r. ap not (matches_row filter r))
                ∙ any-keep-not (matches filter) s.reservations),
    )
