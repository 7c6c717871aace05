-- ===== src/Service/Reservation.antt =====
-- internal/service/reservation.go
pub mod Create
pub mod Next
pub mod Release
use rackd.Prelude.{
  ℕ, zero, suc, ◌≡◌, refl, Bool, true, false, not, Option, none, some, List, [], ◌∷◌, if◌then◌else◌,
}
use rackd.Text.{Text, codes, ◌==◌, is_empty}
use rackd.Error.{
  Error, Result, ok, err, ip_conflict, ip_already_reserved, ip_not_available, pool_not_found,
  reservation_not_found, not_found, validation, invalid, map_error,
}
use rackd.Model.{Time, Caller, Reservation, CreateReservationRequest, UpdateReservationRequest}
use rackd.ReservationStatus.{active, claimed, released}
use rackd.Store.{Store, Env, Exec, return, raise, query, ◌>>=◌, ◌>>◌, fail_if, modify}
use rackd.Storage.Pool.{get_network_pool}
use rackd.Storage.Pool.Allocate.{get_next_available_ip}
use rackd.Storage.Pool.Heatmap.{IpStatus, get_pool_heatmap}
use rackd.Storage.Reservation.{
  create_reservation, get_reservation, get_reservation_by_ip, update_reservation,
  delete_reservation, expire_reservations, is_ip_reserved,
}
use rackd.Storage.Reservation.Listing.{
  ReservationFilter, list_reservations, get_reservations_by_pool, get_reservations_by_user,
}
use rackd.Service.Access.{require_permission, enrich_audit}

-- ErrNotFound for the storage's ErrReservationNotFound
abbrev as_not_found : Error → Error
as_not_found reservation_not_found = not_found
as_not_found e = e

abbrev permit : Env → Text → Exec (Unit {0})
permit env action = require_permission env (codes "reservations") action

-- List
unfoldable pub list : Env → Option ReservationFilter → Exec (List Reservation)
list env filter = do permit env (codes "list"); query (λ s. ok (list_reservations filter s))

-- Get
unfoldable pub get : Env → Text → Exec Reservation
get env id = do
  permit env (codes "read")
  query (λ s. map_error as_not_found (get_reservation id s))

-- GetByIP
unfoldable pub get_by_ip : Env → Text → Text → Exec Reservation
get_by_ip env pool ip = do
  permit env (codes "read")
  query (λ s. map_error as_not_found (get_reservation_by_ip pool ip s))

-- The user who reserves.
abbrev reserved_by_of : Option Caller → Text
reserved_by_of none = codes "system"
reserved_by_of (some c) = if is_empty c.user_id then codes "system" else c.user_id

abbrev no_address : Error → Error
no_address ip_not_available = invalid "ip_address" "No IP addresses available in pool"
no_address e = e

-- What Create does with an error of the storage: `none` is another attempt.
unfoldable pub after_failure : Bool → Error → Option Error
after_failure auto ip_conflict =
    if auto then none else some (invalid "ip_address" "IP address is already in use by a device")
after_failure auto ip_already_reserved =
    if auto then none else some (invalid "ip_address" "IP address is already reserved")
after_failure auto pool_not_found = some (invalid "pool_id" "Pool not found")
after_failure auto e = some e

abbrev retry : Bool → Exec Reservation → Exec Reservation → Exec Reservation
retry auto attempt rest s = elim (attempt s).0 [
  | ok r ↦ (ok r, (attempt s).1)
  | err e ↦ elim (after_failure auto e) [
    | none ↦ rest (attempt s).1
    | some e' ↦ (err e', (attempt s).1)
  ]
]

abbrev pub contention : Error
contention =
    invalid "ip_address"
      "Failed to automatically allocate IP due to high contention, please try again later"

-- The address of one attempt.
unfoldable pub pick_address : CreateReservationRequest → Store → Result Text
pick_address req s =
    if is_empty req.ip_address
    then map_error no_address (get_next_available_ip req.pool_id s)
    else ok req.ip_address

abbrev pub new_reservation : Env → CreateReservationRequest → Text → Reservation
new_reservation env req ip = record {
  id = [];
  pool_id = req.pool_id;
  ip_address = ip;
  hostname = req.hostname;
  purpose = req.purpose;
  reserved_by = reserved_by_of env.ctx.caller;
  reserved_at = env.now;
  expires_at = req.expires_at;
  status = active;
  notes = req.notes;
  created_at = 0;
  updated_at = 0;
}

-- What the rest of the world brings to Create: the clock and the UUIDs of each attempt, and what other
-- requests do to the store between the choice of an address and its reservation.
pub record World : Type 0 where
  pub env : ℕ → Env
  pub others : ℕ → Store → Store

-- The loop of Create; the first argument is the number of attempts left.
unfoldable pub create_loop : ℕ → World → CreateReservationRequest → Exec Reservation
create_loop zero world req = raise contention
create_loop (suc left) world req = do
  ip ← query (pick_address req)
  modify (world.others left)
  retry (is_empty req.ip_address)
      (create_reservation (enrich_audit (world.env left)) (new_reservation (world.env left) req ip))
      (create_loop left world req)

abbrev pub max_retries : ℕ
max_retries = 5

-- Each attempt is made for the same caller.
abbrev pub own : Env → World → World
own env world = record world { env = λ k. record (world.env k) { ctx = env.ctx } }

-- Create, for the caller of `env`
unfoldable pub create : Env → World → CreateReservationRequest → Exec Reservation
create env world req = do
  permit env (codes "create")
  fail_if (is_empty req.pool_id) (invalid "pool_id" "Pool ID is required")
  create_loop max_retries (own env world) req

-- A field of the request replaces the old one, unless it is empty.
abbrev or_old : Text → Text → Text
or_old [] old = old
or_old (c ∷ s) old = c ∷ s

abbrev or_old_time : Option Time → Option Time → Option Time
or_old_time none old = old
or_old_time (some t) old = some t

abbrev pub merge : UpdateReservationRequest → Reservation → Reservation
merge req r = record r {
  hostname = or_old req.hostname r.hostname;
  purpose = or_old req.purpose r.purpose;
  expires_at = or_old_time req.expires_at r.expires_at;
  notes = or_old req.notes r.notes;
}

-- Update
unfoldable pub update : Env → Text → UpdateReservationRequest → Exec Reservation
update env id req = do
  permit env (codes "update")
  fail_if (is_empty id) (invalid "id" "ID is required")
  r ← query (λ s. map_error as_not_found (get_reservation id s))
  fail_if (not (r.status == active)) (invalid "status" "Cannot update a non-active reservation")
  update_reservation (enrich_audit env) (merge req r)

-- Delete
unfoldable pub delete : Env → Text → Exec (Unit {0})
delete env id = do
  permit env (codes "delete")
  fail_if (is_empty id) (invalid "id" "ID is required")
  query (λ s. map_error as_not_found (get_reservation id s))
  delete_reservation (enrich_audit env) id

-- Release
unfoldable pub release : Env → Text → Exec (Unit {0})
release env id = do
  permit env (codes "update")
  fail_if (is_empty id) (invalid "id" "ID is required")
  r ← query (λ s. map_error as_not_found (get_reservation id s))
  update_reservation (enrich_audit env) (record r { status = released })
  return tt

-- Claim: no reservation of the address is no error.
abbrev claim_found : Env → Result Reservation → Exec (Unit {0})
claim_found env (ok r) = do
  update_reservation (enrich_audit env) (record r { status = claimed })
  return tt
claim_found env (err reservation_not_found) = return tt
claim_found env (err e) = raise e

unfoldable pub claim : Env → Text → Text → Exec (Unit {0})
claim env pool ip s = claim_found env (get_reservation_by_ip pool ip s) s

-- GetByPool
unfoldable pub get_by_pool : Env → Text → Exec (List Reservation)
get_by_pool env pool = do permit env (codes "list"); query (get_reservations_by_pool pool)

-- GetByUser
unfoldable pub get_by_user : Env → Text → Exec (List Reservation)
get_by_user env user = do permit env (codes "list"); query (get_reservations_by_user user)

-- The loop over the heatmap.
unfoldable pub first_available : List IpStatus → Result Text
first_available [] = err ip_not_available
first_available (e ∷ entries) =
    if e.status == codes "available" then ok e.ip else first_available entries

abbrev first_of : Result (List IpStatus) → Result Text
first_of (err e) = err e
first_of (ok entries) = first_available entries

-- GetNextAvailableIP of the service
unfoldable pub next_available_ip : Env → Text → Exec Text
next_available_ip env pool = do
  permit env (codes "create")
  query (get_network_pool pool)
  query (λ s. first_of (get_pool_heatmap pool s))

-- ExpireExpired, a system operation without a permission
unfoldable pub expire_expired : Time → Time → Exec ℕ
expire_expired stamp now = expire_reservations stamp now

-- IsIPReserved of the service
abbrev pub is_reserved : Text → Text → Store → Result Bool
is_reserved pool ip s = is_ip_reserved pool ip s
