-- ===== src/Service/Reservation/Create.antt =====
-- Create of the reservation service: what a success means, and the automatic choice of an address.
use rackd.Prelude.{
  ℕ, zero, suc, ◌<◌, ◌≡◌, refl, ap, ◌∙◌, sym, subst, true, false, none, some, [], ◌∷◌, arith,
  Option-cases, inl, inr, ◌⊎◌,
}
use rackd.Text.{Text, codes, is_empty}
use rackd.Net.{parse_ip}
use rackd.Error.{Error, Result, ok, err, ip_already_reserved}
use rackd.Model.{Reservation, CreateReservationRequest, NetworkPool}
use rackd.Store.{Store, Env, Exec}
use rackd.Storage.Pool.{find_pool}
use rackd.Storage.Pool.Allocate.{check_in_range, get_next_available_ip}
use rackd.Storage.Reservation.{create_reservation, get_reservation_by_ip, used_by_device, stamp}
use rackd.Storage.Reservation.Unique.{holders}
use rackd.Storage.Reservation.Create.{
  create_reservation-IsFree, create_reservation-stored, get_reservation_by_ip-create,
}
use rackd.Service.Access.{require_permission, enrich_audit}
use rackd.Service.Reservation.{
  World, own, new_reservation, pick_address, create_loop, create, after_failure, contention,
  max_retries,
}

-- The attempt that succeeded: its store, its clock and its address.
pub record IsReserved (req : CreateReservationRequest) (r : Reservation) (s : Store) : Type 0 where
  pub before : Store
  pub env : Env
  pub at : Env
  pub ip : Text
  pub created : (create_reservation env (new_reservation at req ip) before).0 ≡ ok r
  pub after : (create_reservation env (new_reservation at req ip) before).1 ≡ s

Result-cases {ℓ} :
    {A : Type ℓ} (r : Result A) → ((a : A) × (r ≡ ok a)) ⊎ ((e : Error) × (r ≡ err e))
Result-cases (ok a) = inl (a, refl)
Result-cases (err e) = inr (e, refl)

-- One attempt at the address `ip`.
attempt : ℕ → World → CreateReservationRequest → Text → Exec Reservation
attempt left world req ip s =
    create_reservation (enrich_audit (world.env left)) (new_reservation (world.env left) req ip)
      (world.others left s)

-- The loop by the outcome of its first attempt.
module _ (left : ℕ) (world : World) (req : CreateReservationRequest) (s : Store) (ip : Text)
    (p : pick_address req s ≡ ok ip) where
  create_loop-ok :
      (r : Reservation)
      → (attempt left world req ip s).0 ≡ ok r
      → create_loop (suc left) world req s ≡ (ok r, (attempt left world req ip s).1)
  unfolding create_loop attempt
  create_loop-ok r q = ground arith

  create_loop-again :
      (e : Error)
      → (attempt left world req ip s).0 ≡ err e
      → after_failure (is_empty req.ip_address) e ≡ none
      → create_loop (suc left) world req s
        ≡ create_loop left world req (attempt left world req ip s).1
  unfolding create_loop attempt
  create_loop-again e q a = ground arith

  create_loop-stop :
      (e e' : Error)
      → (attempt left world req ip s).0 ≡ err e
      → after_failure (is_empty req.ip_address) e ≡ some e'
      → create_loop (suc left) world req s ≡ (err e', (attempt left world req ip s).1)
  unfolding create_loop attempt
  create_loop-stop e e' q a = ground arith

create_loop-none :
    (left : ℕ) (world : World) (req : CreateReservationRequest) (s : Store) (e : Error)
    → pick_address req s ≡ err e
    → create_loop (suc left) world req s ≡ (err e, s)
unfolding create_loop
create_loop-none left world req s e p = ground arith

create_loop-zero :
    (world : World) (req : CreateReservationRequest) (s : Store)
    → create_loop zero world req s ≡ (err contention, s)
unfolding create_loop
create_loop-zero world req s = refl

-- A success of the loop is a success of its last attempt.
create_loop-IsReserved :
    (n : ℕ) (world : World) (req : CreateReservationRequest) (s : Store) (r : Reservation)
    → (create_loop n world req s).0 ≡ ok r
    → IsReserved req r (create_loop n world req s).1
create_loop-IsReserved zero world req s r h = absurd (cc (create_loop-zero world req s))
create_loop-IsReserved (suc left) world req s r h = elim (Result-cases (pick_address req s)) [
  | inr (e, p) ↦ absurd (cc (create_loop-none left world req s e p))
  | inl (ip, p) ↦ elim (Result-cases (attempt left world req ip s).0) [
    | inl (a, q) ↦
        let eq = create_loop-ok left world req s ip p a q in
        record {
          before = world.others left s;
          env = enrich_audit (world.env left);
          at = world.env left;
          ip = ip;
          created = unfold attempt in cc (q, eq);
          after = unfold attempt in cc eq;
        }
    | inr (e, q) ↦ elim (Option-cases (after_failure (is_empty req.ip_address) e)) [
      | inl again ↦
          let eq = create_loop-again left world req s ip p e q again in
          rw eq (create_loop-IsReserved left world req (attempt left world req ip s).1 r (cc eq))
      | inr (e', stop) ↦ absurd (cc (create_loop-stop left world req s ip p e e' q stop))
    ]
  ]
]

-- The empty text is no address.
not_empty_of_in_range :
    (ip start end_ip : Text) → check_in_range ip start end_ip ≡ ok true → is_empty ip ≡ false
unfolding check_in_range parse_ip
not_empty_of_in_range [] start end_ip h = ground arith
not_empty_of_in_range (c ∷ ip) start end_ip h = refl

create-loop :
    (env : Env) (world : World) (req : CreateReservationRequest) (s : Store) (r : Reservation)
    → (create env world req s).0 ≡ ok r
    → ((create_loop max_retries (own env world) req s).0 ≡ ok r)
      × ((create env world req s).1 ≡ (create_loop max_retries (own env world) req s).1)
      × (is_empty req.pool_id ≡ false)
unfolding create require_permission
create-loop env world req s r h = (ground arith, ground arith, ground arith)

abbrev HeldBy : Text → Text → Reservation → Store → Type 0
HeldBy pool ip r s = (get_reservation_by_ip pool ip s ≡ ok r) × (holders pool ip s ≡ 1)

HeldBy-own :
    (pool ip : Text) (r : Reservation) (s : Store)
    → r.pool_id ≡ pool
    → r.ip_address ≡ ip
    → HeldBy pool ip r s
    → HeldBy r.pool_id r.ip_address r s
HeldBy-own pool ip r s e f h =
    subst (λ p. HeldBy p r.ip_address r s) (sym e) (subst (λ i. HeldBy pool i r s) (sym f) h)

-- A reservation that the service's Create returns, whatever other requests did in between, is the
-- one that GetReservationByIP finds for its address, and the only active one of that address.
pub create-holds :
    (env : Env) (world : World) (req : CreateReservationRequest) (s : Store) (r : Reservation)
    → (create env world req s).0 ≡ ok r
    → (get_reservation_by_ip r.pool_id r.ip_address (create env world req s).1 ≡ ok r)
      × (holders r.pool_id r.ip_address (create env world req s).1 ≡ 1)
unfolding stamp
create-holds env world req s r h =
    let run = create-loop env world req s r h in
    let it = create_loop-IsReserved max_retries (own env world) req s r run.0 in
    let new = new_reservation it.at req it.ip in
    let free = create_reservation-IsFree it.env new it.before r it.created in
    let stored = (create_reservation-stored it.env new it.before r it.created).0 in
    let given = not_empty_of_in_range it.ip free.pool.start_ip free.pool.end_ip free.in_range in
    let held =
      get_reservation_by_ip-create it.env new it.before r it.created (inr refl) run.2 given in
    HeldBy-own req.pool_id it.ip r _ (ap (λ (t : Reservation). t.pool_id) stored)
      (ap (λ (t : Reservation). t.ip_address) stored)
      (subst (HeldBy req.pool_id it.ip r) (it.after ∙ sym run.1) held)

-- A loop whose every attempt finds its address reserved.
create_loop-stuck :
    (n : ℕ) (world : World) (req : CreateReservationRequest) (s : Store) (ip : Text)
    → ((k : ℕ) (t : Store) → world.others k t ≡ t)
    → pick_address req s ≡ ok ip
    → is_empty req.ip_address ≡ true
    → ((env : Env) (r : Reservation)
        → r.pool_id ≡ req.pool_id
        → r.ip_address ≡ ip
        → create_reservation env r s ≡ (err ip_already_reserved, s))
    → create_loop n world req s ≡ (err contention, s)
unfolding after_failure
create_loop-stuck zero world req s ip quiet p auto fails = create_loop-zero world req s
create_loop-stuck (suc left) world req s ip quiet p auto fails =
    let stuck : attempt left world req ip s ≡ (err ip_already_reserved, s) =
      unfold attempt in rw (quiet left s) (fails _ _ refl refl) in
    create_loop-again left world req s ip p ip_already_reserved (ap (λ t. t.0) stuck) (rw auto)
    ∙ ap (λ t. create_loop left world req t.1) stuck
    ∙ create_loop-stuck left world req s ip quiet p auto fails

create_reservation-taken :
    (env : Env) (r : Reservation) (s : Store) (pool : NetworkPool)
    → find_pool r.pool_id s ≡ some pool
    → check_in_range r.ip_address pool.start_ip pool.end_ip ≡ ok true
    → used_by_device r.pool_id r.ip_address s ≡ false
    → 0 < holders r.pool_id r.ip_address s
    → create_reservation env r s ≡ (err ip_already_reserved, s)
unfolding create_reservation
create_reservation-taken env r s pool e f g h = ground arith

pick_address-auto :
    (req : CreateReservationRequest) (s : Store) (ip : Text)
    → is_empty req.ip_address ≡ true
    → get_next_available_ip req.pool_id s ≡ ok ip
    → pick_address req s ≡ ok ip
unfolding pick_address
pick_address-auto req s ip auto next = ground arith

-- If the first address that no device uses is reserved and no other request comes in between, Create
-- with an automatic choice, by a caller who may, fails with the contention error, whatever else is
-- free, and leaves the store as it was.
pub create-stuck :
    (env : Env) (world : World) (req : CreateReservationRequest) (s : Store) (pool : NetworkPool)
    (ip : Text)
    → ((k : ℕ) (t : Store) → world.others k t ≡ t)
    → (require_permission env (codes "reservations") (codes "create") s).0 ≡ ok tt
    → is_empty req.pool_id ≡ false
    → is_empty req.ip_address ≡ true
    → get_next_available_ip req.pool_id s ≡ ok ip
    → find_pool req.pool_id s ≡ some pool
    → check_in_range ip pool.start_ip pool.end_ip ≡ ok true
    → used_by_device req.pool_id ip s ≡ false
    → 0 < holders req.pool_id ip s
    → create env world req s ≡ (err contention, s)
unfolding create require_permission
create-stuck env world req s pool ip quiet may given auto next found in_range no_device reserved =
    let stuck =
      create_loop-stuck max_retries (own env world) req s ip quiet
        (pick_address-auto req s ip auto next) auto
        λ (e : Env) (r : Reservation) (p : r.pool_id ≡ req.pool_id) (q : r.ip_address ≡ ip).
          create_reservation-taken e r s pool (ap (λ t. find_pool t s) p ∙ found)
            (ap (λ t. check_in_range t pool.start_ip pool.end_ip) q ∙ in_range)
            (subst (λ t. used_by_device r.pool_id t s ≡ false) (sym q)
              (ap (λ t. used_by_device t ip s) p ∙ no_device))
            (subst (λ t. 0 < holders r.pool_id t s) (sym q)
              (subst (λ t. 0 < holders t ip s) (sym p) reserved)) in
    ground arith
