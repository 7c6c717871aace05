-- ===== src/Storage/References.antt =====
-- Pools refer to networks, tags and reservations to pools: the foreign keys of these tables.
pub mod Pools
pub mod Reservations
use rackd.Prelude.{
  length, ltb, Bool-cases, ◌≡◌, ◌⊎◌, refl, sym, subst, ap, ◌∙◌, Bool, true, false, not, ◌||◌, ◌&&◌,
  none, some, List, [], ◌∷◌, ◌++◌, map, any, keep, find, arith, Option-cases, inl, inr,
  if◌then◌else◌,
}
use rackd.Text.{Text, codes, ◌==◌, eq_iff}
use rackd.Rows.{any-append, any-keep, any-map, any_none, any_either, any_congr, any_mono, find-any}
use rackd.Model.{AuditLog, Time, Network, NetworkPool, PoolTag, Reservation, ReservationRow}
use rackd.Store.{queue_size, Store, Env, enqueue, or_uuid}
use rackd.Storage.Pool.{
  network_exists, pool_exists, insert_pool, insert_tag, insert_pool_tags, create_network_pool,
  update_network_pool, delete_network_pool, update_row, find_pool, stamp_pool, update_pool,
  delete_tags,
}
use rackd.Storage.Reservation.{
  to_row, stamp, insert_reservation, create_reservation, update_rows, update_reservation,
  delete_reservation, expire_reservations, expire_row,
}
use rackd.Storage.Network
use rackd.Storage.Network.{
  create_network, update_network, delete_network, insert_network, of_pool, delete_pools, delete_row,
}

pub record References (s : Store) : Type 0 where
  pub networks : any (λ p. not (network_exists p.network_id s)) s.network_pools ≡ false
  pub tags : any (λ t. not (pool_exists t.pool_id s)) s.pool_tags ≡ false
  pub reservations : any (λ r. not (pool_exists r.pool_id s)) s.reservations ≡ false

module _ {ℓ} {A : Type ℓ} where
  -- Where every row refers to an old row, and the old rows stay, so it is of a part of the rows.
  pub refers-keep :
      (p q r : A → Bool) (xs : List A)
      → any (λ x. not (p x)) xs ≡ false
      → ((x : A) → p x ≡ true → r x ≡ true → q x ≡ true)
      → any (λ x. not (q x)) (keep r xs) ≡ false
  refers-keep p q r [] h k = refl
  refers-keep p q r (x ∷ xs) h k = ground (arith, refers-keep p q r xs, k x)

  pub refers_mono :
      (p q : A → Bool) (xs : List A)
      → any (λ x. not (p x)) xs ≡ false
      → ((x : A) → p x ≡ true → q x ≡ true)
      → any (λ x. not (q x)) xs ≡ false
  refers_mono p q [] h k = refl
  refers_mono p q (x ∷ xs) h k = ground (arith, refers_mono p q xs, k x)

network_exists-kept :
    (id gone : Text) (ns : List Network)
    → id == gone ≡ false
    → any (λ n. n.id == id) ns ≡ true
    → any (λ n. n.id == id) (keep (λ n. not (n.id == gone)) ns) ≡ true
network_exists-kept id gone [] n h = ground arith
network_exists-kept id gone (x ∷ xs) n h =
    ground
      (arith, network_exists-kept id gone xs n, eq_iff x.id id, eq_iff x.id gone, eq_iff id gone)

-- A pool of another network stays.
pool_exists-others :
    (id network : Text) (ps : List NetworkPool)
    → any (λ p. p.network_id == network && p.id == id) ps ≡ false
    → any (λ p. p.id == id) ps ≡ true
    → any (λ p. p.id == id) (keep (λ p. not (p.network_id == network)) ps) ≡ true
pool_exists-others id network [] n h = ground arith
pool_exists-others id network (x ∷ xs) n h = ground (arith, pool_exists-others id network xs)

pub enqueue-cases :
    (env : Env) (action resource id : Text) (s : Store)
    → (enqueue env action resource id s ≡ s)
      ⊎ ((q : List AuditLog) × (enqueue env action resource id s ≡ record s { audit_queue = q }))
unfolding enqueue
enqueue-cases env action resource id s = elim (Option-cases env.ctx.audit) [
  | inl e ↦ inl (ground arith)
  | inr (by, e) ↦ elim (Bool-cases (ltb (length s.audit_queue) queue_size)) [
    | inl k ↦ inr (
      s.audit_queue
          ++ record {
            timestamp = env.now;
            action = action;
            resource = resource;
            resource_id = id;
            by = by;
          }
            ∷ [],
      ground arith,
    )
    | inr k ↦ inl (ground arith)
  ]
]

pub enqueue-References :
    (env : Env) (action resource id : Text) (s : Store)
    → References s
    → References (enqueue env action resource id s)
unfolding network_exists pool_exists
enqueue-References env action resource id s h = elim (enqueue-cases env action resource id s) [
  | inl e ↦ subst References (sym e) h
  | inr (q, e) ↦
      subst References (sym e)
        (record { networks = h.networks; tags = h.tags; reservations = h.reservations })
]

-- The store without the network, its pools and what belongs to them
abbrev deleted : Text → Store → Store
deleted id s = record (Network.unlink_addresses id s) {
  networks = keep (λ n. not (n.id == id)) s.networks;
  network_pools = keep (λ p. not (p.network_id == id)) s.network_pools;
  pool_tags = keep (λ t. not (of_pool id s t.pool_id)) s.pool_tags;
  reservations = keep (λ r. not (of_pool id s r.pool_id)) s.reservations;
}

delete_network-cases :
    (env : Env) (id : Text) (s : Store)
    → ((delete_network env id s).1 ≡ s)
      ⊎ ((delete_network env id s).1
          ≡ enqueue env (codes "delete") (codes "network") id (deleted id s))
unfolding delete_network delete_pools delete_row
delete_network-cases env id s = ground arith

deleted-References : (id : Text) (s : Store) → References s → References (deleted id s)
unfolding pool_exists network_exists
deleted-References id s h =
    let others = keep (λ p. not (p.network_id == id)) s.network_pools in
    record {
      networks =
          refers-keep (λ p. any (λ n. n.id == p.network_id) s.networks)
            (λ p. any (λ n. n.id == p.network_id) (keep (λ n. not (n.id == id)) s.networks))
            (λ p. not (p.network_id == id)) s.network_pools h.networks
            (λ p a b. network_exists-kept p.network_id id s.networks (ground arith) a);
      tags =
          refers-keep (λ t. any (λ p. p.id == t.pool_id) s.network_pools)
            (λ t. any (λ p. p.id == t.pool_id) others) (λ t. not (of_pool id s t.pool_id))
            s.pool_tags h.tags
            (λ t a b. pool_exists-others t.pool_id id s.network_pools (ground arith) a);
      reservations =
          refers-keep (λ r. any (λ p. p.id == r.pool_id) s.network_pools)
            (λ r. any (λ p. p.id == r.pool_id) others) (λ r. not (of_pool id s r.pool_id))
            s.reservations h.reservations
            (λ r a b. pool_exists-others r.pool_id id s.network_pools (ground arith) a);
    }

pub delete_network-References :
    (env : Env) (id : Text) (s : Store) → References s → References (delete_network env id s).1
delete_network-References env id s h = elim (delete_network-cases env id s) [
  | inl e ↦ subst References (sym e) h
  | inr e ↦ subst References (sym e) (
      enqueue-References env (codes "delete") (codes "network") id (deleted id s)
        (deleted-References id s h))
]

stamped_network : Env → Network → Network
stamped_network env n = record n {
  id = or_uuid env n.id;
  created_at = env.now;
  updated_at = env.now;
}

add_network-References :
    (n : Network) (s : Store)
    → References s
    → References (record s { networks = s.networks ++ n ∷ [] })
unfolding pool_exists network_exists
add_network-References n s h = record {
  networks =
      refers_mono (λ p. any (λ m. m.id == p.network_id) s.networks)
        (λ p. any (λ m. m.id == p.network_id) (s.networks ++ n ∷ [])) s.network_pools h.networks
        (λ p a. ground (arith, any-append (λ m. m.id == p.network_id) s.networks (n ∷ [])));
  tags = h.tags;
  reservations = h.reservations;
}

create_network-cases :
    (env : Env) (n : Network) (s : Store)
    → ((create_network env n s).1 ≡ s)
      ⊎ ((create_network env n s).1
          ≡ enqueue env
              (codes "create")
              (codes "network")
              (or_uuid env n.id)
              (record s { networks = s.networks ++ stamped_network env n ∷ [] }))
unfolding create_network insert_network stamped_network
create_network-cases env n s = ground arith

pub create_network-References :
    (env : Env) (n : Network) (s : Store) → References s → References (create_network env n s).1
create_network-References env n s h = elim (create_network-cases env n s) [
  | inl e ↦ subst References (sym e) h
  | inr e ↦ subst References (sym e) (
      enqueue-References env (codes "create") (codes "network") (or_uuid env n.id) _
        (add_network-References (stamped_network env n) s h))
]

update_network_ids :
    (new : Network) (id : Text) (ns : List Network)
    → any (λ n. n.id == id) (map (Network.update_row new) ns) ≡ any (λ n. n.id == id) ns
update_network_ids new id [] = refl
update_network_ids new id (n ∷ ns) = ground (arith, update_network_ids new id ns)

change_network-References :
    (n : Network) (s : Store)
    → References s
    → References (record s { networks = map (Network.update_row n) s.networks })
unfolding pool_exists network_exists
change_network-References n s h = record {
  networks =
      refers_mono (λ p. any (λ m. m.id == p.network_id) s.networks)
        (λ p. any (λ m. m.id == p.network_id) (map (Network.update_row n) s.networks))
        s.network_pools h.networks (λ p a. update_network_ids n p.network_id s.networks ∙ a);
  tags = h.tags;
  reservations = h.reservations;
}

update_network-cases :
    (env : Env) (n : Network) (s : Store)
    → ((update_network env n s).1 ≡ s)
      ⊎ ((update_network env n s).1
          ≡ enqueue env (codes "update") (codes "network") n.id (record s {
            networks = map (Network.update_row (record n { updated_at = env.now })) s.networks;
          }))
unfolding update_network
update_network-cases env n s = ground arith

pub update_network-References :
    (env : Env) (n : Network) (s : Store) → References s → References (update_network env n s).1
update_network-References env n s h = elim (update_network-cases env n s) [
  | inl e ↦ subst References (sym e) h
  | inr e ↦ subst References (sym e) (
      enqueue-References env (codes "update") (codes "network") n.id _
        (change_network-References (record n { updated_at = env.now }) s h))
]
