-- ===== src/Storage/Steps.antt =====
-- Histories of a store: every method of pools and reservations, with any arguments, in any order. The
-- connection pool holds one connection and a method writes its table in one transaction or statement,
-- so that each method is one step.
use rackd.Prelude.{◌≤◌, ◌≡◌, refl, List, [], ◌∷◌, arith}
use rackd.Text.{Text}
use rackd.Model.{Time, NetworkPool, Reservation, AddressRow, Network}
use rackd.Store.{Store, Env, enqueue}
use rackd.Storage.Pool.{
  network_exists, pool_exists, create_network_pool, update_network_pool, delete_network_pool,
  insert_pool, insert_pool_tags, insert_tag, stamp_pool, delete_tags, update_pool,
}
use rackd.Storage.Reservation.{
  create_reservation, update_reservation, delete_reservation, expire_reservations,
}
use rackd.Storage.Network.{create_network, insert_network, update_network, delete_network}
use rackd.Storage.References.{
  References, create_network-References, update_network-References, delete_network-References,
}
use rackd.Storage.References.Pools.{
  create_network_pool-References, update_network_pool-References, delete_network_pool-References,
}
use rackd.Storage.References.Reservations.{
  create_reservation-References, update_reservation-References, delete_reservation-References,
  expire_reservations-References,
}
use rackd.Storage.Reservation.Unique.{
  delete_network-IsUnique, IsUnique, holders, create_reservation-IsUnique,
  update_reservation-IsUnique, delete_reservation-IsUnique, expire_reservations-IsUnique,
  delete_network_pool-IsUnique,
}

-- The stores before and after one method.
pub data Step : Store → Store → Type 0 where
  creates_pool : (env : Env) (p : NetworkPool) (s : Store) → Step s (create_network_pool env p s).1
  updates_pool : (env : Env) (p : NetworkPool) (s : Store) → Step s (update_network_pool env p s).1
  deletes_pool : (env : Env) (id : Text) (s : Store) → Step s (delete_network_pool env id s).1
  reserves : (env : Env) (r : Reservation) (s : Store) → Step s (create_reservation env r s).1
  updates_reservation :
      (env : Env) (r : Reservation) (s : Store) → Step s (update_reservation env r s).1
  deletes_reservation : (env : Env) (id : Text) (s : Store) → Step s (delete_reservation env id s).1
  expires : (stamp now : Time) (s : Store) → Step s (expire_reservations stamp now s).1
  -- the methods of devices, which write this table
  writes_addresses : (rows : List AddressRow) (s : Store) → Step s (record s { addresses = rows })
  creates_network : (env : Env) (n : Network) (s : Store) → Step s (create_network env n s).1
  updates_network : (env : Env) (n : Network) (s : Store) → Step s (update_network env n s).1
  deletes_network : (env : Env) (id : Text) (s : Store) → Step s (delete_network env id s).1

pub data Reach (start : Store) : Store → Type 0 where
  here : Reach start start
  next : {s t : Store} → Reach start s → Step s t → Reach start t

reservations-insert_pool_tags :
    (id : Text) (tags : List Text) (s : Store)
    → (insert_pool_tags id tags s).1.reservations ≡ s.reservations
unfolding insert_pool_tags insert_tag
reservations-insert_pool_tags id [] s = refl
reservations-insert_pool_tags id (t ∷ ts) s =
    ground (arith, reservations-insert_pool_tags id ts (insert_tag id t s).1)

reservations-create_network_pool :
    (env : Env) (p : NetworkPool) (s : Store)
    → (create_network_pool env p s).1.reservations ≡ s.reservations
unfolding create_network_pool insert_pool enqueue
reservations-create_network_pool env p s =
    let q = stamp_pool env p in
    ground (arith, reservations-insert_pool_tags q.id q.tags (insert_pool q s).1)

reservations-update_network_pool :
    (env : Env) (p : NetworkPool) (s : Store)
    → (update_network_pool env p s).1.reservations ≡ s.reservations
unfolding update_network_pool enqueue
reservations-update_network_pool env p s =
    let t = delete_tags p.id (update_pool (record p { updated_at = env.now }) s) in
    ground (arith, reservations-insert_pool_tags p.id p.tags t)

reservations-create_network :
    (env : Env) (n : Network) (s : Store) → (create_network env n s).1.reservations ≡ s.reservations
unfolding create_network insert_network enqueue
reservations-create_network env n s = ground arith

reservations-update_network :
    (env : Env) (n : Network) (s : Store) → (update_network env n s).1.reservations ≡ s.reservations
unfolding update_network enqueue
reservations-update_network env n s = ground arith

IsUnique-of_eq : (s t : Store) → t.reservations ≡ s.reservations → IsUnique s → IsUnique t
IsUnique-of_eq s t e u = record {
  ids = λ id. rw e (u.ids id);
  holding = λ pool ip. rw e (u.holding pool ip);
}

Step-IsUnique : {s t : Store} → Step s t → IsUnique s → IsUnique t
Step-IsUnique (creates_pool env p s) u =
    IsUnique-of_eq s _ (reservations-create_network_pool env p s) u
Step-IsUnique (updates_pool env p s) u =
    IsUnique-of_eq s _ (reservations-update_network_pool env p s) u
Step-IsUnique (deletes_pool env id s) u = delete_network_pool-IsUnique env id s u
Step-IsUnique (reserves env r s) u = create_reservation-IsUnique env r s u
Step-IsUnique (updates_reservation env r s) u = update_reservation-IsUnique env r s u
Step-IsUnique (deletes_reservation env id s) u = delete_reservation-IsUnique env id s u
Step-IsUnique (expires stamp now s) u = expire_reservations-IsUnique stamp now s u
Step-IsUnique (writes_addresses rows s) u = record { ids = u.ids; holding = u.holding }
Step-IsUnique (creates_network env n s) u =
    IsUnique-of_eq s _ (reservations-create_network env n s) u
Step-IsUnique (updates_network env n s) u =
    IsUnique-of_eq s _ (reservations-update_network env n s) u
Step-IsUnique (deletes_network env id s) u = delete_network-IsUnique env id s u

Reach-IsUnique : {s t : Store} → IsUnique s → Reach s t → IsUnique t
Reach-IsUnique u here = u
Reach-IsUnique u (next r st) = Step-IsUnique st (Reach-IsUnique u r)

-- In every history of pool, reservation, address and network changes that starts without
-- reservations, each address of a pool has at most one active reservation.
pub one_active_reservation :
    (start s : Store) (pool ip : Text)
    → start.reservations ≡ []
    → Reach start s
    → holders pool ip s ≤ 1
one_active_reservation start s pool ip e r =
    (Reach-IsUnique (record { ids = λ id. rw e (omega arith); holding = λ p i. rw e (omega arith) })
        r).holding
      pool ip

Step-References : {s t : Store} → Step s t → References s → References t
unfolding network_exists pool_exists
Step-References (creates_pool env p s) h = create_network_pool-References env p s h
Step-References (updates_pool env p s) h = update_network_pool-References env p s h
Step-References (deletes_pool env id s) h = delete_network_pool-References env id s h
Step-References (reserves env r s) h = create_reservation-References env r s h
Step-References (updates_reservation env r s) h = update_reservation-References env r s h
Step-References (deletes_reservation env id s) h = delete_reservation-References env id s h
Step-References (expires stamp now s) h = expire_reservations-References stamp now s h
Step-References (writes_addresses rows s) h = record {
  networks = h.networks;
  tags = h.tags;
  reservations = h.reservations;
}
Step-References (creates_network env n s) h = create_network-References env n s h
Step-References (updates_network env n s) h = update_network-References env n s h
Step-References (deletes_network env id s) h = delete_network-References env id s h

-- Every history of network, pool, reservation and address changes, from a store where each pool
-- refers to a network and each tag and reservation to a pool, ends in such a store.
pub Reach-References : (start s : Store) → References start → Reach start s → References s
Reach-References start s h here = h
Reach-References start s h (next r st) = Step-References st (Reach-References start _ h r)
