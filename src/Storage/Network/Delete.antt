-- ===== src/Storage/Network/Delete.antt =====
-- internal/storage/network_sqlite.go, DeleteNetwork: what it leaves, and what stops it.
use rackd.Prelude.{
  ◌≡◌, refl, Bool, true, false, not, none, List, [], ◌∷◌, map, any, keep, arith, if◌then◌else◌,
}
use rackd.Text.{Text, ◌==◌, is_empty}
use rackd.Error.{ok, err, failed, foreign_key_failed}
use rackd.Model.{AddressRow}
use rackd.Store.{Store, Env, enqueue}
use rackd.Storage.Pool.{network_exists, is_id}
use rackd.Storage.Network.{delete_network, delete_pools, delete_row, in_pool}

in_pool_unlinked :
    (id : Text) (s : Store) (rows : List AddressRow)
    → any
        (λ a. in_pool id s a.pool_id)
        (map {A = AddressRow}
          (λ a. if is_id id a.network_id then record a { network_id = none } else a)
          rows)
      ≡ any (λ a. in_pool id s a.pool_id) rows
in_pool_unlinked id s [] = refl
in_pool_unlinked id s (a ∷ rows) = ground (arith, in_pool_unlinked id s rows)

-- DeleteNetwork of a network that is there fails with a foreign key error and leaves the store as it
-- was, if an address of a device is in one of the network's pools.
pub delete_network_blocked :
    (env : Env) (id : Text) (s : Store)
    → is_empty id ≡ false
    → network_exists id s ≡ true
    → any (λ a. in_pool id s a.pool_id) s.addresses ≡ true
    → delete_network env id s
      ≡ (err (failed "failed to delete network pools" foreign_key_failed), s)
unfolding delete_network delete_pools
delete_network_blocked env id s given e h = ground (arith, in_pool_unlinked id s s.addresses)

-- No row of a kept part passes.
none_kept : {A : Type 0} (p : A → Bool) (xs : List A) → any p (keep (λ x. not (p x)) xs) ≡ false
none_kept p [] = refl
none_kept p (x ∷ xs) = ground (arith, none_kept p xs)

none_linked :
    (id : Text) (rows : List AddressRow)
    → any
        (λ a. is_id id a.network_id)
        (map {A = AddressRow}
          (λ a. if is_id id a.network_id then record a { network_id = none } else a)
          rows)
      ≡ false
none_linked id [] = refl
none_linked id (a ∷ rows) = ground (arith, none_linked id rows)

-- After a successful DeleteNetwork no network has the id, no pool is of the network, and no address
-- refers to it.
pub delete_network_clean :
    (env : Env) (id : Text) (s : Store)
    → (delete_network env id s).0 ≡ ok tt
    → (network_exists id (delete_network env id s).1 ≡ false)
      × (any (λ p. p.network_id == id) (delete_network env id s).1.network_pools ≡ false)
      × (any (λ a. is_id id a.network_id) (delete_network env id s).1.addresses ≡ false)
unfolding delete_network delete_pools delete_row network_exists enqueue
delete_network_clean env id s h = ground (
  arith,
  none_kept (λ n. n.id == id) s.networks,
  none_kept (λ p. p.network_id == id) s.network_pools,
  none_linked id s.addresses,
)
