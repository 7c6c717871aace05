-- ===== src/Storage/Pool.antt =====
-- internal/storage/pool_sqlite.go: the rows of network_pools and pool_tags.
pub mod Listing
pub mod Allocate
pub mod Heatmap
pub mod Search
pub mod Wrap
pub mod Rounds
use rackd.Prelude.{
  ℕ, ◌≡◌, refl, Bool, true, false, not, ◌&&◌, Option, none, some, List, [], ◌∷◌, ◌++◌,
  if◌then◌else◌, any, keep, find, map,
}
use rackd.Text.{Text, codes, ◌==◌, is_empty}
use rackd.Error.{
  Error, Result, ok, err, SqlError, unique_failed, foreign_key_failed, invalid_id,
  network_not_found, pool_not_found, failed, or_error,
}
use rackd.Model.{NetworkPool, PoolTag, AddressRow, Network, ReservationRow}
use rackd.Storage.Order.{sort_by, text_leb}
use rackd.Store.{
  Store, Env, Exec, return, raise, query, transaction, ◌>>=◌, ◌>>◌, fail_if, modify, ask, audit_log,
  or_uuid,
}

-- SELECT EXISTS(SELECT 1 FROM networks WHERE id = ?)
unfoldable pub network_exists : Text → Store → Bool
network_exists id s = any (λ n. n.id == id) s.networks

-- SELECT EXISTS(SELECT 1 FROM network_pools WHERE id = ?)
unfoldable pub pool_exists : Text → Store → Bool
pool_exists id s = any (λ p. p.id == id) s.network_pools

-- The row of a pool: its tags are rows of pool_tags.
abbrev pub pool_row : NetworkPool → NetworkPool
pool_row p = record p { tags = [] }

-- INSERT INTO network_pools: the id is the primary key, and network_id refers to a network.
unfoldable pub insert_pool : NetworkPool → Exec (Unit {0})
unfolding network_exists pool_exists
insert_pool p s =
    if pool_exists p.id s
    then (err (failed "failed to create network pool" unique_failed), s)
    else if network_exists p.network_id s
    then (ok tt, record s { network_pools = s.network_pools ++ pool_row p ∷ [] })
    else (err (failed "failed to create network pool" foreign_key_failed), s)

abbrev pub has_tag : Text → Text → PoolTag → Bool
has_tag id tag t = t.pool_id == id && t.tag == tag

-- INSERT INTO pool_tags: (pool_id, tag) is the primary key, and pool_id refers to a pool.
unfoldable pub insert_tag : Text → Text → Exec (Unit {0})
insert_tag id tag s =
    if any (has_tag id tag) s.pool_tags
    then (err (failed "failed to insert pool tags" unique_failed), s)
    else if pool_exists id s
    then (ok tt, record s { pool_tags = s.pool_tags ++ record { pool_id = id; tag = tag } ∷ [] })
    else (err (failed "failed to insert pool tags" foreign_key_failed), s)

-- insertPoolTags
unfoldable pub insert_pool_tags : Text → List Text → Exec (Unit {0})
unfolding insert_tag
insert_pool_tags id [] = return tt
insert_pool_tags id (t ∷ ts) = insert_tag id t >> insert_pool_tags id ts

-- The pool as CreateNetworkPool completes it: its id and its times.
abbrev pub stamp_pool : Env → NetworkPool → NetworkPool
stamp_pool env pool = record pool {
  id = or_uuid env pool.id;
  created_at = env.now;
  updated_at = env.now;
}

-- CreateNetworkPool
unfoldable pub create_network_pool : Env → NetworkPool → Exec NetworkPool
unfolding insert_pool insert_pool_tags network_exists
create_network_pool env pool = do
  exists ← ask (network_exists pool.network_id)
  fail_if (not exists) network_not_found
  let stamped = stamp_pool env pool
  transaction (insert_pool stamped >> insert_pool_tags stamped.id stamped.tags)
  audit_log env (codes "create") (codes "pool") stamped.id
  return stamped

-- getPoolTags
unfoldable pub get_pool_tags : Text → Store → List Text
get_pool_tags id s =
    sort_by text_leb (map {A = PoolTag} (λ t. t.tag) (keep (λ t. t.pool_id == id) s.pool_tags))

-- The row with this id; the id is the primary key.
abbrev pub find_pool : Text → Store → Option NetworkPool
find_pool id s = find (λ p. p.id == id) s.network_pools

-- GetNetworkPool
unfoldable pub get_network_pool : Text → Store → Result NetworkPool
unfolding get_pool_tags
get_network_pool id s = if is_empty id then err invalid_id else elim (find_pool id s) [
  | none ↦ err pool_not_found
  | some p ↦ ok (record p { tags = get_pool_tags id s })
]

-- UPDATE network_pools SET … WHERE id = ?
abbrev pub update_row : NetworkPool → NetworkPool → NetworkPool
update_row new p =
    if p.id == new.id
    then record p {
      name = new.name;
      start_ip = new.start_ip;
      end_ip = new.end_ip;
      description = new.description;
      updated_at = new.updated_at;
    }
    else p

abbrev pub update_pool : NetworkPool → Store → Store
update_pool new s = record s { network_pools = map (update_row new) s.network_pools }

-- DELETE FROM pool_tags WHERE pool_id = ?
abbrev pub delete_tags : Text → Store → Store
delete_tags id s = record s { pool_tags = keep (λ t. not (t.pool_id == id)) s.pool_tags }

-- UpdateNetworkPool
unfoldable pub update_network_pool : Env → NetworkPool → Exec NetworkPool
unfolding insert_pool_tags pool_exists
update_network_pool env pool = do
  fail_if (is_empty pool.id) invalid_id
  let stamped = record pool { updated_at = env.now }
  transaction (do
    exists ← ask (pool_exists pool.id)
    fail_if (not exists) pool_not_found
    modify (update_pool stamped)
    modify (delete_tags pool.id)
    insert_pool_tags pool.id pool.tags)
  audit_log env (codes "update") (codes "pool") pool.id
  return stamped

abbrev pub is_id : Text → Option Text → Bool
is_id id none = false
is_id id (some i) = i == id

-- UPDATE addresses SET pool_id = NULL WHERE pool_id = ?
abbrev unlink_addresses : Text → Store → Store
unlink_addresses id s = record s {
  addresses = map (λ a. if is_id id a.pool_id then record a { pool_id = none } else a) s.addresses;
}

-- DELETE FROM network_pools WHERE id = ?, with the rows that ON DELETE CASCADE takes along.
abbrev delete_pool : Text → Store → Store
delete_pool id s = record s {
  network_pools = keep (λ p. not (p.id == id)) s.network_pools;
  pool_tags = keep (λ t. not (t.pool_id == id)) s.pool_tags;
  reservations = keep (λ r. not (r.pool_id == id)) s.reservations;
}

-- DeleteNetworkPool
unfoldable pub delete_network_pool : Env → Text → Exec (Unit {0})
unfolding pool_exists
delete_network_pool env id = do
  fail_if (is_empty id) invalid_id
  transaction (do
    exists ← ask (pool_exists id)
    fail_if (not exists) pool_not_found
    modify (unlink_addresses id)
    modify (delete_pool id))
  audit_log env (codes "delete") (codes "pool") id
