-- ===== src/Storage/References/Pools.antt =====
-- The methods of pools keep the references.
use rackd.Prelude.{
  ◌≡◌, ◌⊎◌, refl, sym, subst, ◌∙◌, Bool, true, false, not, List, [], ◌∷◌, ◌++◌, map, any, keep,
  arith, inl, inr,
}
use rackd.Text.{Text, codes, ◌==◌, eq_iff}
use rackd.Rows.{any-append}
use rackd.Model.{NetworkPool, PoolTag}
use rackd.Store.{Store, Env, Exec, ◌>>◌, enqueue}
use rackd.Storage.Pool.{
  network_exists, pool_exists, insert_pool, insert_tag, insert_pool_tags, create_network_pool,
  update_network_pool, delete_network_pool, find_pool, stamp_pool, update_pool, delete_tags,
  pool_row,
}
use rackd.Storage.Pool
use rackd.Storage.References.{References, refers-keep, refers_mono, enqueue-References}

pool_exists-kept :
    (id gone : Text) (ps : List NetworkPool)
    → id == gone ≡ false
    → any (λ p. p.id == id) ps ≡ true
    → any (λ p. p.id == id) (keep (λ p. not (p.id == gone)) ps) ≡ true
pool_exists-kept id gone [] n h = ground arith
pool_exists-kept id gone (x ∷ xs) n h =
    ground (arith, pool_exists-kept id gone xs n, eq_iff x.id id, eq_iff x.id gone, eq_iff id gone)

pub delete_network_pool-References :
    (env : Env) (id : Text) (s : Store) → References s → References (delete_network_pool env id s).1
unfolding delete_network_pool enqueue pool_exists network_exists
delete_network_pool-References env id s h = record {
  networks = ground (
    arith,
    h.networks,
    refers-keep (λ p. any (λ n. n.id == p.network_id) s.networks)
        (λ p. any (λ n. n.id == p.network_id) s.networks) (λ p. not (p.id == id)) s.network_pools
        h.networks (λ p a b. a),
  );
  tags = ground (
    arith,
    h.tags,
    refers-keep (λ t. any (λ p. p.id == t.pool_id) s.network_pools)
        (λ t. any (λ p. p.id == t.pool_id) (keep (λ p. not (p.id == id)) s.network_pools))
        (λ t. not (t.pool_id == id)) s.pool_tags h.tags
        (λ t a b. pool_exists-kept t.pool_id id s.network_pools (ground arith) a),
  );
  reservations = ground (
    arith,
    h.reservations,
    refers-keep (λ t. any (λ p. p.id == t.pool_id) s.network_pools)
        (λ t. any (λ p. p.id == t.pool_id) (keep (λ p. not (p.id == id)) s.network_pools))
        (λ t. not (t.pool_id == id)) s.reservations h.reservations
        (λ t a b. pool_exists-kept t.pool_id id s.network_pools (ground arith) a),
  );
}

insert_pool-cases :
    (p : NetworkPool) (s : Store)
    → ((insert_pool p s).1 ≡ s)
      ⊎ ((network_exists p.network_id s ≡ true)
          × ((insert_pool p s).1 ≡ record s { network_pools = s.network_pools ++ pool_row p ∷ [] }))
unfolding insert_pool
insert_pool-cases p s = ground arith

add_pool-References :
    (p : NetworkPool) (s : Store)
    → network_exists p.network_id s ≡ true
    → References s
    → References (record s { network_pools = s.network_pools ++ p ∷ [] })
unfolding network_exists pool_exists
add_pool-References p s e h = record {
  networks = ground (
    arith,
    h.networks,
    e,
    any-append (λ q. not (any (λ n. n.id == q.network_id) s.networks)) s.network_pools (p ∷ []),
  );
  tags =
      refers_mono (λ t. any (λ q. q.id == t.pool_id) s.network_pools)
        (λ t. any (λ q. q.id == t.pool_id) (s.network_pools ++ p ∷ [])) s.pool_tags h.tags
        (λ t a. ground (arith, any-append (λ q. q.id == t.pool_id) s.network_pools (p ∷ [])));
  reservations =
      refers_mono (λ r. any (λ q. q.id == r.pool_id) s.network_pools)
        (λ r. any (λ q. q.id == r.pool_id) (s.network_pools ++ p ∷ [])) s.reservations
        h.reservations
        (λ r a. ground (arith, any-append (λ q. q.id == r.pool_id) s.network_pools (p ∷ [])));
}

insert_pool-References :
    (p : NetworkPool) (s : Store) → References s → References (insert_pool p s).1
insert_pool-References p s h = elim (insert_pool-cases p s) [
  | inl e ↦ subst References (sym e) h
  | inr (n, e) ↦ subst References (sym e) (add_pool-References (pool_row p) s n h)
]

insert_tag-cases :
    (id tag : Text) (s : Store)
    → ((insert_tag id tag s).1 ≡ s)
      ⊎ ((pool_exists id s ≡ true)
          × ((insert_tag id tag s).1
              ≡ record s { pool_tags = s.pool_tags ++ record { pool_id = id; tag = tag } ∷ [] }))
unfolding insert_tag
insert_tag-cases id tag s = ground arith

add_tag-References :
    (t : PoolTag) (s : Store)
    → pool_exists t.pool_id s ≡ true
    → References s
    → References (record s { pool_tags = s.pool_tags ++ t ∷ [] })
unfolding network_exists pool_exists
add_tag-References t s e h = record {
  networks = h.networks;
  tags = ground (
    arith,
    h.tags,
    e,
    any-append (λ u. not (any (λ q. q.id == u.pool_id) s.network_pools)) s.pool_tags (t ∷ []),
  );
  reservations = h.reservations;
}

insert_tag-References :
    (id tag : Text) (s : Store) → References s → References (insert_tag id tag s).1
insert_tag-References id tag s h = elim (insert_tag-cases id tag s) [
  | inl e ↦ subst References (sym e) h
  | inr (n, e) ↦
      subst References (sym e) (add_tag-References (record { pool_id = id; tag = tag }) s n h)
]

then-cases :
    (m n : Exec (Unit {0})) (s : Store)
    → (((m >> n) s).1 ≡ (m s).1) ⊎ (((m >> n) s).1 ≡ (n (m s).1).1)
then-cases m n s = ground arith

then-References :
    (m n : Exec (Unit {0})) (s : Store)
    → References (m s).1
    → References (n (m s).1).1
    → References ((m >> n) s).1
then-References m n s h k = elim (then-cases m n s) [
  | inl e ↦ subst References (sym e) h
  | inr e ↦ subst References (sym e) k
]

insert_pool_tags-References :
    (id : Text) (tags : List Text) (s : Store)
    → References s
    → References (insert_pool_tags id tags s).1
unfolding insert_pool_tags
insert_pool_tags-References id [] s h = h
insert_pool_tags-References id (t ∷ ts) s h =
    let k = insert_tag-References id t s h in
    then-References (insert_tag id t) (insert_pool_tags id ts) s k
      (insert_pool_tags-References id ts (insert_tag id t s).1 k)

-- The insertion of a pool with its tags
inserted : NetworkPool → Store → Store
inserted p s = ((insert_pool p >> insert_pool_tags p.id p.tags) s).1

create_network_pool-cases :
    (env : Env) (p : NetworkPool) (s : Store)
    → ((create_network_pool env p s).1 ≡ s)
      ⊎ ((create_network_pool env p s).1
          ≡ enqueue env
              (codes "create")
              (codes "pool")
              (stamp_pool env p).id
              (inserted (stamp_pool env p) s))
unfolding create_network_pool inserted
create_network_pool-cases env p s = ground arith

pub create_network_pool-References :
    (env : Env) (p : NetworkPool) (s : Store)
    → References s
    → References (create_network_pool env p s).1
unfolding inserted
create_network_pool-References env p s h = elim (create_network_pool-cases env p s) [
  | inl e ↦ subst References (sym e) h
  | inr e ↦
      let q = stamp_pool env p in
      let k = insert_pool-References q s h in
      subst References (sym e) (
        enqueue-References env (codes "create") (codes "pool") q.id _ (
          then-References (insert_pool q) (insert_pool_tags q.id q.tags) s k
            (insert_pool_tags-References q.id q.tags (insert_pool q s).1 k)))
]

update_pool_ids :
    (new : NetworkPool) (id : Text) (ps : List NetworkPool)
    → any (λ p. p.id == id) (map (Pool.update_row new) ps) ≡ any (λ p. p.id == id) ps
update_pool_ids new id [] = refl
update_pool_ids new id (p ∷ ps) = ground (arith, update_pool_ids new id ps)

update_pool_networks :
    (new : NetworkPool) (q : Text → Bool) (ps : List NetworkPool)
    → any (λ p. q p.network_id) (map (Pool.update_row new) ps) ≡ any (λ p. q p.network_id) ps
update_pool_networks new q [] = refl
update_pool_networks new q (p ∷ ps) = ground (arith, update_pool_networks new q ps)

update_pool-References :
    (new : NetworkPool) (s : Store) → References s → References (update_pool new s)
unfolding network_exists pool_exists
update_pool-References new s h = record {
  networks =
      update_pool_networks new (λ id. not (any (λ n. n.id == id) s.networks)) s.network_pools
      ∙ h.networks;
  tags =
      refers_mono (λ t. any (λ q. q.id == t.pool_id) s.network_pools)
        (λ t. any (λ q. q.id == t.pool_id) (map (Pool.update_row new) s.network_pools)) s.pool_tags
        h.tags (λ t a. update_pool_ids new t.pool_id s.network_pools ∙ a);
  reservations =
      refers_mono (λ t. any (λ q. q.id == t.pool_id) s.network_pools)
        (λ t. any (λ q. q.id == t.pool_id) (map (Pool.update_row new) s.network_pools))
        s.reservations h.reservations (λ t a. update_pool_ids new t.pool_id s.network_pools ∙ a);
}

delete_tags-References : (id : Text) (s : Store) → References s → References (delete_tags id s)
unfolding network_exists pool_exists
delete_tags-References id s h = record {
  networks = h.networks;
  tags =
      refers-keep (λ t. any (λ q. q.id == t.pool_id) s.network_pools)
        (λ t. any (λ q. q.id == t.pool_id) s.network_pools) (λ t. not (t.pool_id == id)) s.pool_tags
        h.tags (λ t a b. a);
  reservations = h.reservations;
}

update_network_pool-cases :
    (env : Env) (p : NetworkPool) (s : Store)
    → ((update_network_pool env p s).1 ≡ s)
      ⊎ ((update_network_pool env p s).1
          ≡ enqueue env
              (codes "update")
              (codes "pool")
              p.id
              (insert_pool_tags p.id p.tags
                (delete_tags p.id (update_pool (record p { updated_at = env.now }) s))).1)
unfolding update_network_pool
update_network_pool-cases env p s = ground arith

pub update_network_pool-References :
    (env : Env) (p : NetworkPool) (s : Store)
    → References s
    → References (update_network_pool env p s).1
update_network_pool-References env p s h = elim (update_network_pool-cases env p s) [
  | inl e ↦ subst References (sym e) h
  | inr e ↦
      let t = update_pool (record p { updated_at = env.now }) s in
      subst References (sym e) (
        enqueue-References env (codes "update") (codes "pool") p.id _ (
          insert_pool_tags-References p.id p.tags (delete_tags p.id t) (
            delete_tags-References p.id t
              (update_pool-References (record p { updated_at = env.now }) s h))))
]
