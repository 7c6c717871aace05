-- ===== src/Service/Role/Change.antt =====
-- What the operations of the role service do to the roles and to the roles of users.
use rackd.Prelude.{
  subst, sym, ◌≡◌, refl, Bool, true, false, not, ◌||◌, none, some, List, [], ◌∷◌, ◌++◌, map, arith,
  any, keep, Bool-cases, Option-cases, inl, inr, ◌⊎◌,
}
use rackd.Text.{Text, ◌==◌}
use rackd.Model.{Time, Role, UserRole}
use rackd.Store.{Store, Env, or_uuid}
use rackd.Storage.Rbac.{
  create_role, or_now, get_role, find_role, update_role, update_row, delete_role, delete_role_rows,
  insert_role_permission, add_role_permission, remove_role_permission,
}
use rackd.Storage.Rbac.Users.{assign_role_to_user, remove_role_from_user, has_link}
use rackd.Service.Access.{require_permission, is_admin, enrich_audit}
use rackd.Service.Role.{
  create, new_role, update, delete, grant_permission, revoke_permission, assign_to_user,
  revoke_from_user, is_privileged,
}

any_weaken :
    (p q : Role → Bool) (rows : List Role) → any (λ r. p r || q r) rows ≡ false → any p rows ≡ false
any_weaken p q [] e = refl
any_weaken p q (r ∷ rows) e = ground (arith, any_weaken p q rows)

-- A write to the roles and their users that a caller who is no administrator can make.
pub data Change (s t : Store) : Type 0 where
  keeps : t.roles ≡ s.roles → t.user_roles ≡ s.user_roles → Change s t
  adds :
      (r : Role)
      → any (λ q. q.id == r.id) s.roles ≡ false
      → t.roles ≡ s.roles ++ r ∷ []
      → t.user_roles ≡ s.user_roles
      → Change s t
  updates :
      (new : Role) (now : Time)
      → t.roles ≡ map (update_row new now) s.roles
      → t.user_roles ≡ s.user_roles
      → Change s t
  deletes :
      (id : Text)
      → t.roles ≡ keep (λ r. not (r.id == id)) s.roles
      → t.user_roles ≡ keep (λ l. not (l.role_id == id)) s.user_roles
      → Change s t
  assigns :
      (l : UserRole) (r : Role)
      → find_role l.role_id s ≡ some r
      → is_privileged r ≡ false
      → t.roles ≡ s.roles
      → t.user_roles ≡ s.user_roles ++ l ∷ []
      → Change s t
  revokes :
      (user role : Text)
      → t.roles ≡ s.roles
      → t.user_roles ≡ keep (λ l. not (has_link user role l)) s.user_roles
      → Change s t

unchanged : {s : Store} → Change s s
unchanged = keeps refl refl

create_role-Change : (env : Env) (r : Role) (s : Store) → Change s (create_role env r s).1
unfolding create_role
create_role-Change env r s =
    elim (Bool-cases (any (λ q. q.id == or_uuid env r.id || q.name == r.name) s.roles)) [
      | inl e ↦ rw e unchanged
      | inr e ↦ rw e (
          adds
            (record r {
              id = or_uuid env r.id;
              created_at = or_now env.now r.created_at;
              updated_at = or_now env.now r.updated_at;
            })
            (any_weaken (λ q. q.id == or_uuid env r.id) (λ q. q.name == r.name) s.roles e) refl
            refl)
    ]

-- The store is as before, or as a step of the storage leaves it.
abbrev Either : Store → Store → Store → Type 0
Either s t u = (u ≡ s) ⊎ (u ≡ t)

Change-Either : {s t u : Store} → Either s t u → Change s t → Change s u
Change-Either {s = s} (inl e) c = subst (Change s) (sym e) unchanged
Change-Either {s = s} (inr e) c = subst (Change s) (sym e) c

pub create-Change : (env : Env) (r : Role) (s : Store) → Change s (create env r s).1
unfolding create require_permission
create-Change env r s =
    Change-Either (ground arith) (create_role-Change (enrich_audit env) (new_role env r) s)

update_role-Change : (env : Env) (r : Role) (s : Store) → Change s (update_role env r s).1
unfolding update_role
update_role-Change env r s =
    Change-Either {t = record s { roles = map (update_row r env.now) s.roles }} (ground arith)
      (updates r env.now refl refl)

pub update-Change : (env : Env) (id : Text) (r : Role) (s : Store) → Change s (update env id r s).1
unfolding update require_permission
update-Change env id r s =
    Change-Either (ground arith)
      (update_role-Change env (record r { id = id; updated_at = env.now }) s)

delete_role-Change : (id : Text) (s : Store) → Change s (delete_role id s).1
unfolding delete_role
delete_role-Change id s =
    Change-Either {t = delete_role_rows id s} (ground arith) (deletes id refl refl)

pub delete-Change : (env : Env) (id : Text) (s : Store) → Change s (delete env id s).1
unfolding delete require_permission
delete-Change env id s = Change-Either (ground arith) (delete_role-Change id s)

-- Permissions of roles are another table.
add_role_permission-Change :
    (env : Env) (role permission : Text) (s : Store)
    → Change s (add_role_permission env role permission s).1
unfolding add_role_permission insert_role_permission
add_role_permission-Change env role permission s = keeps (ground arith) (ground arith)

pub grant_permission-Change :
    (env : Env) (role permission : Text) (s : Store)
    → Change s (grant_permission env role permission s).1
unfolding grant_permission require_permission
grant_permission-Change env role permission s =
    Change-Either (ground arith) (add_role_permission-Change env role permission s)

remove_role_permission-Change :
    (role permission : Text) (s : Store) → Change s (remove_role_permission role permission s).1
unfolding remove_role_permission
remove_role_permission-Change role permission s = keeps (ground arith) (ground arith)

pub revoke_permission-Change :
    (env : Env) (role permission : Text) (s : Store)
    → Change s (revoke_permission env role permission s).1
unfolding revoke_permission require_permission
revoke_permission-Change env role permission s =
    Change-Either (ground arith) (remove_role_permission-Change role permission s)

assign_role_to_user-Change :
    (env : Env) (user role : Text) (r : Role) (s : Store)
    → find_role role s ≡ some r
    → is_privileged r ≡ false
    → Change s (assign_role_to_user env user role s).1
unfolding assign_role_to_user
assign_role_to_user-Change env user role r s found plain =
    let l : UserRole = record { user_id = user; role_id = role; created_at = env.now } in
    Change-Either {t = record s { user_roles = s.user_roles ++ l ∷ [] }} (ground arith)
      (assigns l r found plain refl refl)

-- A role that is not there, or that only administrators hand out, changes nothing.
assign_to_user-refused :
    (env : Env) (user role : Text) (s : Store)
    → is_admin env s ≡ false
    → find_role role s ≡ none
      ⊎ ((r : Role) × (find_role role s ≡ some r) × (is_privileged r ≡ true))
    → (assign_to_user env user role s).1 ≡ s
unfolding assign_to_user require_permission get_role
assign_to_user-refused env user role s h (inl e) = ground arith
assign_to_user-refused env user role s h (inr (r, e, p)) = ground arith

assign_to_user-Either :
    (env : Env) (user role : Text) (s : Store)
    → Either s (assign_role_to_user env user role s).1 (assign_to_user env user role s).1
unfolding assign_to_user require_permission get_role
assign_to_user-Either env user role s = ground arith

pub assign_to_user-Change :
    (env : Env) (user role : Text) (s : Store)
    → is_admin env s ≡ false
    → Change s (assign_to_user env user role s).1
assign_to_user-Change env user role s h = elim (Option-cases (find_role role s)) [
  | inl e ↦ subst (Change s) (sym (assign_to_user-refused env user role s h (inl e))) unchanged
  | inr (r, e) ↦ elim (Bool-cases (is_privileged r)) [
    | inl p ↦
        subst (Change s) (sym (assign_to_user-refused env user role s h (inr (r, e, p)))) unchanged
    | inr p ↦
        Change-Either (assign_to_user-Either env user role s)
          (assign_role_to_user-Change env user role r s e p)
  ]
]

remove_role_from_user-Change :
    (user role : Text) (s : Store) → Change s (remove_role_from_user user role s).1
unfolding remove_role_from_user
remove_role_from_user-Change user role s =
    Change-Either
      {t = record s { user_roles = keep (λ l. not (has_link user role l)) s.user_roles }}
      (ground arith) (revokes user role refl refl)

pub revoke_from_user-Change :
    (env : Env) (user role : Text) (s : Store) → Change s (revoke_from_user env user role s).1
unfolding revoke_from_user require_permission
revoke_from_user-Change env user role s =
    Change-Either (ground arith) (remove_role_from_user-Change user role s)
