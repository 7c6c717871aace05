-- ===== src/Storage/Rbac.antt =====
-- internal/storage/rbac_sqlite.go: permissions, roles and who has them. A permission reaches a user
-- through a role; the schema deletes the links of a deleted role, permission or user.
pub mod Users
pub mod Grants
use rackd.Prelude.{
  ℕ, ◌≡◌, refl, Bool, true, false, not, ◌&&◌, ◌||◌, Option, none, some, List, [], ◌∷◌, ◌++◌, map,
  ltb, nat_eq, if◌then◌else◌, any, keep, find, count,
}
use rackd.Text.{Text, ◌==◌, is_empty}
use rackd.Error.{
  Error, Result, ok, err, unique_failed, foreign_key_failed, invalid_id, role_not_found,
  permission_not_found, message, failed, or_error,
}
use rackd.Model.{Time, Permission, Role, RolePermission, UserRole, User}
use rackd.Store.{
  Store, Env, Exec, return, raise, query, ask, transaction, ◌>>=◌, ◌>>◌, fail_if, modify, or_uuid,
}
use rackd.Storage.Order.{text_leb, sort_by, Pagination, paginate}

abbrev pub or_now : Time → Time → Time
or_now now t = if nat_eq t 0 then now else t

-- CreatePermission: the id and the name are unique.
unfoldable pub create_permission : Env → Permission → Exec Permission
create_permission env p s =
    let new = record p { id = or_uuid env p.id; created_at = or_now env.now p.created_at } in
    if any (λ q. q.id == new.id || q.name == new.name) s.permissions
    then (err (failed "failed to create permission" unique_failed), s)
    else (ok new, record s { permissions = s.permissions ++ new ∷ [] })

-- GetPermission
unfoldable pub get_permission : Text → Store → Result Permission
get_permission id s =
    if is_empty id
    then err invalid_id
    else or_error (find (λ p. p.id == id) s.permissions) permission_not_found

-- GetPermissionByName
unfoldable pub get_permission_by_name : Text → Store → Result Permission
get_permission_by_name name s =
    if is_empty name
    then err (message "permission name cannot be empty")
    else or_error (find (λ p. p.name == name) s.permissions) permission_not_found

-- DeletePermission, with the rows of role_permissions that go with it
unfoldable pub delete_permission : Text → Exec (Unit {0})
delete_permission id = do
  fail_if (is_empty id) invalid_id
  modify (λ s. record s {
    permissions = keep (λ p. not (p.id == id)) s.permissions;
    role_permissions = keep (λ l. not (l.permission_id == id)) s.role_permissions;
  })

-- CreateRole: the id and the name are unique.
unfoldable pub create_role : Env → Role → Exec Role
create_role env r s =
    let new = record r {
      id = or_uuid env r.id;
      created_at = or_now env.now r.created_at;
      updated_at = or_now env.now r.updated_at;
    } in
    if any (λ q. q.id == new.id || q.name == new.name) s.roles
    then (err (failed "failed to create role" unique_failed), s)
    else (ok new, record s { roles = s.roles ++ new ∷ [] })

abbrev pub find_role : Text → Store → Option Role
find_role id s = find (λ r. r.id == id) s.roles

-- GetRole
unfoldable pub get_role : Text → Store → Result Role
get_role id s = if is_empty id then err invalid_id else or_error (find_role id s) role_not_found

-- GetRoleByName
unfoldable pub get_role_by_name : Text → Store → Result Role
get_role_by_name name s =
    if is_empty name
    then err (message "role name cannot be empty")
    else or_error (find (λ r. r.name == name) s.roles) role_not_found

-- UPDATE roles SET description = ?, updated_at = ? WHERE id = ?
abbrev pub update_row : Role → Time → Role → Role
update_row new now r =
    if r.id == new.id then record r { description = new.description; updated_at = now } else r

-- UpdateRole; RowsAffected counts the rows with the id.
unfoldable pub update_role : Env → Role → Exec (Unit {0})
update_role env new = do
  fail_if (is_empty new.id) invalid_id
  rows ← ask (λ s. count (λ r. r.id == new.id) s.roles)
  modify (λ s. record s { roles = map (update_row new env.now) s.roles })
  fail_if (nat_eq rows 0) role_not_found

-- DELETE FROM roles WHERE id = ?, with the rows that ON DELETE CASCADE takes along.
abbrev pub delete_role_rows : Text → Store → Store
delete_role_rows id s = record s {
  roles = keep (λ r. not (r.id == id)) s.roles;
  role_permissions = keep (λ l. not (l.role_id == id)) s.role_permissions;
  user_roles = keep (λ l. not (l.role_id == id)) s.user_roles;
}

-- DeleteRole
unfoldable pub delete_role : Text → Exec (Unit {0})
delete_role id = do
  fail_if (is_empty id) invalid_id
  role ← query (λ s. or_error (find_role id s) role_not_found)
  fail_if role.is_system (message "cannot delete system role")
  modify (delete_role_rows id)

abbrev pub links : Text → Text → RolePermission → Bool
links role permission l = l.role_id == role && l.permission_id == permission

-- INSERT INTO role_permissions: (role_id, permission_id) is the primary key, and both ids refer to
-- rows.
unfoldable pub insert_role_permission : Text → Text → Time → Exec (Unit {0})
insert_role_permission role permission now s =
    if any (links role permission) s.role_permissions
    then (err (failed "failed to add role permission" unique_failed), s)
    else if any (λ r. r.id == role) s.roles && any (λ p. p.id == permission) s.permissions
    then (
      ok tt,
      record s {
        role_permissions =
            s.role_permissions
            ++ record { role_id = role; permission_id = permission; created_at = now } ∷ [];
      },
    )
    else (err (failed "failed to add role permission" foreign_key_failed), s)

-- AddRolePermission
unfoldable pub add_role_permission : Env → Text → Text → Exec (Unit {0})
unfolding insert_role_permission
add_role_permission env role permission = do
  fail_if (is_empty role || is_empty permission) invalid_id
  insert_role_permission role permission env.now

-- RemoveRolePermission
unfoldable pub remove_role_permission : Text → Text → Exec (Unit {0})
remove_role_permission role permission = do
  fail_if (is_empty role || is_empty permission) invalid_id
  modify (λ s. record s {
    role_permissions = keep (λ l. not (links role permission l)) s.role_permissions;
  })

insert_all : Text → List Text → Time → Exec (Unit {0})
insert_all role [] now = return tt
insert_all role (p ∷ ps) now = insert_role_permission role p now >> insert_all role ps now

-- SetRolePermissions
unfoldable pub set_role_permissions : Env → Text → List Text → Exec (Unit {0})
unfolding insert_all
set_role_permissions env role permissions = do
  fail_if (is_empty role) invalid_id
  transaction (do
    modify (λ s. record s {
      role_permissions = keep (λ l. not (l.role_id == role)) s.role_permissions;
    })
    insert_all role permissions env.now)
