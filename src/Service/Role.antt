-- ===== src/Service/Role.antt =====
-- internal/service/role.go: the guards in front of the storage of roles.
pub mod Change
pub mod Privilege
pub mod History
use rackd.Prelude.{
  Bool, true, false, not, ◌&&◌, ◌||◌, Option, none, some, List, [], ◌∷◌, if◌then◌else◌,
}
use rackd.Text.{Text, codes, ◌==◌, is_empty}
use rackd.Error.{
  Error, Result, ok, err, role_not_found, not_found, system_role, forbidden, invalid, map_error,
}
use rackd.Model.{Permission, Role}
use rackd.Store.{Store, Env, Exec, return, raise, query, ask, ◌>>=◌, ◌>>◌, fail_if}
use rackd.Storage.Rbac.{
  create_role, get_role, update_role, delete_role, add_role_permission, remove_role_permission,
}
use rackd.Storage.Rbac.Users.{assign_role_to_user, remove_role_from_user, get_role_permissions}
use rackd.Service.Access.{require_permission, enrich_audit, is_admin}

-- ErrNotFound for the storage's ErrRoleNotFound
abbrev pub as_not_found : Error → Error
as_not_found role_not_found = not_found
as_not_found e = e

abbrev permit : Env → Text → Exec (Unit {0})
permit env action = require_permission env (codes "roles") action

-- The role as Create completes it, with a new id.
abbrev pub new_role : Env → Role → Role
new_role env role = record role { id = env.uuid; created_at = env.now; updated_at = env.now }

-- Create
unfoldable pub create : Env → Role → Exec Role
create env role = do
  permit env (codes "create")
  fail_if (is_empty role.name) (invalid "name" "Name is required")
  fail_if role.is_system system_role
  create_role (enrich_audit env) (new_role env role)

-- Get
unfoldable pub get : Env → Text → Exec Role
get env id = do permit env (codes "read"); query (λ s. map_error as_not_found (get_role id s))

abbrev same : Bool → Bool → Bool
same true b = b
same false b = not b

-- Update: a system role stays one.
unfoldable pub update : Env → Text → Role → Exec (Unit {0})
update env id role = do
  permit env (codes "update")
  old ← query (λ s. map_error as_not_found (get_role id s))
  fail_if (old.is_system && not (same role.is_system old.is_system)) system_role
  update_role env (record role { id = id; updated_at = env.now })

-- Delete
unfoldable pub delete : Env → Text → Exec (Unit {0})
delete env id = do
  permit env (codes "delete")
  role ← query (λ s. map_error as_not_found (get_role id s))
  fail_if role.is_system system_role
  delete_role id

-- GetPermissions
unfoldable pub get_permissions : Env → Text → Exec (List Permission)
get_permissions env id = do permit env (codes "read"); query (get_role_permissions id)

-- GrantPermission
unfoldable pub grant_permission : Env → Text → Text → Exec (Unit {0})
grant_permission env role_id permission_id = do
  permit env (codes "update")
  role ← query (get_role role_id)
  fail_if role.is_system system_role
  add_role_permission env role_id permission_id

-- RevokePermission
unfoldable pub revoke_permission : Env → Text → Text → Exec (Unit {0})
revoke_permission env role_id permission_id = do
  permit env (codes "update")
  role ← query (get_role role_id)
  fail_if role.is_system system_role
  remove_role_permission role_id permission_id

-- The role is "admin" or a system role.
abbrev pub is_privileged : Role → Bool
is_privileged role = role.name == codes "admin" || role.is_system

-- AssignToUser: only administrators hand out a privileged role.
unfoldable pub assign_to_user : Env → Text → Text → Exec (Unit {0})
assign_to_user env user_id role_id = do
  permit env (codes "update")
  role ← query (get_role role_id)
  admin ← ask (is_admin env)
  fail_if (is_privileged role && not admin) forbidden
  assign_role_to_user env user_id role_id

-- RevokeFromUser
unfoldable pub revoke_from_user : Env → Text → Text → Exec (Unit {0})
revoke_from_user env user_id role_id = do
  permit env (codes "update")
  role ← query (get_role role_id)
  admin ← ask (is_admin env)
  fail_if (is_privileged role && not admin) forbidden
  remove_role_from_user user_id role_id
