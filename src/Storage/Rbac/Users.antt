-- ===== src/Storage/Rbac/Users.antt =====
-- internal/storage/rbac_sqlite.go: the roles and permissions of a user.
use rackd.Prelude.{Bool, false, not, ◌&&◌, ◌||◌, List, [], ◌∷◌, ◌++◌, if◌then◌else◌, any, keep}
use rackd.Text.{Text, ◌==◌, is_empty}
use rackd.Error.{Result, ok, err, foreign_key_failed, invalid_id, failed}
use rackd.Model.{Permission, Role, UserRole}
use rackd.Store.{Store, Env, Exec, ◌>>◌, fail_if, modify}
use rackd.Storage.Order.{text_leb, sort_by}

abbrev pub has_link : Text → Text → UserRole → Bool
has_link user role l = l.user_id == user && l.role_id == role

-- INSERT OR IGNORE INTO user_roles: a link that is there stays; both ids refer to rows.
unfoldable pub assign_role_to_user : Env → Text → Text → Exec (Unit {0})
assign_role_to_user env user role s =
    if is_empty user || is_empty role
    then (err invalid_id, s)
    else if any (has_link user role) s.user_roles
    then (ok tt, s)
    else if any (λ u. u.id == user) s.users && any (λ r. r.id == role) s.roles
    then (
      ok tt,
      record s {
        user_roles =
            s.user_roles ++ record { user_id = user; role_id = role; created_at = env.now } ∷ [];
      },
    )
    else (err (failed "failed to assign role to user" foreign_key_failed), s)

-- RemoveRoleFromUser
unfoldable pub remove_role_from_user : Text → Text → Exec (Unit {0})
remove_role_from_user user role = do
  fail_if (is_empty user || is_empty role) invalid_id
  modify (λ s. record s { user_roles = keep (λ l. not (has_link user role l)) s.user_roles })

-- The join of user_roles with roles, for one role.
abbrev pub has_role : Text → Store → Text → Bool
has_role user s role = any (has_link user role) s.user_roles

-- GetUserRoles
unfoldable pub get_user_roles : Text → Store → Result (List Role)
get_user_roles user s =
    if is_empty user
    then err invalid_id
    else ok (sort_by (λ a b. text_leb a.name b.name) (keep (λ r. has_role user s r.id) s.roles))

-- The join of role_permissions with user_roles, for one permission: some role of the user has it.
unfoldable pub granted : Text → Store → Text → Bool
granted user s permission =
    any (λ l. l.permission_id == permission && has_role user s l.role_id) s.role_permissions

abbrev pub by_resource_action : Permission → Permission → Bool
by_resource_action a b =
    if a.resource == b.resource then text_leb a.action b.action else text_leb a.resource b.resource

-- GetUserPermissions: DISTINCT leaves each permission once.
unfoldable pub get_user_permissions : Text → Store → Result (List Permission)
get_user_permissions user s =
    if is_empty user
    then err invalid_id
    else ok (sort_by by_resource_action (keep (λ p. granted user s p.id) s.permissions))

-- GetRolePermissions
unfoldable pub get_role_permissions : Text → Store → Result (List Permission)
get_role_permissions role s =
    if is_empty role
    then err invalid_id
    else ok (
        sort_by by_resource_action (
          keep (λ p. any (λ l. l.permission_id == p.id && l.role_id == role) s.role_permissions)
            s.permissions))

abbrev pub allows : Text → Text → Permission → Bool
allows resource action p = p.resource == resource && p.action == action

-- HasPermission: the joined rows that its COUNT(*) counts exist.
unfoldable pub has_permission : Text → Text → Text → Store → Bool
has_permission user resource action s =
    if is_empty user
    then false
    else any (λ p. allows resource action p && granted user s p.id) s.permissions
