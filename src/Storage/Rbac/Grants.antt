-- ===== src/Storage/Rbac/Grants.antt =====
-- Who may do what after the changes of roles.
use rackd.Prelude.{
  ◌≡◌, refl, ap, ◌∙◌, Bool, false, not, ◌&&◌, List, [], ◌∷◌, arith, any, keep, Bool-cases, inl, inr,
}
use rackd.Text.{Text, ◌==◌, is_empty, eq_iff}
use rackd.Rows.{any-keep, any_congr}
use rackd.Error.{ok}
use rackd.Model.{Permission, UserRole}
use rackd.Store.{Store}
use rackd.Storage.Order.{any-sort_by}
use rackd.Storage.Rbac.{delete_role, delete_role_rows}
use rackd.Storage.Rbac.Users.{
  remove_role_from_user, has_link, has_role, granted, get_user_permissions, by_resource_action,
  allows, has_permission,
}

-- Where GetUserPermissions answers, HasPermission holds exactly if the list of GetUserPermissions
-- has a permission with that resource and action.
pub has_permission-listed :
    (user resource action : Text) (s : Store) (ps : List Permission)
    → get_user_permissions user s ≡ ok ps
    → has_permission user resource action s ≡ any (allows resource action) ps
unfolding get_user_permissions has_permission
has_permission-listed user resource action s ps e = elim (Bool-cases (is_empty user)) [
  | inl empty ↦ ground arith
  | inr given ↦
      let listed =
        any-sort_by by_resource_action (allows resource action)
          (keep (λ p. granted user s p.id) s.permissions) in
      let kept = any-keep (allows resource action) (λ p. granted user s p.id) s.permissions in
      ground arith
]

has_link-removed :
    (user role other : Text) (rows : List UserRole)
    → any (has_link user other) (keep (λ l. not (has_link user role l)) rows)
      ≡ not (other == role) && any (has_link user other) rows
has_link-removed user role other [] = ground arith
has_link-removed user role other (l ∷ rows) = ground (
  arith,
  has_link-removed user role other rows,
  eq_iff l.role_id other,
  eq_iff l.role_id role,
  eq_iff other role,
  eq_iff l.user_id user,
)

-- The permission reaches the user through a role other than this one.
abbrev pub granted_otherwise : Text → Text → Store → Text → Bool
granted_otherwise user role s permission =
    any
      (λ l. l.permission_id == permission && (not (l.role_id == role) && has_role user s l.role_id))
      s.role_permissions

without_link : Text → Text → Store → Store
without_link user role s = record s {
  user_roles = keep (λ l. not (has_link user role l)) s.user_roles;
}

remove_role_from_user-eq :
    (user role : Text) (s : Store)
    → is_empty user ≡ false
    → is_empty role ≡ false
    → (remove_role_from_user user role s).1 ≡ without_link user role s
unfolding remove_role_from_user without_link
remove_role_from_user-eq user role s e f = rw (e, f, remove_role_from_user)

granted-without_link :
    (user role : Text) (s : Store) (permission : Text)
    → granted user (without_link user role s) permission ≡ granted_otherwise user role s permission
unfolding granted without_link
granted-without_link user role s permission = any_congr _ _ s.role_permissions λ l.
    ap (λ b. l.permission_id == permission && b) (has_link-removed user role l.role_id s.user_roles)

-- HasPermission is false for an empty user id, and reads the grants otherwise.
has_permission-eq :
    (user resource action : Text) (s : Store)
    → is_empty user ≡ false
    → has_permission user resource action s
      ≡ any (λ p. allows resource action p && granted user s p.id) s.permissions
unfolding has_permission
has_permission-eq user resource action s e = rw (e, has_permission)

permissions-without_link :
    (user role : Text) (s : Store) → (without_link user role s).permissions ≡ s.permissions
unfolding without_link
permissions-without_link user role s = refl

-- After RemoveRoleFromUser, with ids that are not empty, the user has exactly the permissions that
-- another of the user's roles grants.
pub has_permission-removed :
    (user role resource action : Text) (s : Store)
    → is_empty user ≡ false
    → is_empty role ≡ false
    → has_permission user resource action (remove_role_from_user user role s).1
      ≡ any (λ p. allows resource action p && granted_otherwise user role s p.id) s.permissions
has_permission-removed user role resource action s e f =
    ap (has_permission user resource action) (remove_role_from_user-eq user role s e f)
    ∙ has_permission-eq user resource action (without_link user role s) e
    ∙ ap (any _) (permissions-without_link user role s)
    ∙ any_congr _ _ s.permissions
        λ p. ap (λ b. allows resource action p && b) (granted-without_link user role s p.id)

pub has_link-deleted :
    (user role other : Text) (rows : List UserRole)
    → any (has_link user other) (keep (λ l. not (l.role_id == role)) rows)
      ≡ not (other == role) && any (has_link user other) rows
has_link-deleted user role other [] = ground arith
has_link-deleted user role other (l ∷ rows) = ground (
  arith,
  has_link-deleted user role other rows,
  eq_iff l.role_id other,
  eq_iff l.role_id role,
  eq_iff other role,
)

granted-deleted :
    (user role : Text) (s : Store) (permission : Text)
    → granted user (delete_role_rows role s) permission ≡ granted_otherwise user role s permission
unfolding granted
granted-deleted user role s permission =
    any-keep _ (λ l. not (l.role_id == role)) s.role_permissions
    ∙ any_congr
        (λ l.
          l.permission_id == permission
          && has_role user (delete_role_rows role s) l.role_id
          && not (l.role_id == role))
        _ s.role_permissions λ l. ground (arith, has_link-deleted user role l.role_id s.user_roles)

delete_role-eq :
    (role : Text) (s : Store)
    → (delete_role role s).0 ≡ ok tt
    → (delete_role role s).1 ≡ delete_role_rows role s
unfolding delete_role
delete_role-eq role s h = ground arith

-- After a successful DeleteRole every user, with an id that is not empty, has exactly the
-- permissions that another of the user's roles grants.
pub has_permission-delete_role :
    (user role resource action : Text) (s : Store)
    → is_empty user ≡ false
    → (delete_role role s).0 ≡ ok tt
    → has_permission user resource action (delete_role role s).1
      ≡ any (λ p. allows resource action p && granted_otherwise user role s p.id) s.permissions
has_permission-delete_role user role resource action s e h =
    ap (has_permission user resource action) (delete_role-eq role s h)
    ∙ has_permission-eq user resource action (delete_role_rows role s) e
    ∙ any_congr _ _ s.permissions
        λ p. ap (λ b. allows resource action p && b) (granted-deleted user role s p.id)
