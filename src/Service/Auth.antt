-- ===== src/Service/Auth.antt =====
-- internal/service/auth.go: login and logout, with the store and the sessions as state.
pub mod Laws
use rackd.Prelude.{ℕ, Bool, not, Option, none, some, List, [], if◌then◌else◌}
use rackd.Text.{Text, codes, is_empty}
use rackd.Error.{
  Error, Result, ok, err, unauthenticated, user_not_found, not_found, message, map_error,
}
use rackd.Model.{User, Role, Permission, Caller}
use rackd.Store.{Store, Env}
use rackd.Storage.User.{get_user, get_user_by_username}
use rackd.Storage.User.Login.{update_user_last_login}
use rackd.Storage.Rbac.Users.{has_permission, get_user_roles, get_user_permissions}
use rackd.Service.User.{Bcrypt, verify_password}
use rackd.Auth.Sessions.{
  Session, Sessions, Outcome, done, fails, SessionError, create_session, invalidate_session,
}

-- The store and the sessions
abbrev pub System : Type 0
System = Store × Sessions

-- The roles of a user, none where the lookup fails
abbrev roles_or_none : Result (List Role) → List Role
roles_or_none (ok roles) = roles
roles_or_none (err e) = []

pub record LoginResult : Type 0 where
  pub user : User
  pub roles : List Role
  pub session : Session

-- The end of Login, after CreateSession: its error is passed on, that of UpdateUserLastLogin is logged.
abbrev finish : Env → User → Outcome Session × Sessions → Store → Result LoginResult × System
finish env user (fails e, sessions) s = (err (message "no session"), (s, sessions))
finish env user (done session, sessions) s =
    let t = (update_user_last_login user.id env.now s).1 in
    (
      ok (record {
        user = user;
        roles = roles_or_none (get_user_roles user.id t);
        session = session;
      }),
      (t, sessions),
    )

-- Login, with the token that the random source gives
unfoldable pub login :
    Bcrypt → Env → ℕ → Option Text → Text → Text → System → Result LoginResult × System
login bcrypt env ttl token username password (s, sessions) =
    elim (get_user_by_username username s) [
      | err e ↦ (err unauthenticated, (s, sessions))
      | ok user ↦
          if not user.is_active
          then (err unauthenticated, (s, sessions))
          else if not (verify_password bcrypt user.password_hash password)
          then (err unauthenticated, (s, sessions))
          else finish env user
              (create_session env.now ttl token user.id user.username
                (has_permission user.id (codes "users") (codes "create") s) sessions)
              s
    ]

-- Logout
abbrev pub logout : Text → Sessions → Outcome (Unit {0}) × Sessions
logout token sessions = invalidate_session token sessions

abbrev as_not_found : Error → Error
as_not_found user_not_found = not_found
as_not_found e = e

abbrev permissions_or_none : Result (List Permission) → List Permission
permissions_or_none (ok permissions) = permissions
permissions_or_none (err e) = []

-- The user, with roles and permissions
abbrev pub CurrentUser : Type 0
CurrentUser = User × List Role × List Permission

-- GetCurrentUserWithPermissionsByID
unfoldable pub get_current_user_by_id : Text → Store → Result CurrentUser
get_current_user_by_id id s = elim (get_user id s) [
  | err e ↦ err (as_not_found e)
  | ok user ↦
      ok
        (user, roles_or_none (get_user_roles id s), permissions_or_none (get_user_permissions id s))
]

abbrev of_caller : Option Caller → Store → Result CurrentUser
of_caller none s = err unauthenticated
of_caller (some c) s =
    if is_empty c.user_id then err unauthenticated else get_current_user_by_id c.user_id s

-- GetCurrentUserWithPermissions; GetCurrentUser leaves the permissions out.
unfoldable pub get_current_user : Env → Store → Result CurrentUser
get_current_user env s = of_caller env.ctx.caller s
