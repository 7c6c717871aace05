-- ===== src/Service/User.antt =====
-- internal/service/user.go: accounts, with bcrypt (internal/auth/password.go calls it) as a parameter.
pub mod Accounts
use Prim.Native.String.{String}
use rackd.Prelude.{
  ℕ, Bool, true, false, not, ◌&&◌, ◌||◌, Option, none, some, List, [], ◌∷◌, ◌++◌, ltb,
  if◌then◌else◌, length,
}
use rackd.Text.{Text, codes, ◌==◌, is_empty}
use rackd.Error.{
  Error, Result, ok, err, ValidationError, validation, user_not_found, not_found, already_exists,
  forbidden, self_delete, message, invalid, map_error,
}
use rackd.Model.{User, Caller, Role}
use rackd.Store.{Store, Env, Exec, return, raise, query, ask, ◌>>=◌, ◌>>◌, fail_if}
use rackd.Storage.User.{create_user, get_user, get_user_by_username, update_user, delete_user}
use rackd.Storage.Rbac.{get_role}
use rackd.Storage.Rbac.Users.{assign_role_to_user, get_user_roles}
use rackd.Service.Access.{require_permission, enrich_audit, is_admin}
use rackd.Auth.Sessions.{Sessions, invalidate_user_sessions}

-- golang.org/x/crypto/bcrypt
pub record Bcrypt : Type 0 where
  pub generate_from_password : Text → Result Text
  pub compare_hash_and_password : Text → Text → Bool

-- HashPassword
unfoldable pub hash_password : Bcrypt → Text → Result Text
hash_password bcrypt password =
    if is_empty password
    then err (message "password cannot be empty")
    else bcrypt.generate_from_password password

-- VerifyPassword, whose errors ChangePassword does not tell apart
unfoldable pub verify_password : Bcrypt → Text → Text → Bool
verify_password bcrypt hash password =
    if is_empty password || is_empty hash
    then false
    else bcrypt.compare_hash_and_password hash password

-- len(password) < 8
abbrev is_short : Text → Bool
is_short password = ltb (length password) 8

abbrev as_not_found : Error → Error
as_not_found user_not_found = not_found
as_not_found e = e

abbrev permit : Env → Text → Exec (Unit {0})
permit env action = require_permission env (codes "users") action

-- The caller is the user with this id.
abbrev pub is_self : Option Caller → Text → Bool
is_self none id = false
is_self (some c) id = c.user_id == id

abbrev permit_unless : Bool → Env → Text → Exec (Unit {0})
permit_unless true env action = return tt
permit_unless false env action = permit env action

-- model.CreateUserRequest
pub record CreateUserRequest : Type 0 where
  pub username : Text
  pub password : Text
  pub email : Text
  pub full_name : Text
  pub is_admin : Bool
  pub role_id : Text

one_error : Bool → String → String → List ValidationError
one_error true f m = record { field = f; message = m } ∷ []
one_error false f m = []

-- The errors of the fields of a request, all of them.
unfoldable pub field_errors : CreateUserRequest → List ValidationError
unfolding one_error
field_errors req =
    one_error (is_empty req.username) "username" "Username is required"
    ++ one_error (is_short req.password) "password" "Password must be at least 8 characters"
    ++ one_error (is_empty req.email) "email" "Email is required"

abbrev has_errors : List ValidationError → Bool
has_errors [] = false
has_errors (e ∷ es) = true

abbrev is_found {ℓ} : {A : Type ℓ} → Result A → Bool
is_found (ok a) = true
is_found (err e) = false

-- The role is there and is named "admin".
abbrev pub is_admin_role : Result Role → Bool
is_admin_role (ok role) = role.name == codes "admin"
is_admin_role (err e) = false

-- `_ = s.store.AssignRoleToUser`: the error is dropped.
abbrev assign_if_given : Env → Text → Text → Exec (Unit {0})
assign_if_given env id role s =
    if is_empty role then (ok tt, s) else (ok tt, (assign_role_to_user env id role s).1)

-- Create, without the view of the user that it returns
unfoldable pub create : Bcrypt → Env → CreateUserRequest → Exec User
create bcrypt env req = do
  permit env (codes "create")
  admin ← ask (is_admin env)
  fail_if (req.is_admin && not admin) forbidden
  fail_if (has_errors (field_errors req)) (validation (field_errors req))
  existing ← ask (get_user_by_username req.username)
  fail_if (is_found existing) already_exists
  hash ← query (λ _. hash_password bcrypt req.password)
  role ← ask (get_role req.role_id)
  fail_if (not (is_empty req.role_id) && not admin && is_admin_role role) forbidden
  user ← create_user (enrich_audit env) (record {
    id = env.uuid;
    username = req.username;
    email = req.email;
    full_name = req.full_name;
    password_hash = hash;
    is_active = true;
    is_admin = req.is_admin;
    created_at = env.now;
    updated_at = env.now;
    last_login_at = none;
  })
  assign_if_given env user.id req.role_id
  return user

-- model.UpdateUserRequest
pub record UpdateUserRequest : Type 0 where
  pub username : Text
  pub email : Text
  pub full_name : Text
  pub is_active : Option Bool
  pub is_admin : Option Bool

abbrev or_old : Text → Text → Text
or_old [] old = old
or_old (c ∷ s) old = c ∷ s

-- A privileged field: the caller's own stays.
abbrev or_old_bool : Bool → Option Bool → Bool → Bool
or_old_bool true new old = old
or_old_bool false none old = old
or_old_bool false (some b) old = b

abbrev is_given : Option Bool → Bool
is_given none = false
is_given (some b) = true

-- Another user has the name.
abbrev is_other : Text → Result User → Bool
is_other id (ok u) = not (u.id == id)
is_other id (err e) = false

-- Update, without the view of the user that it returns
unfoldable pub update : Env → Text → UpdateUserRequest → Exec User
update env id req = do
  let self = is_self env.ctx.caller id
  permit_unless self env (codes "update")
  user ← query (λ s. map_error as_not_found (get_user id s))
  admin ← ask (is_admin env)
  fail_if (user.is_admin && not self && not admin) forbidden
  existing ← ask (get_user_by_username req.username)
  fail_if
      (not (is_empty req.username) && not (req.username == user.username) && is_other id existing)
      (invalid "username" "Username already exists")
  fail_if (is_given req.is_admin && not self && not admin) forbidden
  let new = record user {
    username = or_old req.username user.username;
    email = or_old req.email user.email;
    full_name = or_old req.full_name user.full_name;
    is_active = or_old_bool self req.is_active user.is_active;
    is_admin = or_old_bool self req.is_admin user.is_admin;
    updated_at = env.now;
  }
  update_user (enrich_audit env) new
  return new

-- ResetPassword of an administrator is for administrators.
unfoldable pub reset_password : Bcrypt → Env → Text → Text → Exec (Unit {0})
reset_password bcrypt env id new_password = do
  permit env (codes "update")
  fail_if (is_short new_password)
      (invalid "new_password" "New password must be at least 8 characters")
  user ← query (λ s. map_error as_not_found (get_user id s))
  admin ← ask (is_admin env)
  fail_if (user.is_admin && not admin) forbidden
  hash ← query (λ _. hash_password bcrypt new_password)
  update_user (enrich_audit env) (record user { password_hash = hash; updated_at = env.now })

-- ChangePassword
unfoldable pub change_password : Bcrypt → Env → Text → Text → Text → Exec (Unit {0})
change_password bcrypt env id old_password new_password = do
  permit_unless (is_self env.ctx.caller id) env (codes "update")
  fail_if (is_empty old_password) (invalid "old_password" "Old password is required")
  fail_if (is_short new_password)
      (invalid "new_password" "New password must be at least 8 characters")
  user ← query (λ s. map_error as_not_found (get_user id s))
  fail_if (not (verify_password bcrypt user.password_hash old_password))
      (invalid "old_password" "Current password is incorrect")
  hash ← query (λ _. hash_password bcrypt new_password)
  update_user (enrich_audit env) (record user { password_hash = hash; updated_at = env.now })

-- Delete, which says whether there was a user: one that is not there is no error.
abbrev delete_found : Env → Text → Result User → Exec Bool
delete_found env id (err user_not_found) = return false
delete_found env id (err e) = raise e
delete_found env id (ok user) = do
  admin ← ask (is_admin env)
  fail_if (user.is_admin && not admin) forbidden
  fail_if (is_self env.ctx.caller id) self_delete
  delete_user id
  return true

unfoldable pub delete : Env → Text → Exec Bool
delete env id = do permit env (codes "delete"); found ← ask (get_user id); delete_found env id found

-- What ChangePassword and ResetPassword do to the user's sessions when they have succeeded.
unfoldable pub end_sessions : Text → Result (Unit {0}) → Sessions → Sessions
end_sessions id (ok t) sessions = invalidate_user_sessions id sessions
end_sessions id (err e) sessions = sessions
