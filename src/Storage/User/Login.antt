-- ===== src/Storage/User/Login.antt =====
-- internal/storage/user_sqlite.go: the login of a user and the initial administrator.
use rackd.Prelude.{Bool, true, false, ◌||◌, none, some, [], map, ltb, if◌then◌else◌, length}
use rackd.Text.{Text, codes, ◌==◌, is_empty}
use rackd.Error.{Result, ok, err, invalid_id, message}
use rackd.Model.{Time, User}
use rackd.Store.{Env, Exec, ask, query, ◌>>=◌, ◌>>◌, fail_if, modify}
use rackd.Storage.User.{create_user, get_user_by_username}
use rackd.Storage.Rbac.{get_role_by_name}
use rackd.Storage.Rbac.Users.{assign_role_to_user}
use rackd.Service.User.{Bcrypt, hash_password}

-- UpdateUserLastLogin
unfoldable pub update_user_last_login : Text → Time → Exec (Unit {0})
update_user_last_login id last_login = do
  fail_if (is_empty id) invalid_id
  modify (λ s. record s {
    users =
        map {A = User} (λ u. if u.id == id then record u { last_login_at = some last_login } else u)
          s.users;
  })

-- UpdateUserPassword
unfoldable pub update_user_password : Env → Text → Text → Exec (Unit {0})
update_user_password env id hash = do
  fail_if (is_empty id) invalid_id
  modify (λ s. record s {
    users =
        map {A = User}
          (λ u. if u.id == id then record u { password_hash = hash; updated_at = env.now } else u)
          s.users;
  })

abbrev is_found : Result User → Bool
is_found (ok u) = true
is_found (err e) = false

-- CreateInitialAdmin: no transaction, so that the user stays if the role is not there.
unfoldable pub create_initial_admin : Bcrypt → Env → Text → Text → Text → Text → Exec User
create_initial_admin bcrypt env username email full_name password = do
  fail_if (is_empty username || is_empty password)
      (message "username and password are required for initial admin")
  fail_if (ltb (length password) 8) (message "initial admin password must be at least 8 characters")
  existing ← ask (get_user_by_username username)
  fail_if (is_found existing) (message "user already exists")
  hash ← query (λ _. hash_password bcrypt password)
  user ← create_user env (record {
    id = [];
    username = username;
    email = email;
    full_name = full_name;
    password_hash = hash;
    is_active = true;
    is_admin = true;
    created_at = 0;
    updated_at = 0;
    last_login_at = none;
  })
  role ← query (get_role_by_name (codes "admin"))
  assign_role_to_user env user.id role.id
  query (λ _. ok user)
