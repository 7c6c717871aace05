-- ===== src/Storage/User.antt =====
-- internal/storage/user_sqlite.go: the rows of users.
pub mod Listing
pub mod Login
use rackd.Prelude.{
  Bool, not, ◌&&◌, ◌||◌, [], ◌∷◌, ◌++◌, map, nat_eq, if◌then◌else◌, any, keep, find, count,
}
use rackd.Text.{Text, ◌==◌, is_empty}
use rackd.Error.{
  Result, ok, err, unique_failed, foreign_key_failed, invalid_id, user_not_found, message, failed,
  or_error,
}
use rackd.Model.{Time, User}
use rackd.Store.{Store, Env, Exec, ask, ◌>>=◌, ◌>>◌, fail_if, modify, or_uuid}
use rackd.Storage.Rbac.{or_now}

-- CreateUser: the id, the username and the email are unique.
unfoldable pub create_user : Env → User → Exec User
create_user env u s =
    let new : User = record u {
      id = or_uuid env u.id;
      created_at = or_now env.now u.created_at;
      updated_at = or_now env.now u.updated_at;
    } in
    if any (λ v. v.id == new.id || v.username == new.username || v.email == new.email) s.users
    then (err (failed "failed to create user" unique_failed), s)
    else (ok new, record s { users = s.users ++ new ∷ [] })

-- GetUser
unfoldable pub get_user : Text → Store → Result User
get_user id s =
    if is_empty id then err invalid_id else or_error (find (λ u. u.id == id) s.users) user_not_found

-- GetUserByUsername
unfoldable pub get_user_by_username : Text → Store → Result User
get_user_by_username name s =
    if is_empty name
    then err (message "username cannot be empty")
    else or_error (find (λ u. u.username == name) s.users) user_not_found

-- UPDATE users SET … WHERE id = ?
abbrev pub update_user_row : User → Time → User → User
update_user_row new now u =
    if u.id == new.id
    then record u {
      username = new.username;
      email = new.email;
      full_name = new.full_name;
      password_hash = new.password_hash;
      is_active = new.is_active;
      is_admin = new.is_admin;
      updated_at = now;
    }
    else u

-- UpdateUser: another user with the username or the email breaks a unique index; RowsAffected counts the rows
-- with the id.
unfoldable pub update_user : Env → User → Exec (Unit {0})
update_user env new = do
  fail_if (is_empty new.id) invalid_id
  rows ← ask (λ s. count (λ u. u.id == new.id) s.users)
  taken ← ask (λ s.
      any (λ u. not (u.id == new.id) && (u.username == new.username || u.email == new.email))
        s.users)
  fail_if (not (nat_eq rows 0) && taken) (failed "failed to update user" unique_failed)
  modify (λ s. record s { users = map (update_user_row new env.now) s.users })
  fail_if (nat_eq rows 0) user_not_found

-- DELETE FROM users WHERE id = ?, with the rows that ON DELETE CASCADE takes along.
abbrev pub delete_user_rows : Text → Store → Store
delete_user_rows id s = record s {
  users = keep (λ u. not (u.id == id)) s.users;
  user_roles = keep (λ l. not (l.user_id == id)) s.user_roles;
  oauth_codes = keep (λ c. not (c.user_id == id)) s.oauth_codes;
  oauth_tokens = keep (λ t. not (t.user_id == id)) s.oauth_tokens;
}

-- A client or an API key that refers to the user.
abbrev pub is_owner : Text → Store → Bool
is_owner id s =
    any (λ c. c.created_by_user_id == id) s.oauth_clients || any (λ k. k.user_id == id) s.api_keys

-- DeleteUser: a client or an API key of the user keeps the row.
unfoldable pub delete_user : Text → Exec (Unit {0})
delete_user id = do
  fail_if (is_empty id) invalid_id
  exists ← ask (λ s. any (λ u. u.id == id) s.users)
  fail_if (not exists) user_not_found
  owner ← ask (is_owner id)
  fail_if owner (failed "failed to delete user" foreign_key_failed)
  modify (delete_user_rows id)
