-- ===== src/Service/User/Accounts.antt =====
-- What the guards of the user service let through.
use rackd.Prelude.{
  ◌≡◌, ◌⊎◌, sym, subst, true, false, not, ◌&&◌, ◌||◌, some, arith, nat_eq, any, find, count,
  Bool-cases, Option-cases, inl, inr,
}
use rackd.Text.{Text, codes, ◌==◌, is_empty, eq_iff}
use rackd.Rows.{find-any, any_of_count}
use rackd.Error.{ok}
use rackd.Model.{User}
use rackd.Store.{Store, Env}
use rackd.Storage.User.{get_user, update_user, create_user}
use rackd.Service.Access.{require_permission, is_admin}
use rackd.Service.User.{
  Bcrypt, hash_password, verify_password, is_short, is_self, reset_password, change_password,
  create, update, CreateUserRequest, UpdateUserRequest,
}

-- A caller who is no administrator creates no user with the administrator flag.
pub create_flag :
    (bcrypt : Bcrypt) (env : Env) (req : CreateUserRequest) (s : Store) (u : User)
    → is_admin env s ≡ false
    → (create bcrypt env req s).0 ≡ ok u
    → u.is_admin ≡ false
unfolding create require_permission create_user
create_flag bcrypt env req s u plain h = ground arith

-- An update of a user by a caller who is no administrator leaves the administrator flag as it was,
-- and is of the caller or of a user without the flag.
pub update_flag :
    (env : Env) (id : Text) (req : UpdateUserRequest) (s : Store) (old u : User)
    → is_admin env s ≡ false
    → get_user id s ≡ ok old
    → (update env id req s).0 ≡ ok u
    → (u.is_admin ≡ old.is_admin) × ((is_self env.ctx.caller id ≡ true) ⊎ (old.is_admin ≡ false))
unfolding update require_permission
update_flag env id req s old u plain found h = ground arith

-- ChangePassword succeeds only with the current password, and only for the user or a caller with the
-- permission users:update.
pub change_password_verified :
    (bcrypt : Bcrypt) (env : Env) (id old_password new_password : Text) (s : Store) (u : User)
    → get_user id s ≡ ok u
    → (change_password bcrypt env id old_password new_password s).0 ≡ ok tt
    → (verify_password bcrypt u.password_hash old_password ≡ true)
      × ((is_self env.ctx.caller id ≡ true)
          ⊎ ((require_permission env (codes "users") (codes "update") s).0 ≡ ok tt))
unfolding change_password require_permission
change_password_verified bcrypt env id old_password new_password s u found h = ground arith

get_user-found :
    (id : Text) (s : Store) (u : User)
    → get_user id s ≡ ok u
    → find (λ v. v.id == id) s.users ≡ some u
unfolding get_user
get_user-found id s u e = elim (Option-cases (find (λ v. v.id == id) s.users)) [
  | inl f ↦ absurd (ground arith)
  | inr (v, f) ↦ ground arith
]

get_user-id : (id : Text) (s : Store) (u : User) → get_user id s ≡ ok u → is_empty id ≡ false
unfolding get_user
get_user-id id s u e = ground arith

counted :
    (id : Text) (s : Store) (u : User)
    → get_user id s ≡ ok u
    → nat_eq (count (λ v. v.id == id) s.users) 0 ≡ false
counted id s u e = elim (Bool-cases (nat_eq (count (λ v. v.id == id) s.users) 0)) [
  | inl z ↦
      let found = (find-any (λ v. v.id == id) s.users u (get_user-found id s u e)).0 in
      let no_one = any_of_count (λ v. v.id == id) s.users (ground arith) in absurd (ground arith)
  | inr n ↦ n
]

-- Whatever the user's roles, ResetPassword by a caller with users:update succeeds for a user without
-- the administrator flag, if the new password is long enough and is hashed, and nobody else has the
-- user's name or email.
pub reset_password_by_flag :
    (bcrypt : Bcrypt) (env : Env) (id password hash : Text) (s : Store) (u : User)
    → (require_permission env (codes "users") (codes "update") s).0 ≡ ok tt
    → is_short password ≡ false
    → get_user id s ≡ ok u
    → u.is_admin ≡ false
    → hash_password bcrypt password ≡ ok hash
    → any (λ v. not (v.id == u.id) && (v.username == u.username || v.email == u.email)) s.users
      ≡ false
    → (reset_password bcrypt env id password s).0 ≡ ok tt
unfolding reset_password require_permission update_user
reset_password_by_flag bcrypt env id password hash s u may long found flag hashed alone =
    let same : u.id ≡ id =
      (eq_iff u.id id).0 (find-any (λ v. v.id == id) s.users u (get_user-found id s u found)).1 in
    let given : is_empty u.id ≡ false =
      subst (λ t. is_empty t ≡ false) (sym same) (get_user-id id s u found) in
    let rows : nat_eq (count (λ v. v.id == u.id) s.users) 0 ≡ false =
      subst (λ t. nat_eq (count (λ v. v.id == t) s.users) 0 ≡ false) (sym same)
        (counted id s u found) in
    ground arith
