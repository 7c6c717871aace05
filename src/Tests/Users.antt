-- ===== src/Tests/Users.antt =====
-- Accounts in a small store, with a reversible stand-in for bcrypt.
use rackd.Prelude.{◌≡◌, ◌⊎◌, refl, true, false, not, ◌&&◌, ◌||◌, none, some, [], ◌∷◌, any}
use rackd.Text.{codes, ◌==◌}
use rackd.Error.{ok}
use rackd.Model.{User, Role}
use rackd.Store.{Store, Env}
use rackd.Storage.Order.{sort_by, text_leb}
use rackd.Storage.User.{create_user, get_user, get_user_by_username, update_user}
use rackd.Storage.Rbac.{get_role}
use rackd.Storage.Rbac.Users.{has_permission, granted, get_user_roles, assign_role_to_user}
use rackd.Service.Access.{
  is_system, in_scope, is_admin, has_admin_role, require_permission, enrich_audit,
}
use rackd.Service.User.{
  Bcrypt, hash_password, verify_password, field_errors, create, update, reset_password,
  change_password, CreateUserRequest, UpdateUserRequest, is_self,
}
use rackd.Service.User.Accounts.{change_password_verified}
use rackd.Tests.Fixtures.{store, env}
use rackd.Tests.Grants.{viewer, ann, ann_caller, read_pools}

abbrev pub admin : Role
admin = record viewer { id = codes "r-admin"; name = codes "admin"; is_system = true }

-- A system role that is not named "admin".
abbrev operator : Role
operator = record viewer { id = codes "r-op"; name = codes "operator"; is_system = true }

-- Zoe holds the role "admin", and her flag is not set.
abbrev pub zoe : User
zoe = record ann {
  id = codes "zoe";
  username = codes "zoe";
  email = codes "z@x";
  password_hash = codes "old-secret";
}

-- Ann is a viewer, and viewers create and update users.
abbrev pub team : Store
team = record store {
  permissions =
      record read_pools {
        id = codes "p-cu";
        name = codes "users:create";
        resource = codes "users";
        action = codes "create";
      }
      ∷ record read_pools {
        id = codes "p-uu";
        name = codes "users:update";
        resource = codes "users";
        action = codes "update";
      }
      ∷ [];
  roles = viewer ∷ admin ∷ operator ∷ [];
  users = ann ∷ zoe ∷ [];
  role_permissions =
      record { role_id = codes "r-viewer"; permission_id = codes "p-cu"; created_at = 1 }
      ∷ record { role_id = codes "r-viewer"; permission_id = codes "p-uu"; created_at = 1 }
      ∷ [];
  user_roles =
      record { user_id = codes "ann"; role_id = codes "r-viewer"; created_at = 1 }
      ∷ record { user_id = codes "zoe"; role_id = codes "r-admin"; created_at = 1 }
      ∷ [];
}

abbrev ann_env : Env
ann_env = record env {
  ctx = record { caller = some (record ann_caller { scopes = none }); audit = none };
}

abbrev zoe_env : Env
zoe_env = record env {
  ctx = record {
    caller = some (record ann_caller { user_id = codes "zoe"; scopes = none });
    audit = none;
  };
}

abbrev pub plain : Bcrypt
plain = record { generate_from_password = λ p. ok p; compare_hash_and_password = λ h p. h == p }

runs : Unit {0}
unfolding ◌==◌ sort_by text_leb create_user get_user get_user_by_username update_user get_role
    has_permission granted get_user_roles assign_role_to_user is_system in_scope is_admin
    has_admin_role require_permission enrich_audit hash_password verify_password field_errors create
    update reset_password change_password
runs = tt

ann_plain : is_admin ann_env team ≡ false
unfolding runs
ann_plain = refl

ann_may_update : (require_permission ann_env (codes "users") (codes "update") team).0 ≡ ok tt
unfolding runs
ann_may_update = refl

zoe_found : get_user (codes "zoe") team ≡ ok zoe
unfolding runs
zoe_found = refl

zoe_alone :
    any
      (λ v. not (v.id == codes "zoe") && (v.username == codes "zoe" || v.email == codes "z@x"))
      team.users
    ≡ false
unfolding runs
zoe_alone = refl

new_hash : hash_password plain (codes "new-secret") ≡ ok (codes "new-secret")
unfolding runs
new_hash = refl

zoe_is_admin : is_admin zoe_env team ≡ true
unfolding runs
zoe_is_admin = refl

changed :
    (change_password plain zoe_env (codes "zoe") (codes "old-secret") (codes "new-secret") team).0
    ≡ ok tt
unfolding runs
changed = refl

change_password_verified_example :
    (verify_password plain (codes "old-secret") (codes "old-secret") ≡ true)
    × ((is_self zoe_env.ctx.caller (codes "zoe") ≡ true)
        ⊎ ((require_permission zoe_env (codes "users") (codes "update") team).0 ≡ ok tt))
change_password_verified_example =
    change_password_verified plain zoe_env (codes "zoe") (codes "old-secret") (codes "new-secret")
      team zoe zoe_found changed

-- Ann creates a user with a system role.
abbrev new_operator : CreateUserRequest
new_operator = record {
  username = codes "max";
  password = codes "max-secret";
  email = codes "m@x";
  full_name = [];
  is_admin = false;
  role_id = codes "r-op";
}

abbrev max_user : User
max_user = record {
  id = codes "x1";
  username = codes "max";
  email = codes "m@x";
  full_name = [];
  password_hash = codes "max-secret";
  is_active = true;
  is_admin = false;
  created_at = 100;
  updated_at = 100;
  last_login_at = none;
}

max_created : (create plain ann_env new_operator team).0 ≡ ok max_user
unfolding runs
max_created = refl

operator_given :
    get_user_roles (codes "x1") (create plain ann_env new_operator team).1 ≡ ok (operator ∷ [])
unfolding runs
operator_given = refl

abbrev claim_flag : UpdateUserRequest
claim_flag = record {
  username = [];
  email = [];
  full_name = codes "Ann";
  is_active = none;
  is_admin = some true;
}

abbrev ann_named : User
ann_named = record ann { full_name = codes "Ann"; updated_at = 100 }

ann_updated : (update ann_env (codes "ann") claim_flag team).0 ≡ ok ann_named
unfolding runs
ann_updated = refl

ann_found : get_user (codes "ann") team ≡ ok ann
unfolding runs
ann_found = refl
