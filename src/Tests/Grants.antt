-- ===== src/Tests/Grants.antt =====
-- Permissions and roles in a small store.
use rackd.Prelude.{◌≡◌, ◌↔◌, refl, true, false, none, some, [], ◌∷◌, arith, any, ◌&&◌}
use rackd.Text.{codes, ◌==◌}
use rackd.Error.{ok, err, forbidden}
use rackd.Model.{Permission, Role, User, Caller, user}
use rackd.Store.{Store, Env}
use rackd.Storage.Order.{sort_by}
use rackd.Storage.Rbac.{delete_role}
use rackd.Storage.Rbac.Users.{
  has_permission, granted, get_user_permissions, get_user_roles, remove_role_from_user, allows,
}
use rackd.Storage.Rbac.Grants.{has_permission-delete_role, granted_otherwise}
use rackd.Service.Access.{is_system, in_scope, require_permission}
use rackd.Service.Access.Decision.{May}
use rackd.Service.Access.Allowed.{IsAllowed, require_permission_iff}
use rackd.Service.Gate.{perform, perform_refused}
use rackd.Service.Gate
use rackd.Tests.Fixtures.{store, env}

abbrev pub read_pools : Permission
read_pools = record {
  id = codes "p-read";
  name = codes "pools:read";
  resource = codes "pools";
  action = codes "read";
  created_at = 1;
}

abbrev pub viewer : Role
viewer = record {
  id = codes "r-viewer";
  name = codes "viewer";
  description = [];
  is_system = false;
  created_at = 1;
  updated_at = 1;
}

abbrev pub ann : User
ann = record {
  id = codes "ann";
  username = codes "ann";
  email = [];
  full_name = [];
  password_hash = [];
  is_active = true;
  is_admin = false;
  created_at = 1;
  updated_at = 1;
  last_login_at = none;
}

-- Ann is a viewer, and viewers read pools.
abbrev pub granted_store : Store
granted_store = record store {
  permissions = read_pools ∷ [];
  roles = viewer ∷ [];
  users = ann ∷ [];
  role_permissions =
      record { role_id = codes "r-viewer"; permission_id = codes "p-read"; created_at = 1 } ∷ [];
  user_roles = record { user_id = codes "ann"; role_id = codes "r-viewer"; created_at = 1 } ∷ [];
}

-- Ann, with a token for one scope.
abbrev pub ann_caller : Caller
ann_caller = record {
  kind = user;
  user_id = codes "ann";
  username = codes "ann";
  ip_address = codes "10.0.0.9";
  source = codes "api";
  scopes = some (codes "pools:read" ∷ []);
}

abbrev pub ann_env : Env
ann_env = record env { ctx = record { caller = some ann_caller; audit = none } }

abbrev pub drop_viewer : Store
drop_viewer = (remove_role_from_user (codes "ann") (codes "r-viewer") granted_store).1

runs : Unit {0}
unfolding sort_by has_permission granted get_user_permissions get_user_roles remove_role_from_user
    ◌==◌ require_permission is_system in_scope delete_role
runs = tt

listed_test : get_user_permissions (codes "ann") granted_store ≡ ok (read_pools ∷ [])
unfolding runs
listed_test = refl

delete_viewer_test : (delete_role (codes "r-viewer") granted_store).0 ≡ ok tt
unfolding runs
delete_viewer_test = refl

has_permission-delete_role_example :
    has_permission
      (codes "ann")
      (codes "pools")
      (codes "read")
      (delete_role (codes "r-viewer") granted_store).1
    ≡ any
        (λ p.
          allows (codes "pools") (codes "read") p
          && granted_otherwise (codes "ann") (codes "r-viewer") granted_store p.id)
        (read_pools ∷ [])
has_permission-delete_role_example =
    has_permission-delete_role (codes "ann") (codes "r-viewer") (codes "pools") (codes "read")
      granted_store refl delete_viewer_test

may_read : (require_permission ann_env (codes "pools") (codes "read") granted_store).0 ≡ ok tt
unfolding runs
may_read = refl

may_not_list :
    (require_permission ann_env (codes "pools") (codes "list") granted_store).0 ≡ err forbidden
unfolding runs
may_not_list = refl

require_permission_iff_example :
    ((require_permission ann_env (codes "pools") (codes "read") granted_store).0 ≡ ok tt) ↔ (
      (c : Caller) × (ann_env.ctx.caller ≡ some c)
      × IsAllowed c (codes "pools") (codes "read") granted_store)
require_permission_iff_example =
    require_permission_iff ann_env (codes "pools") (codes "read") granted_store

refused : ¬ May (some ann_caller) (codes "pools") (codes "list") granted_store
unfolding runs
refused = ground arith

-- Ann may not delete roles.
no_deleting : ¬ May (some ann_caller) (codes "roles") (codes "delete") granted_store
unfolding runs
no_deleting = ground arith

perform_refused_example :
    perform ann_env (Gate.delete_role (codes "r-viewer")) granted_store
    ≡ (err forbidden, granted_store)
perform_refused_example =
    perform_refused ann_env (Gate.delete_role (codes "r-viewer")) granted_store no_deleting
