-- ===== src/Tests/Roles.antt =====
-- Requests to the role service in a small store.
use rackd.Prelude.{◌≡◌, refl, true, false, [], ◌∷◌, arith}
use rackd.Text.{codes, ◌==◌}
use rackd.Model.{Role}
use rackd.Store.{Store}
use rackd.Storage.Order.{sort_by}
use rackd.Storage.Rbac.{get_role}
use rackd.Storage.Rbac.Users.{has_permission, granted, get_user_roles}
use rackd.Service.Access.{is_system, in_scope, is_admin, has_admin_role, require_permission}
use rackd.Service.Role.{assign_to_user}
use rackd.Service.Role.Privilege.{IsKeyed, is_privileged_user}
use rackd.Service.Role.History.{here, next, assigns, run, no_escalation}
use rackd.Tests.Fixtures.{store}
use rackd.Tests.Grants.{viewer, ann, ann_env}

abbrev admin : Role
admin = record viewer { id = codes "r-admin"; name = codes "admin"; is_system = true }

-- The user root is the administrator.
abbrev admin_store : Store
admin_store = record store {
  roles = admin ∷ [];
  users = ann ∷ [];
  user_roles = record { user_id = codes "root"; role_id = codes "r-admin"; created_at = 1 } ∷ [];
}

runs : Unit {0}
unfolding has_permission granted get_user_roles ◌==◌ sort_by require_permission is_system in_scope
    is_admin has_admin_role assign_to_user get_role
runs = tt

admin_store-IsKeyed : IsKeyed admin_store
admin_store-IsKeyed = record { ids = λ id. ground arith; refers = λ user id h. ground arith }

-- Ann asks for the administrator's role.
abbrev asked : Store
asked = run ann_env (assigns (codes "ann") (codes "r-admin")) admin_store

ann_no_admin : is_admin ann_env admin_store ≡ false
unfolding runs
ann_no_admin = refl

root_still : is_privileged_user (codes "root") asked ≡ true
unfolding runs
root_still = refl

no_escalation_example : is_privileged_user (codes "root") admin_store ≡ true
no_escalation_example =
    no_escalation admin_store asked (codes "root") admin_store-IsKeyed
      (next ann_env (assigns (codes "ann") (codes "r-admin")) here ann_no_admin) root_still
