-- ===== src/Service/Role/History.antt =====
-- Histories of requests to the role service by callers who are no administrators.
use rackd.Prelude.{◌≡◌, true, false}
use rackd.Text.{Text}
use rackd.Model.{Role}
use rackd.Store.{Store, Env}
use rackd.Service.Access.{is_admin}
use rackd.Service.Role.{
  create, update, delete, grant_permission, revoke_permission, assign_to_user, revoke_from_user,
}
use rackd.Service.Role.Change.{
  Change, create-Change, update-Change, delete-Change, grant_permission-Change,
  revoke_permission-Change, assign_to_user-Change, revoke_from_user-Change,
}
use rackd.Service.Role.Privilege.{
  IsKeyed, IsKeyed-Change, is_privileged_user, is_privileged_user-Change,
}

-- The requests that write.
pub data Request : Type 0 where
  creates : Role → Request
  updates : Text → Role → Request
  deletes : Text → Request
  grants revokes : Text → Text → Request
  assigns unassigns : Text → Text → Request

abbrev pub run : Env → Request → Store → Store
run env (creates role) s = (create env role s).1
run env (updates id role) s = (update env id role s).1
run env (deletes id) s = (delete env id s).1
run env (grants role permission) s = (grant_permission env role permission s).1
run env (revokes role permission) s = (revoke_permission env role permission s).1
run env (assigns user role) s = (assign_to_user env user role s).1
run env (unassigns user role) s = (revoke_from_user env user role s).1

pub data History (start : Store) : Store → Type 0 where
  here : History start start
  next :
      {s : Store} (env : Env) (q : Request)
      → History start s
      → is_admin env s ≡ false
      → History start (run env q s)

run-Change : (env : Env) (q : Request) (s : Store) → is_admin env s ≡ false → Change s (run env q s)
run-Change env (creates role) s h = create-Change env role s
run-Change env (updates id role) s h = update-Change env id role s
run-Change env (deletes id) s h = delete-Change env id s
run-Change env (grants role permission) s h = grant_permission-Change env role permission s
run-Change env (revokes role permission) s h = revoke_permission-Change env role permission s
run-Change env (assigns user role) s h = assign_to_user-Change env user role s h
run-Change env (unassigns user role) s h = revoke_from_user-Change env user role s

IsKeyed-History : {start t : Store} → IsKeyed start → History start t → IsKeyed t
IsKeyed-History k here = k
IsKeyed-History k (next {s} env q past h) =
    IsKeyed-Change (IsKeyed-History k past) (run-Change env q s h)

-- Requests to the role service by callers who are no administrators make nobody a holder of the role
-- named admin or of a system role, in a store whose role ids are unique and whose links of users
-- refer to roles.
pub no_escalation :
    (start t : Store) (user : Text)
    → IsKeyed start
    → History start t
    → is_privileged_user user t ≡ true
    → is_privileged_user user start ≡ true
no_escalation start _ user k here p = p
no_escalation start _ user k (next {s} env q past h) p =
    no_escalation start s user k past
      (is_privileged_user-Change user (IsKeyed-History k past) (run-Change env q s h) p)
