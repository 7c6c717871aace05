-- ===== src/Service/Access.antt =====
-- internal/service/rbac.go, caller.go and audit.go: who calls, and what the caller may do.
pub mod Decision
pub mod Allowed
use rackd.Prelude.{
  Bool, true, false, not, ◌&&◌, ◌||◌, Option, none, some, List, [], ◌∷◌, ◌++◌, if◌then◌else◌, any,
}
use rackd.Text.{Text, codes, ◌==◌, is_empty}
use rackd.Error.{Error, Result, ok, err, forbidden, unauthenticated}
use rackd.Model.{CallerType, anonymous, user, api_key, system, Caller, AuditContext, Context, Role}
use rackd.Store.{Store, Env, Exec}
use rackd.Storage.Rbac.Users.{has_permission, get_user_roles}

-- Caller.IsSystem
unfoldable pub is_system : Caller → Bool
is_system c = elim c.kind [ anonymous ↦ false | user ↦ false | api_key ↦ false | system ↦ true ]

-- resource + ":" + action
abbrev pub scope_key : Text → Text → Text
scope_key resource action = resource ++ b':' ∷ action

-- The loop over the scopes of a token; the nil slice restricts nothing.
unfoldable pub in_scope : Option (List Text) → Text → Bool
in_scope none key = true
in_scope (some scopes) key = any (λ s. s == key || s == codes "*") scopes

-- requirePermission, for a caller and the answers of its checks
abbrev pub decide_caller : Option Caller → Text → Text → Store → Result (Unit {0})
decide_caller none resource action s = err unauthenticated
decide_caller (some c) resource action s =
    if is_system c
    then ok tt
    else if is_empty c.user_id
    then err unauthenticated
    else if in_scope c.scopes (scope_key resource action)
    then if has_permission c.user_id resource action s then ok tt else err forbidden
    else err forbidden

-- requirePermission
unfoldable pub require_permission : Env → Text → Text → Exec (Unit {0})
unfolding is_system in_scope
require_permission env resource action s = (decide_caller env.ctx.caller resource action s, s)

-- enrichAuditCtx: the caller becomes the author of the audit entries.
unfoldable pub enrich_audit : Env → Env
enrich_audit env = elim env.ctx.caller [
  | none ↦ env
  | some c ↦ record env {
    ctx = record {
      caller = some c;
      audit = some (record {
        user_id = c.user_id;
        username = c.username;
        ip_address = c.ip_address;
        source = c.source;
      });
    };
  }
]

-- auth.IsAdmin: a role of the user is named "admin".
unfoldable pub has_admin_role : Result (List Role) → Bool
has_admin_role (err e) = false
has_admin_role (ok roles) = any (λ r. r.name == codes "admin") roles

-- RoleService.isAdmin and UserService.isAdmin, which drop the error of auth.IsAdmin
unfoldable pub is_admin : Env → Store → Bool
unfolding is_system has_admin_role
is_admin env s = elim env.ctx.caller [
  | none ↦ false
  | some c ↦ if is_system c then true else has_admin_role (get_user_roles c.user_id s)
]
