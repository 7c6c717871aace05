-- ===== src/Service/Access/Decision.antt =====
-- What requirePermission decides.
use rackd.Prelude.{◌≡◌, refl, ◌↔◌, ◌⊎◌, true, false, Option, none, some, arith, if◌then◌else◌}
use rackd.Text.{Text, is_empty}
use rackd.Error.{Result, ok, err, forbidden, unauthenticated}
use rackd.Model.{Caller}
use rackd.Store.{Store, Env}
use rackd.Storage.Rbac.Users.{has_permission}
use rackd.Service.Access.{is_system, in_scope, scope_key, require_permission, decide_caller}

-- The caller may do this: it is the system, or a user whose token and whose roles both allow it.
abbrev pub May : Option Caller → Text → Text → Store → Type 0
May none resource action s = ⊥
May (some c) resource action s =
    (is_system c ≡ true)
    ⊎ ((is_empty c.user_id ≡ false)
        × (in_scope c.scopes (scope_key resource action) ≡ true)
        × (has_permission c.user_id resource action s ≡ true))

decide_caller_iff :
    (c : Option Caller) (resource action : Text) (s : Store)
    → (decide_caller c resource action s ≡ ok tt) ↔ May c resource action s
decide_caller_iff none resource action s = ground arith
decide_caller_iff (some c) resource action s = ground arith

pub require_permission-May :
    (env : Env) (resource action : Text) (s : Store)
    → ((require_permission env resource action s).0 ≡ ok tt) ↔ May env.ctx.caller resource action s
unfolding require_permission
require_permission-May env resource action s = decide_caller_iff env.ctx.caller resource action s

-- A refusal is ErrUnauthenticated for a caller without a user, and ErrForbidden for the others.
abbrev pub Refusal : Option Caller → Result (Unit {0}) → Type 0
Refusal none r = r ≡ err unauthenticated
Refusal (some c) r = r ≡ (if is_empty c.user_id then err unauthenticated else err forbidden)

decide_caller-Refusal :
    (c : Option Caller) (resource action : Text) (s : Store)
    → ¬ May c resource action s
    → Refusal c (decide_caller c resource action s)
decide_caller-Refusal none resource action s n = refl
decide_caller-Refusal (some c) resource action s n = ground arith

-- For a caller who may not, requirePermission answers with ErrUnauthenticated for a caller without a
-- user, and ErrForbidden for every other caller.
pub require_permission-Refusal :
    (env : Env) (resource action : Text) (s : Store)
    → ¬ May env.ctx.caller resource action s
    → Refusal env.ctx.caller (require_permission env resource action s).0
unfolding require_permission
require_permission-Refusal env resource action s n =
    decide_caller-Refusal env.ctx.caller resource action s n
