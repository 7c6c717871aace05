-- ===== src/Tests/Keys.antt =====
-- Logins and API keys in small stores.
use rackd.Prelude.{keep, not, count, arith, ◌≤◌, ◌≡◌, refl, true, false, none, some, [], ◌∷◌, arith}
use rackd.Text.{codes, ◌==◌}
use rackd.Error.{ok}
use rackd.Model.{ApiKey}
use rackd.Store.{Store, Env}
use rackd.Storage.Order.{sort_by, text_leb, pos, Like, clamp_limit, clamp_offset, paginate}
use rackd.Storage.User.{get_user_by_username}
use rackd.Storage.User.Login.{update_user_last_login}
use rackd.Storage.Rbac.Users.{has_permission, granted, get_user_roles}
use rackd.Storage.ApiKey.{ApiKeyFilter, get_api_key, delete_api_key, matches_key, list_api_keys}
use rackd.Auth.Sessions.{Session, create_session, save, get_session, done}
use rackd.Service.Access.{is_system, in_scope, has_admin_role, require_permission}
use rackd.Service.User.{verify_password}
use rackd.Service.Auth.{LoginResult, login}
use rackd.Service.Auth.Laws.{login-verified}
use rackd.Service.ApiKey.{own_filter, list, require_ownership, delete}
use rackd.Service.ApiKey.Owner.{IsPlain, is_own, delete_owned}
use rackd.Tests.Fixtures.{env}
use rackd.Tests.Grants.{granted_store, read_pools, ann_caller}
use rackd.Tests.Users.{team, zoe, plain, admin}

runs : Unit {0}
unfolding ◌==◌ sort_by text_leb clamp_limit clamp_offset paginate get_user_by_username
    update_user_last_login has_permission granted get_user_roles get_api_key delete_api_key
    matches_key list_api_keys create_session save get_session is_system in_scope has_admin_role
    require_permission verify_password login own_filter list require_ownership delete
runs = tt

abbrev zoe_session : Session
zoe_session = record {
  token = codes "t9";
  user_id = codes "zoe";
  username = codes "zoe";
  is_admin = false;
  created_at = 100;
  expires_at = 130;
}

abbrev zoe_login : LoginResult
zoe_login = record { user = zoe; roles = admin ∷ []; session = zoe_session }

logged_in :
    (login plain env 30 (some (codes "t9")) (codes "zoe") (codes "old-secret") (team, [])).0
    ≡ ok zoe_login
unfolding runs
logged_in = refl

login-verified_example :
    (get_user_by_username (codes "zoe") team ≡ ok zoe)
    × (zoe.is_active ≡ true)
    × (verify_password plain (codes "old-secret") (codes "old-secret") ≡ true)
    × ((get_session 130
          (codes "t9")
          (login plain env 30
            (some (codes "t9"))
            (codes "zoe")
            (codes "old-secret")
            (team, [])).1.1).0
        ≡ done zoe_session)
    × (codes "zoe" ≡ codes "zoe")
login-verified_example =
    login-verified plain env 30 (codes "t9") (codes "zoe") (codes "old-secret") team [] zoe_login
      130 logged_in refl (omega arith)

abbrev ann_key : ApiKey
ann_key = record {
  id = codes "k1";
  name = codes "script";
  key = codes "h:k1";
  user_id = codes "ann";
  description = [];
  created_at = 7;
  last_used_at = none;
  expires_at = none;
}

-- Viewers list and delete keys.
abbrev keys_store : Store
keys_store = record granted_store {
  permissions =
      record read_pools { id = codes "p-read"; resource = codes "apikeys"; action = codes "list" }
      ∷ record read_pools {
        id = codes "p-del";
        name = codes "apikeys:delete";
        resource = codes "apikeys";
        action = codes "delete";
      }
      ∷ [];
  role_permissions =
      record { role_id = codes "r-viewer"; permission_id = codes "p-read"; created_at = 1 }
      ∷ record { role_id = codes "r-viewer"; permission_id = codes "p-del"; created_at = 1 }
      ∷ [];
  api_keys =
      record ann_key { id = codes "k2"; name = codes "other"; user_id = codes "bob" }
      ∷ ann_key
      ∷ [];
}

abbrev ann_env : Env
ann_env = record env {
  ctx = record { caller = some (record ann_caller { scopes = none }); audit = none };
}

ann-IsPlain : IsPlain ann_env (record ann_caller { scopes = none }) keys_store
unfolding runs
ann-IsPlain = (refl, (refl, refl))

-- The key of Bob, which Ann may not delete
abbrev shared_keys : Store
shared_keys = record keys_store {
  api_keys = ann_key ∷ record ann_key { id = codes "k2"; user_id = codes "bob" } ∷ [];
}

ann_IsPlain_shared : IsPlain ann_env (record ann_caller { scopes = none }) shared_keys
unfolding runs
ann_IsPlain_shared = (refl, (refl, refl))

one_k2 : count (λ k. k.id == codes "k2") shared_keys.api_keys ≤ 1
unfolding runs
one_k2 = omega arith

delete_owned_example :
    keep
      (λ k. not (is_own (codes "k2") (codes "ann") k))
      (delete ann_env (codes "k2") shared_keys).1.api_keys
    ≡ keep (λ k. not (is_own (codes "k2") (codes "ann") k)) shared_keys.api_keys
delete_owned_example =
    delete_owned ann_env (record ann_caller { scopes = none }) (codes "k2") shared_keys
      ann_IsPlain_shared one_k2

abbrev every_key : ApiKeyFilter
every_key = record { page = record { limit = pos 0; offset = pos 0 }; name = []; user_id = [] }

abbrev no_like : Like
no_like column pattern = false

keys_listed : (list no_like ann_env every_key keys_store).0 ≡ ok (ann_key ∷ [])
unfolding runs
keys_listed = refl
