-- ===== src/Service/ApiKey.antt =====
-- internal/service/apikey.go: keys, and who may see and delete them. The hash of a key is a parameter.
pub mod Owner
use rackd.Prelude.{Bool, true, false, not, ◌&&◌, ◌||◌, Option, none, some, List, if◌then◌else◌}
use rackd.Text.{Text, codes, ◌==◌, is_empty}
use rackd.Error.{
  Error, Result, ok, err, api_key_not_found, not_found, unauthenticated, forbidden, invalid,
  map_error,
}
use rackd.Model.{ApiKey, Caller}
use rackd.Store.{Store, Env, Exec, return, query, ask, ◌>>=◌, ◌>>◌, fail_if}
use rackd.Storage.Order.{Like}
use rackd.Storage.ApiKey.{ApiKeyFilter, create_api_key, get_api_key, list_api_keys, delete_api_key}
use rackd.Storage.Rbac.Users.{get_user_roles}
use rackd.Auth.Oauth.{Hash, hash_token}
use rackd.Service.Access.{is_system, has_admin_role, require_permission}

abbrev permit : Env → Text → Exec (Unit {0})
permit env action = require_permission env (codes "apikeys") action

-- The filter that List looks with: a caller who is no administrator sees the own keys.
unfoldable pub own_filter : Option Caller → ApiKeyFilter → Store → ApiKeyFilter
own_filter none filter s = filter
own_filter (some c) filter s =
    if is_system c || has_admin_role (get_user_roles c.user_id s)
    then filter
    else record filter { user_id = c.user_id }

-- List
unfoldable pub list : Like → Env → ApiKeyFilter → Exec (List ApiKey)
list like env filter = do
  permit env (codes "list")
  ask (λ s. list_api_keys like (own_filter env.ctx.caller filter s) s)

-- The user of a new key: the caller, if it has one.
abbrev key_user : Option Caller → Text → Text
key_user none user = user
key_user (some c) user = if is_empty c.user_id then user else c.user_id

-- Create, with the UUIDs of the row and of the key
unfoldable pub create : Hash → Env → Text → Text → ApiKey → Exec Text
create hash env id plaintext key = do
  permit env (codes "create")
  fail_if (is_empty key.name) (invalid "name" "Name is required")
  create_api_key env (record key {
    id = id;
    key = hash_token hash plaintext;
    user_id = key_user env.ctx.caller key.user_id;
    created_at = env.now;
  })
  return plaintext

abbrev as_not_found : Error → Error
as_not_found api_key_not_found = not_found
as_not_found e = e

-- requireOwnership
unfoldable pub require_ownership : Option Caller → ApiKey → Store → Result (Unit {0})
require_ownership none key s = err unauthenticated
require_ownership (some c) key s =
    if is_system c
    then ok tt
    else if not (is_empty key.user_id) && key.user_id == c.user_id
    then ok tt
    else if has_admin_role (get_user_roles c.user_id s)
    then ok tt
    else err forbidden

-- Get
unfoldable pub get : Env → Text → Exec ApiKey
get env id = do
  permit env (codes "read")
  key ← query (λ s. map_error as_not_found (get_api_key id s))
  query (require_ownership env.ctx.caller key)
  return key

abbrev on_error : (Error → Error) → Exec (Unit {0}) → Exec (Unit {0})
on_error f m s = (map_error f (m s).0, (m s).1)

-- Delete
unfoldable pub delete : Env → Text → Exec (Unit {0})
delete env id = do
  permit env (codes "delete")
  key ← query (λ s. map_error as_not_found (get_api_key id s))
  query (require_ownership env.ctx.caller key)
  on_error as_not_found (delete_api_key id)
