-- ===== src/Storage/ApiKey.antt =====
-- internal/storage/apikey_sqlite.go: the rows of api_keys. LIKE is a parameter.
use rackd.Prelude.{
  Bool, not, ◌&&◌, ◌||◌, some, List, [], ◌∷◌, ◌++◌, map, leb, if◌then◌else◌, any, keep, find,
}
use rackd.Text.{Text, ◌==◌, is_empty}
use rackd.Error.{
  Result, ok, err, message, failed, unique_failed, foreign_key_failed, invalid_id,
  api_key_not_found, or_error,
}
use rackd.Model.{Time, ApiKey}
use rackd.Store.{Store, Env, Exec, ask, ◌>>=◌, ◌>>◌, fail_if, modify, or_uuid}
use rackd.Storage.Order.{Like, contains_part, Pagination, paginate, sort_by}
use rackd.Storage.Rbac.{or_now}

-- CreateAPIKey: the id, the name and the key are unique; an empty user_id is NULL.
unfoldable pub create_api_key : Env → ApiKey → Exec ApiKey
create_api_key env k s =
    let new : ApiKey = record k {
      id = or_uuid env k.id;
      created_at = or_now env.now k.created_at;
    } in
    if any (λ q. q.id == new.id || q.name == new.name || q.key == new.key) s.api_keys
    then (err (failed "failed to create API key" unique_failed), s)
    else if is_empty new.user_id || any (λ u. u.id == new.user_id) s.users
    then (ok new, record s { api_keys = s.api_keys ++ new ∷ [] })
    else (err (failed "failed to create API key" foreign_key_failed), s)

-- GetAPIKey
unfoldable pub get_api_key : Text → Store → Result ApiKey
get_api_key id s =
    if is_empty id
    then err invalid_id
    else or_error (find (λ k. k.id == id) s.api_keys) api_key_not_found

-- GetAPIKeyByKey
unfoldable pub get_api_key_by_key : Text → Store → Result ApiKey
get_api_key_by_key key s =
    if is_empty key
    then err (message "key cannot be empty")
    else or_error (find (λ k. k.key == key) s.api_keys) api_key_not_found

-- model.APIKeyFilter
pub record ApiKeyFilter : Type 0 where
  pub page : Pagination
  pub name : Text
  pub user_id : Text

unfoldable pub matches_key : Like → ApiKeyFilter → ApiKey → Bool
matches_key like f k =
    contains_part like f.name k.name && (is_empty f.user_id || k.user_id == f.user_id)

-- ListAPIKeys, with the filter that the service always gives
unfoldable pub list_api_keys : Like → ApiKeyFilter → Store → List ApiKey
list_api_keys like filter s =
    paginate (some filter.page)
      (sort_by (λ a b. leb b.created_at a.created_at) (keep (matches_key like filter) s.api_keys))

-- UpdateAPIKeyLastUsed
unfoldable pub update_api_key_last_used : Text → Time → Exec (Unit {0})
update_api_key_last_used id last_used = do
  fail_if (is_empty id) invalid_id
  modify (λ s. record s {
    api_keys =
        map {A = ApiKey} (λ k. if k.id == id then record k { last_used_at = some last_used } else k)
          s.api_keys;
  })

-- DeleteAPIKey
unfoldable pub delete_api_key : Text → Exec (Unit {0})
delete_api_key id = do
  fail_if (is_empty id) invalid_id
  exists ← ask (λ s. any (λ k. k.id == id) s.api_keys)
  fail_if (not exists) api_key_not_found
  modify (λ s. record s { api_keys = keep (λ k. not (k.id == id)) s.api_keys })
