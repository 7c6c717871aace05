-- ===== src/Storage/Oauth.antt =====
-- internal/storage/oauth_sqlite.go, with the tables of internal/storage/oauth_migration.go: clients,
-- authorization codes and tokens. Times are instants.
pub mod Tokens
use rackd.Prelude.{
  Bool, true, false, not, ◌&&◌, ◌||◌, Option, none, some, List, [], ◌∷◌, ◌++◌, map, ltb, leb,
  nat_eq, if◌then◌else◌, any, keep, find, count,
}
use rackd.Text.{Text, ◌==◌, is_empty}
use rackd.Error.{
  Error, Result, ok, err, message, failed, unique_failed, foreign_key_failed, or_error,
  oauth_client_not_found, oauth_code_not_found, oauth_code_expired, oauth_code_used,
  oauth_token_not_found, oauth_token_revoked, oauth_token_expired,
}
use rackd.Model.{Time}
use rackd.Model.Oauth.{OauthClient, OauthAuthorizationCode, OauthToken}
use rackd.Store.{Store, Env, Exec, ask, ◌>>=◌, ◌>>◌, fail_if, modify, or_uuid}
use rackd.Storage.Order.{sort_by}

abbrev is_user : Text → Store → Bool
is_user id s = any (λ u. u.id == id) s.users

abbrev is_client : Text → Store → Bool
is_client id s = any (λ c. c.id == id) s.oauth_clients

-- CreateOAuthClient: an empty created_by_user_id is NULL, which refers to nobody.
unfoldable pub create_oauth_client : Env → OauthClient → Exec OauthClient
create_oauth_client env c s =
    let new : OauthClient = record c {
      id = or_uuid env c.id;
      created_at = env.now;
      updated_at = env.now;
    } in
    if is_client new.id s
    then (err (failed "oauth_clients" unique_failed), s)
    else if is_empty new.created_by_user_id || is_user new.created_by_user_id s
    then (ok new, record s { oauth_clients = s.oauth_clients ++ new ∷ [] })
    else (err (failed "oauth_clients" foreign_key_failed), s)

-- GetOAuthClient
unfoldable pub get_oauth_client : Text → Store → Result OauthClient
get_oauth_client id s = or_error (find (λ c. c.id == id) s.oauth_clients) oauth_client_not_found

-- ListOAuthClients
unfoldable pub list_oauth_clients : Text → Store → List OauthClient
list_oauth_clients user s =
    sort_by (λ a b. leb b.created_at a.created_at)
      (keep (λ c. is_empty user || c.created_by_user_id == user) s.oauth_clients)

-- DELETE FROM oauth_clients WHERE id = ?, with the rows that ON DELETE CASCADE takes along.
abbrev pub delete_client_rows : Text → Store → Store
delete_client_rows id s = record s {
  oauth_clients = keep (λ c. not (c.id == id)) s.oauth_clients;
  oauth_codes = keep (λ c. not (c.client_id == id)) s.oauth_codes;
  oauth_tokens = keep (λ t. not (t.client_id == id)) s.oauth_tokens;
}

-- DeleteOAuthClient
unfoldable pub delete_oauth_client : Text → Exec (Unit {0})
delete_oauth_client id = do
  exists ← ask (is_client id)
  modify (delete_client_rows id)
  fail_if (not exists) oauth_client_not_found

-- CreateAuthorizationCode: the hash is the primary key, and a new code is not used.
unfoldable pub create_authorization_code : OauthAuthorizationCode → Exec (Unit {0})
create_authorization_code code s =
    if any (λ c. c.code_hash == code.code_hash) s.oauth_codes
    then (err (failed "oauth_authorization_codes" unique_failed), s)
    else if is_client code.client_id s && is_user code.user_id s
    then (ok tt, record s { oauth_codes = s.oauth_codes ++ record code { used = false } ∷ [] })
    else (err (failed "oauth_authorization_codes" foreign_key_failed), s)

-- What GetAuthorizationCode makes of the row.
abbrev pub check_code : Time → Option OauthAuthorizationCode → Result OauthAuthorizationCode
check_code now none = err oauth_code_not_found
check_code now (some c) =
    if c.used
    then err oauth_code_used
    else if ltb c.expires_at now
    then err oauth_code_expired
    else ok c

-- GetAuthorizationCode
unfoldable pub get_authorization_code : Time → Text → Store → Result OauthAuthorizationCode
get_authorization_code now hash s = check_code now (find (λ c. c.code_hash == hash) s.oauth_codes)

-- WHERE code_hash = ? AND used = 0
abbrev pub is_open : Text → OauthAuthorizationCode → Bool
is_open hash c = c.code_hash == hash && not c.used

abbrev pub use_code : Text → OauthAuthorizationCode → OauthAuthorizationCode
use_code hash c = if is_open hash c then record c { used = true } else c

-- MarkAuthorizationCodeUsed: RowsAffected counts the rows that were not used before.
unfoldable pub mark_authorization_code_used : Text → Exec (Unit {0})
mark_authorization_code_used hash = do
  rows ← ask (λ s. count (is_open hash) s.oauth_codes)
  modify (λ s. record s { oauth_codes = map (use_code hash) s.oauth_codes })
  fail_if (nat_eq rows 0) oauth_code_used

-- CleanupExpiredCodes
unfoldable pub cleanup_expired_codes : Env → Store → Store
cleanup_expired_codes env s = record s {
  oauth_codes = keep (λ c. not (ltb c.expires_at env.now || c.used)) s.oauth_codes;
}

-- CreateOAuthToken: the id and the hash are unique.
unfoldable pub create_oauth_token : Env → OauthToken → Exec OauthToken
create_oauth_token env t s =
    let new : OauthToken = record t { id = or_uuid env t.id; created_at = env.now } in
    if any (λ u. u.id == new.id || u.token_hash == new.token_hash) s.oauth_tokens
    then (err (failed "oauth_tokens" unique_failed), s)
    else if is_client new.client_id s && is_user new.user_id s
    then (ok new, record s { oauth_tokens = s.oauth_tokens ++ new ∷ [] })
    else (err (failed "oauth_tokens" foreign_key_failed), s)

abbrev pub has_hash : Text → OauthToken → Bool
has_hash hash t = t.token_hash == hash

-- What GetOAuthTokenByHash makes of the row.
abbrev pub check_token : Time → Option OauthToken → Result OauthToken
check_token now none = err oauth_token_not_found
check_token now (some t) = elim t.revoked_at [
  | some at ↦ err oauth_token_revoked
  | none ↦ if ltb t.expires_at now then err oauth_token_expired else ok t
]

-- GetOAuthTokenByHash
unfoldable pub get_oauth_token_by_hash : Time → Text → Store → Result OauthToken
get_oauth_token_by_hash now hash s = check_token now (find (has_hash hash) s.oauth_tokens)

-- GetOAuthTokenByHashIncludingRevoked
unfoldable pub get_oauth_token_by_hash_including_revoked : Text → Store → Result OauthToken
get_oauth_token_by_hash_including_revoked hash s =
    or_error (find (has_hash hash) s.oauth_tokens) oauth_token_not_found

abbrev pub is_revoked : OauthToken → Bool
is_revoked t = elim t.revoked_at [ none ↦ false | some at ↦ true ]

-- SET revoked_at = ? WHERE … AND revoked_at IS NULL, for one row
abbrev pub revoke_row : Time → (OauthToken → Bool) → OauthToken → OauthToken
revoke_row now which t =
    if which t && not (is_revoked t) then record t { revoked_at = some now } else t

abbrev pub revoke_rows : Time → (OauthToken → Bool) → Store → Store
revoke_rows now which s = record s { oauth_tokens = map (revoke_row now which) s.oauth_tokens }

-- RevokeOAuthToken
unfoldable pub revoke_oauth_token : Env → Text → Store → Store
revoke_oauth_token env id s = revoke_rows env.now (λ t. t.id == id) s

-- RevokeOAuthTokenChain: first the rows whose parent is the token, then the token.
unfoldable pub revoke_oauth_token_chain : Env → Text → Store → Store
revoke_oauth_token_chain env id s =
    revoke_rows env.now (λ t. t.id == id) (revoke_rows env.now (λ t. t.parent_token_id == id) s)

-- RevokeOAuthTokensByClient
unfoldable pub revoke_oauth_tokens_by_client : Env → Text → Store → Store
revoke_oauth_tokens_by_client env client s = revoke_rows env.now (λ t. t.client_id == client) s

-- RevokeOAuthTokensByUser
unfoldable pub revoke_oauth_tokens_by_user : Env → Text → Store → Store
revoke_oauth_tokens_by_user env user s = revoke_rows env.now (λ t. t.user_id == user) s

-- CleanupExpiredTokens
unfoldable pub cleanup_expired_tokens : Env → Store → Store
cleanup_expired_tokens env s = record s {
  oauth_tokens = keep (λ t. not (ltb t.expires_at env.now && is_revoked t)) s.oauth_tokens;
}
