-- ===== src/Service/Oauth/Grants.antt =====
-- internal/service/oauth.go: the grants, which give tokens for a code, a refresh token or a client.
-- `others` is what other requests do to the store between two statements.
use rackd.Prelude.{not, ◌&&◌, [], ◌∷◌, if◌then◌else◌}
use rackd.Text.{Text, codes, ◌==◌, is_empty}
use rackd.Error.{
  message, map_error, oauth_token_not_found, oauth_token_revoked, oauth_invalid_client,
  oauth_invalid_redirect_uri, oauth_invalid_grant_type, oauth_invalid_code_verifier,
  oauth_invalid_client_secret,
}
use rackd.Model.Oauth.{OauthToken, OauthTokenRequest, OauthTokenResponse}
use rackd.Store.{Store, Env, Exec, return, raise, query, ◌>>=◌, ◌>>◌, fail_if, modify}
use rackd.Storage.Oauth.{
  get_oauth_client, get_authorization_code, mark_authorization_code_used,
  get_oauth_token_by_hash_including_revoked, is_revoked, revoke_oauth_token,
  revoke_oauth_token_chain,
}
use rackd.Auth.Oauth.{hash_token, validate_pkce, parse_scopes, join_scopes, intersect_scopes}
use rackd.Service.Oauth.{OauthService, Fresh, as_invalid_client, issue}

-- ExchangeCode
unfoldable pub exchange_code :
    OauthService
    → Env
    → Fresh
    → Fresh
    → (Store → Store)
    → OauthTokenRequest
    → Exec OauthTokenResponse
exchange_code service env access refresh others req = do
  fail_if (is_empty req.code) (message "code is required")
  let code_hash = hash_token service.hash req.code
  code ← query (get_authorization_code env.now code_hash)
  fail_if (not (code.client_id == req.client_id)) oauth_invalid_client
  fail_if (not (code.redirect_uri == req.redirect_uri)) oauth_invalid_redirect_uri
  modify others
  mark_authorization_code_used code_hash
  fail_if
      (not (is_empty code.code_challenge)
        && not (
            validate_pkce service.hash req.code_verifier code.code_challenge
              code.code_challenge_method))
      oauth_invalid_code_verifier
  first ←
      issue service env access service.access_token_ttl (codes "access") code.client_id code.user_id
        code.scope []
  second ←
      issue service env refresh service.refresh_token_ttl (codes "refresh") code.client_id
        code.user_id code.scope first.1
  return (record { access_token = first.0; refresh_token = second.0; scope = code.scope })

-- The scope of a new token: that of the old one, or what the request asks of it.
unfoldable pub narrow : Text → Text → Text
narrow [] scope = scope
narrow (c ∷ s) scope = join_scopes (intersect_scopes (parse_scopes (c ∷ s)) (parse_scopes scope))

-- The new tokens of a refresh, and the end of the old one
unfoldable pub rotate :
    OauthService → Env → Fresh → Fresh → OauthToken → Text → Exec OauthTokenResponse
rotate service env access refresh old scope = do
  first ←
      issue service env access service.access_token_ttl (codes "access") old.client_id old.user_id
        scope old.id
  second ←
      issue service env refresh service.refresh_token_ttl (codes "refresh") old.client_id
        old.user_id scope first.1
  modify (revoke_oauth_token env old.id)
  return (record { access_token = first.0; refresh_token = second.0; scope = scope })

-- A revoked token came back.
abbrev replayed : Env → OauthToken → Exec OauthTokenResponse
replayed env old = do modify (revoke_oauth_token_chain env old.id); raise oauth_token_revoked

-- RefreshAccessToken
unfoldable pub refresh_access_token :
    OauthService
    → Env
    → Fresh
    → Fresh
    → (Store → Store)
    → OauthTokenRequest
    → Exec OauthTokenResponse
refresh_access_token service env access refresh others req = do
  fail_if (is_empty req.refresh_token) (message "refresh_token is required")
  old ←
      query (get_oauth_token_by_hash_including_revoked (hash_token service.hash req.refresh_token))
  fail_if (not (old.token_type == codes "refresh")) oauth_token_not_found
  modify others
  if is_revoked old
      then replayed env old
      else (fail_if (not (is_empty req.client_id) && not (old.client_id == req.client_id))
            oauth_invalid_client
          >> rotate service env access refresh old (narrow req.scope old.scope))

-- ClientCredentials, whose response has no refresh token
unfoldable pub client_credentials :
    OauthService → Env → Fresh → OauthTokenRequest → Exec OauthTokenResponse
client_credentials service env access req = do
  client ← query (λ s. map_error as_invalid_client (get_oauth_client req.client_id s))
  fail_if (not client.is_confidential) oauth_invalid_grant_type
  fail_if (not (hash_token service.hash req.client_secret == client.secret_hash))
      oauth_invalid_client_secret
  fail_if (is_empty client.created_by_user_id) (message "client has no associated user")
  first ←
      issue service env access service.access_token_ttl (codes "access") client.id
        client.created_by_user_id (narrow req.scope client.scope) []
  return
      (record { access_token = first.0; refresh_token = []; scope = narrow req.scope client.scope })
