-- ===== src/Service/Oauth.antt =====
-- internal/service/oauth.go: the authorization server. The hash of tokens is a parameter, and so is what
-- the random source and uuid.New give; one reading of the clock per call.
pub mod Issue
pub mod Exchange
pub mod Refresh
pub mod Once
pub mod Credentials
pub mod Restrict
pub mod Grants
use rackd.Prelude.{
  ℕ, ◌+◌, Bool, true, false, not, ◌&&◌, ◌||◌, Option, none, some, List, [], ◌∷◌, if◌then◌else◌, any,
}
use rackd.Text.{Text, codes, ◌==◌, is_empty}
use rackd.Error.{
  Error, Result, ok, err, message, or_error, map_error, oauth_token_not_found, oauth_token_revoked,
  oauth_invalid_client, oauth_invalid_redirect_uri, oauth_invalid_response_type,
  oauth_invalid_grant_type, oauth_invalid_code_challenge, oauth_invalid_code_verifier,
  oauth_invalid_client_secret, oauth_client_name_required, oauth_redirect_uri_required,
}
use rackd.Model.{Time, Caller, user, User}
use rackd.Model.Oauth.{
  OauthClient, OauthAuthorizationCode, OauthToken, OauthClientRegistrationRequest,
  OauthTokenRequest, OauthTokenResponse,
}
use rackd.Store.{Store, Env, Exec, return, raise, query, ask, ◌>>=◌, ◌>>◌, fail_if, modify}
use rackd.Storage.User.{get_user}
use rackd.Storage.Oauth.{
  create_oauth_client, get_oauth_client, list_oauth_clients, delete_oauth_client,
  create_authorization_code, get_authorization_code, mark_authorization_code_used,
  cleanup_expired_codes, create_oauth_token, get_oauth_token_by_hash,
  get_oauth_token_by_hash_including_revoked, is_revoked, revoke_oauth_token,
  revoke_oauth_token_chain, revoke_oauth_tokens_by_client, cleanup_expired_tokens,
}
use rackd.Auth.Oauth.{
  Hash, hash_token, validate_pkce, contains, validate_redirect_uri, parse_scopes, join_scopes,
  intersect_scopes,
}

-- OAuthService, without the issuer's URL: the hash and the lifetimes
pub record OauthService : Type 0 where
  pub hash : Hash
  pub access_token_ttl : ℕ
  pub refresh_token_ttl : ℕ
  pub code_expiry : ℕ

-- What one new row takes from outside: the UUID, and the text of GenerateOAuthToken unless it fails.
pub record Fresh : Type 0 where
  pub id : Text
  pub plain : Option Text

-- GenerateOAuthToken, whose hash is HashToken of the text
abbrev pub generate : Fresh → Exec Text
generate fresh = query (λ _. or_error fresh.plain (message "rand"))

abbrev or_default : List Text → List Text → List Text
or_default [] default = default
or_default (x ∷ xs) default = x ∷ xs

abbrev pub is_nil : List Text → Bool
is_nil [] = true
is_nil (x ∷ xs) = false

abbrev or_none : Text → Text
or_none [] = codes "none"
or_none (c ∷ s) = c ∷ s

abbrev new_client : OauthClientRegistrationRequest → Text → Text → OauthClient
new_client req id secret_hash = record {
  id = id;
  name = req.client_name;
  secret_hash = secret_hash;
  redirect_uris = req.redirect_uris;
  grant_types =
      or_default req.grant_types (codes "authorization_code" ∷ codes "refresh_token" ∷ []);
  response_types = or_default req.response_types (codes "code" ∷ []);
  token_endpoint_auth = or_none req.token_endpoint_auth;
  scope = req.scope;
  client_uri = req.client_uri;
  logo_uri = req.logo_uri;
  is_confidential = or_none req.token_endpoint_auth == codes "client_secret_post";
  created_by_user_id = [];
  created_at = 0;
  updated_at = 0;
}

-- The secret of a confidential client and its hash; a public one has none.
abbrev client_secret : OauthService → Fresh → Bool → Exec (Text × Text)
client_secret service fresh true = do
  secret ← generate fresh
  return (secret, hash_token service.hash secret)
client_secret service fresh false = return ([], [])

-- RegisterClient: the client and its secret, of which the response is made
unfoldable pub register_client :
    OauthService → Env → Fresh → OauthClientRegistrationRequest → Exec (OauthClient × Text)
register_client service env fresh req = do
  fail_if (is_empty req.client_name) oauth_client_name_required
  fail_if (is_nil req.redirect_uris) oauth_redirect_uri_required
  secret ←
      client_secret service fresh (or_none req.token_endpoint_auth == codes "client_secret_post")
  client ← create_oauth_client env (new_client req fresh.id secret.1)
  return (client, secret.0)

abbrev pub as_invalid_client : Error → Error
as_invalid_client e = oauth_invalid_client

-- ValidateAuthRequest
unfoldable pub validate_auth_request :
    Text → Text → Text → Text → Text → Text → Exec (OauthClient × List Text)
validate_auth_request client_id redirect_uri response_type scope challenge method = do
  client ← query (λ s. map_error as_invalid_client (get_oauth_client client_id s))
  fail_if (not (validate_redirect_uri redirect_uri client.redirect_uris)) oauth_invalid_redirect_uri
  fail_if (not (response_type == codes "code")) oauth_invalid_response_type
  fail_if (not client.is_confidential && is_empty challenge) oauth_invalid_code_challenge
  fail_if (not (is_empty challenge) && not (method == codes "S256")) oauth_invalid_code_challenge
  return (client, or_default (parse_scopes scope) (parse_scopes client.scope))

-- CreateAuthorizationCode
unfoldable pub issue_code :
    OauthService → Env → Fresh → Text → Text → Text → Text → Text → Text → Exec Text
issue_code service env fresh client user_id redirect_uri scope challenge method = do
  plain ← generate fresh
  create_authorization_code (record {
    code_hash = hash_token service.hash plain;
    client_id = client;
    user_id = user_id;
    redirect_uri = redirect_uri;
    scope = scope;
    code_challenge = challenge;
    code_challenge_method = method;
    expires_at = env.now + service.code_expiry;
    created_at = env.now;
    used = false;
  })
  return plain

-- GenerateOAuthToken and CreateOAuthToken of a token: its text and its id
unfoldable pub issue :
    OauthService → Env → Fresh → ℕ → Text → Text → Text → Text → Text → Exec (Text × Text)
issue service env fresh ttl kind client user_id scope parent = do
  plain ← generate fresh
  token ← create_oauth_token env (record {
    id = fresh.id;
    token_type = kind;
    token_hash = hash_token service.hash plain;
    client_id = client;
    user_id = user_id;
    scope = scope;
    expires_at = env.now + ttl;
    created_at = env.now;
    revoked_at = none;
    parent_token_id = parent;
  })
  return (plain, token.id)

-- ValidateAccessToken
unfoldable pub validate_access_token : OauthService → Time → Text → Store → Result OauthToken
validate_access_token service now token s =
    elim (get_oauth_token_by_hash now (hash_token service.hash token) s) [
      | err e ↦ err e
      | ok t ↦ if t.token_type == codes "access" then ok t else err oauth_token_not_found
    ]

-- The scopes of the caller: none of a token, or "*" among them, is the nil slice.
unfoldable pub caller_scopes : Text → Option (List Text)
caller_scopes scope =
    let scopes = parse_scopes scope in
    if is_nil scopes || contains scopes (codes "*") then none else some scopes

-- ResolveCallerFromOAuthToken
unfoldable pub resolve_caller : OauthToken → Text → Store → Result Caller
resolve_caller token address s = elim (get_user token.user_id s) [
  | err e ↦ err e
  | ok u ↦
      if u.is_active
      then ok (record {
        kind = user;
        user_id = u.id;
        username = u.username;
        ip_address = address;
        source = codes "mcp-oauth";
        scopes = caller_scopes token.scope;
      })
      else err (message "user is not active")
]

-- RevokeToken: a token that is not valid is no error.
unfoldable pub revoke_token : OauthService → Env → Text → Store → Store
revoke_token service env token s =
    elim (get_oauth_token_by_hash env.now (hash_token service.hash token) s) [
      | err e ↦ s
      | ok t ↦
          let revoked = revoke_oauth_token env t.id s in
          if t.token_type == codes "refresh" && not (is_empty t.parent_token_id)
          then revoke_oauth_token env t.parent_token_id revoked
          else revoked
    ]

-- ListClients
abbrev pub list_clients : Store → List OauthClient
list_clients = list_oauth_clients []

-- DeleteClient
unfoldable pub delete_client : Env → Text → Exec (Unit {0})
delete_client env id = do modify (revoke_oauth_tokens_by_client env id); delete_oauth_client id

-- One tick of StartCleanup
unfoldable pub tick : Env → Store → Store
tick env s = cleanup_expired_tokens env (cleanup_expired_codes env s)
