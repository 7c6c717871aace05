-- ===== src/Tests/Oauth.antt =====
-- A public client, a code and a refresh token of Ann in a small store, with a prefix as stand-in for
-- the hash.
use rackd.Prelude.{◌≡◌, ◌≢◌, map, refl, true, false, none, some, [], ◌∷◌, ◌++◌, any, find, arith}
use rackd.Text.{codes, ◌==◌}
use rackd.Error.{ok, err, oauth_token_revoked}
use rackd.Model.{Caller, user}
use rackd.Model.Oauth.{
  OauthClientRegistrationRequest, OauthClient, OauthAuthorizationCode, OauthToken,
  OauthTokenRequest, OauthTokenResponse,
}
use rackd.Store.{Store, Env}
use rackd.Storage.User.{get_user}
use rackd.Storage.Rbac.Users.{has_permission, granted}
use rackd.Storage.Oauth.{
  create_oauth_client, get_authorization_code, mark_authorization_code_used, create_oauth_token,
  get_oauth_token_by_hash, get_oauth_token_by_hash_including_revoked, revoke_oauth_token,
  revoke_oauth_token_chain, has_hash,
}
use rackd.Auth.Oauth.{
  hash_token, validate_pkce, space_width, words_from, parse_scopes, join_scopes, intersect_scopes,
  contains,
}
use rackd.Service.Access.{is_system, in_scope, scope_key, require_permission}
use rackd.Service.Oauth.{
  register_client, OauthService, Fresh, issue, validate_access_token, caller_scopes, resolve_caller,
}
use rackd.Service.Oauth.Grants.{
  client_credentials, exchange_code, narrow, rotate, refresh_access_token,
}
use rackd.Service.Oauth.Exchange.{Redeemed, exchange_code-Redeemed, exchange_code-token, access_row}
use rackd.Service.Oauth.Once.{here, exchange_once}
use rackd.Service.Oauth.Refresh.{refresh_once, replay_revokes}
use rackd.Service.Oauth.Credentials.{Registration, register_all, client_credentials_never}
use rackd.Service.Oauth.Restrict.{resolve_caller_within}
use rackd.Tests.Fixtures.{env}
use rackd.Tests.Grants.{granted_store}

abbrev service : OauthService
service = record {
  hash = λ t. codes "h:" ++ t;
  access_token_ttl = 10;
  refresh_token_ttl = 100;
  code_expiry = 5;
}

abbrev client : OauthClient
client = record {
  id = codes "c1";
  name = codes "editor";
  secret_hash = [];
  redirect_uris = codes "uri" ∷ [];
  grant_types = [];
  response_types = [];
  token_endpoint_auth = codes "none";
  scope = codes "pools:read";
  client_uri = [];
  logo_uri = [];
  is_confidential = false;
  created_by_user_id = [];
  created_at = 1;
  updated_at = 1;
}

abbrev code : OauthAuthorizationCode
code = record {
  code_hash = codes "h:code";
  client_id = codes "c1";
  user_id = codes "ann";
  redirect_uri = codes "uri";
  scope = codes "pools:read";
  code_challenge = codes "h:verifier";
  code_challenge_method = codes "S256";
  expires_at = 105;
  created_at = 99;
  used = false;
}

abbrev old : OauthToken
old = record {
  id = codes "t0";
  token_type = codes "refresh";
  token_hash = codes "h:old";
  client_id = codes "c1";
  user_id = codes "ann";
  scope = codes "pools:read";
  expires_at = 150;
  created_at = 50;
  revoked_at = none;
  parent_token_id = [];
}

abbrev server : Store
server = record granted_store {
  oauth_clients = client ∷ [];
  oauth_codes = code ∷ [];
  oauth_tokens = old ∷ [];
}

abbrev access : Fresh
access = record { id = codes "t1"; plain = some (codes "first") }

abbrev refresh : Fresh
refresh = record { id = codes "t2"; plain = some (codes "second") }

abbrev request : OauthTokenRequest
request = record {
  code = codes "code";
  redirect_uri = codes "uri";
  client_id = codes "c1";
  client_secret = [];
  code_verifier = codes "verifier";
  refresh_token = codes "old";
  scope = [];
}

abbrev response : OauthTokenResponse
response = record {
  access_token = codes "first";
  refresh_token = codes "second";
  scope = codes "pools:read";
}

abbrev no_others : Store → Store
no_others s = s

runs : Unit {0}
unfolding ◌==◌ get_user has_permission granted get_authorization_code mark_authorization_code_used
    create_oauth_token get_oauth_token_by_hash get_oauth_token_by_hash_including_revoked
    revoke_oauth_token revoke_oauth_token_chain validate_pkce space_width words_from parse_scopes
    join_scopes intersect_scopes is_system in_scope require_permission issue exchange_code narrow
    register_client create_oauth_client rotate refresh_access_token validate_access_token
    caller_scopes resolve_caller
runs = tt

-- A space of three bytes and a tab
fields_test : parse_scopes (32 ∷ 97 ∷ 226 ∷ 128 ∷ 168 ∷ 98 ∷ 9 ∷ []) ≡ codes "a" ∷ codes "b" ∷ []
unfolding runs
fields_test = refl

exchanged : (exchange_code service env access refresh no_others request server).0 ≡ ok response
unfolding runs
exchanged = refl

code_found :
    find (λ d. d.code_hash == hash_token service.hash request.code) server.oauth_codes ≡ some code
unfolding runs
code_found = refl

exchange_code-Redeemed_example :
    (c : OauthAuthorizationCode) × (find
        (λ d. d.code_hash == hash_token service.hash request.code)
        server.oauth_codes
      ≡ some c)
    × Redeemed service env access refresh no_others request server response c
exchange_code-Redeemed_example =
    exchange_code-Redeemed service env access refresh no_others request server response exchanged

exchange_code-token_example :
    validate_access_token service 110
      (codes "first")
      (exchange_code service env access refresh no_others request server).1
    ≡ ok (access_row service env access refresh no_others request server response code)
exchange_code-token_example =
    exchange_code-token service env access refresh no_others request server response 110 code
      code_found exchanged (omega arith)

-- A cleanup runs after the code was marked.
exchange_once_example :
    (exchange_code service env access refresh
      (λ s. (mark_authorization_code_used (codes "h:code") s).1)
      request
      server).0
    ≢ ok response
exchange_once_example =
    exchange_once service env access refresh
      (λ s. (mark_authorization_code_used (codes "h:code") s).1) request server server response here

old_found :
    find (has_hash (hash_token service.hash request.refresh_token)) server.oauth_tokens ≡ some old
unfolding runs
old_found = refl

refreshed :
    (refresh_access_token service env access refresh no_others request server).0 ≡ ok response
unfolding runs
refreshed = refl

abbrev rotated : Store
rotated = (refresh_access_token service env access refresh no_others request server).1

refresh_once_example :
    (refresh_access_token service env access refresh no_others request rotated).0
    ≡ err oauth_token_revoked
refresh_once_example =
    refresh_once service env access refresh no_others request server old response env access refresh
      no_others request old_found old_found refreshed refl

replay_revokes_example :
    validate_access_token service 105
      (codes "first")
      (refresh_access_token service env access refresh no_others request rotated).1
    ≡ err oauth_token_revoked
replay_revokes_example =
    replay_revokes service env access refresh no_others request server old response env access
      refresh request 105 old_found old_found refreshed refl

-- A refresh that asks for a scope that the old token does not have
abbrev other_scope : OauthTokenRequest
other_scope = record request { scope = codes "users:create" }

abbrev unscoped : OauthTokenResponse
unscoped = record response { scope = [] }

unscoped_refreshed :
    (refresh_access_token service env access refresh no_others other_scope server).0 ≡ ok unscoped
unfolding runs
unscoped_refreshed = refl

abbrev unscoped_token : OauthToken
unscoped_token = record old {
  id = codes "t1";
  token_type = codes "access";
  token_hash = codes "h:first";
  scope = [];
  expires_at = 110;
  created_at = 100;
  parent_token_id = codes "t0";
}

unscoped_valid :
    validate_access_token service 105
      (codes "first")
      (refresh_access_token service env access refresh no_others other_scope server).1
    ≡ ok unscoped_token
unfolding runs
unscoped_valid = refl

abbrev ann_by_token : Caller
ann_by_token = record {
  kind = user;
  user_id = codes "ann";
  username = codes "ann";
  ip_address = codes "10.0.0.9";
  source = codes "mcp-oauth";
  scopes = none;
}

unscoped_caller : resolve_caller unscoped_token (codes "10.0.0.9") server ≡ ok ann_by_token
unfolding runs
unscoped_caller = refl

some_scope : parse_scopes (codes "users:create") ≢ []
unfolding runs
some_scope e = ground arith

other_scope_apart :
    any (contains (parse_scopes (codes "pools:read"))) (parse_scopes (codes "users:create")) ≡ false
unfolding runs
other_scope_apart = refl

abbrev scoped_caller : Caller
scoped_caller = record ann_by_token { scopes = some (codes "pools:read" ∷ []) }

scoped_resolved : resolve_caller old (codes "10.0.0.9") server ≡ ok scoped_caller
unfolding runs
scoped_resolved = refl

abbrev scoped_env : Env
scoped_env = record env { ctx = record { caller = some scoped_caller; audit = none } }

scoped_may : (require_permission scoped_env (codes "pools") (codes "read") server).0 ≡ ok tt
unfolding runs
scoped_may = refl

pools_scope : parse_scopes (codes "pools:read") ≢ []
unfolding runs
pools_scope e = ground arith

no_star : contains (parse_scopes (codes "pools:read")) (codes "*") ≡ false
unfolding runs
no_star = refl

resolve_caller_within_example :
    (contains (parse_scopes (codes "pools:read")) (scope_key (codes "pools") (codes "read")) ≡ true)
    × (has_permission (codes "ann") (codes "pools") (codes "read") server ≡ true)
resolve_caller_within_example =
    resolve_caller_within old (codes "10.0.0.9") (codes "pools") (codes "read") server server
      scoped_env scoped_caller scoped_resolved pools_scope no_star refl scoped_may

abbrev confidential : OauthClientRegistrationRequest
confidential = record {
  client_name = codes "robot";
  redirect_uris = codes "uri" ∷ [];
  grant_types = codes "client_credentials" ∷ [];
  response_types = [];
  token_endpoint_auth = codes "client_secret_post";
  scope = codes "pools:read";
  client_uri = [];
  logo_uri = [];
}

abbrev registration : Registration
registration = record { env = env; fresh = access; req = confidential }

-- The client is there, with the hash of its secret.
registered_test :
    map (λ c. c.secret_hash) (register_all service (registration ∷ []) granted_store).oauth_clients
    ≡ codes "h:first" ∷ []
unfolding runs
registered_test = refl

abbrev with_secret : OauthTokenRequest
with_secret = record request { client_id = codes "t1"; client_secret = codes "first" }

client_credentials_never_example :
    (client_credentials service env refresh with_secret
      (register_all service (registration ∷ []) granted_store)).0
    ≢ ok response
client_credentials_never_example =
    client_credentials_never service (registration ∷ []) env refresh with_secret granted_store
      response refl
