-- ===== src/Model/Oauth.antt =====
-- internal/model/oauth.go: the rows of OAuth clients, codes and tokens, and the token endpoint.
use rackd.Prelude.{Bool, Option, List}
use rackd.Text.{Text}
use rackd.Model.{Time}

-- A list of URIs or types is stored as JSON; an empty `created_by_user_id` is NULL.
pub record OauthClient : Type 0 where
  pub id : Text
  pub name : Text
  pub secret_hash : Text
  pub redirect_uris : List Text
  pub grant_types : List Text
  pub response_types : List Text
  pub token_endpoint_auth : Text
  pub scope : Text
  pub client_uri : Text
  pub logo_uri : Text
  pub is_confidential : Bool
  pub created_by_user_id : Text
  pub created_at : Time
  pub updated_at : Time

pub record OauthAuthorizationCode : Type 0 where
  pub code_hash : Text
  pub client_id : Text
  pub user_id : Text
  pub redirect_uri : Text
  pub scope : Text
  pub code_challenge : Text
  pub code_challenge_method : Text
  pub expires_at : Time
  pub created_at : Time
  pub used : Bool

pub record OauthToken : Type 0 where
  pub id : Text
  pub token_type : Text
  pub token_hash : Text
  pub client_id : Text
  pub user_id : Text
  pub scope : Text
  pub expires_at : Time
  pub created_at : Time
  pub revoked_at : Option Time
  pub parent_token_id : Text

pub record OauthClientRegistrationRequest : Type 0 where
  pub client_name : Text
  pub redirect_uris : List Text
  pub grant_types : List Text
  pub response_types : List Text
  pub token_endpoint_auth : Text
  pub scope : Text
  pub client_uri : Text
  pub logo_uri : Text

pub record OauthTokenRequest : Type 0 where
  pub code : Text
  pub redirect_uri : Text
  pub client_id : Text
  pub client_secret : Text
  pub code_verifier : Text
  pub refresh_token : Text
  pub scope : Text

-- Without the constant "Bearer" and the lifetime in seconds.
pub record OauthTokenResponse : Type 0 where
  pub access_token : Text
  pub refresh_token : Text
  pub scope : Text
