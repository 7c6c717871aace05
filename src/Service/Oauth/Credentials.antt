-- ===== src/Service/Oauth/Credentials.antt =====
-- internal/service/oauth.go, RegisterClient and ClientCredentials: who owns a registered client.
use rackd.Prelude.{
  ◌≡◌, ◌≢◌, refl, ap, Bool, true, false, not, List, [], ◌∷◌, any, find, arith, Option-cases, inl,
  inr,
}
use rackd.Text.{◌==◌, is_empty}
use rackd.Rows.{any-append, find-fails}
use rackd.Error.{ok}
use rackd.Model.Oauth.{
  OauthClient, OauthClientRegistrationRequest, OauthTokenRequest, OauthTokenResponse,
}
use rackd.Store.{Store, Env, or_uuid}
use rackd.Storage.Oauth.{create_oauth_client, get_oauth_client}
use rackd.Service.Oauth.{OauthService, Fresh, register_client, new_client}
use rackd.Service.Oauth.Grants.{client_credentials}
use rackd.Auth.Oauth.{hash_token}

-- One registration
pub record Registration : Type 0 where
  pub env : Env
  pub fresh : Fresh
  pub req : OauthClientRegistrationRequest

-- The store after registrations, the last one in front.
abbrev pub register_all : OauthService → List Registration → Store → Store
register_all service [] s = s
register_all service (g ∷ gs) s =
    (register_client service g.env g.fresh g.req (register_all service gs s)).1

abbrev is_owned : OauthClient → Bool
is_owned c = not (is_empty c.created_by_user_id)

create_oauth_client-owned :
    (env : Env) (c : OauthClient) (s : Store)
    → is_empty c.created_by_user_id ≡ true
    → any is_owned s.oauth_clients ≡ false
    → any is_owned (create_oauth_client env c s).1.oauth_clients ≡ false
unfolding create_oauth_client
create_oauth_client-owned env c s e h = ground (
  arith,
  any-append is_owned s.oauth_clients
      (record c { id = or_uuid env c.id; created_at = env.now; updated_at = env.now } ∷ []),
)

-- A registration names no owner.
register_client-owned :
    (service : OauthService) (env : Env) (fresh : Fresh) (req : OauthClientRegistrationRequest)
    (s : Store)
    → any is_owned s.oauth_clients ≡ false
    → any is_owned (register_client service env fresh req s).1.oauth_clients ≡ false
unfolding register_client
register_client-owned service env fresh req s h =
    let public_client = create_oauth_client-owned env (new_client req fresh.id []) s refl h in
    elim (Option-cases fresh.plain) [
      | inl n ↦ ground arith
      | inr (p, k) ↦
          let secret_client =
            create_oauth_client-owned env (new_client req fresh.id (hash_token service.hash p)) s
              refl h in
          ground arith
    ]

register_all-owned :
    (service : OauthService) (gs : List Registration) (s : Store)
    → s.oauth_clients ≡ []
    → any is_owned (register_all service gs s).oauth_clients ≡ false
register_all-owned service [] s e = ap (any is_owned) e
register_all-owned service (g ∷ gs) s e =
    register_client-owned service g.env g.fresh g.req (register_all service gs s)
      (register_all-owned service gs s e)

client_credentials-owned :
    (service : OauthService) (env : Env) (access : Fresh) (req : OauthTokenRequest) (s : Store)
    (r : OauthTokenResponse)
    → any is_owned s.oauth_clients ≡ false
    → (client_credentials service env access req s).0 ≢ ok r
unfolding client_credentials get_oauth_client
client_credentials-owned service env access req s r n h =
    elim (Option-cases (find (λ c. c.id == req.client_id) s.oauth_clients)) [
      | inl e ↦ ground arith
      | inr (c, e) ↦
          let unowned = find-fails is_owned (λ d. d.id == req.client_id) s.oauth_clients c n e in
          ground arith
    ]

-- After any registrations of clients, from a store without clients, ClientCredentials never
-- succeeds, whatever client, secret and scope the request names.
pub client_credentials_never :
    (service : OauthService) (gs : List Registration) (env : Env) (access : Fresh)
    (req : OauthTokenRequest) (s : Store) (r : OauthTokenResponse)
    → s.oauth_clients ≡ []
    → (client_credentials service env access req (register_all service gs s)).0 ≢ ok r
client_credentials_never service gs env access req s r e =
    client_credentials-owned service env access req (register_all service gs s) r
      (register_all-owned service gs s e)
