-- ===== src/Service/Oauth/Exchange.antt =====
-- internal/service/oauth.go, ExchangeCode: what a code gives, and how often.
use rackd.Prelude.{
  ◌+◌, ◌≤◌, ◌≡◌, ◌⊎◌, refl, sym, subst, true, false, some, [], ◌∷◌, ◌++◌, any, find, arith,
  Option-cases, inl, inr,
}
use rackd.Text.{◌==◌, codes, eq_iff}
use rackd.Error.{ok}
use rackd.Model.{Time}
use rackd.Model.Oauth.{OauthAuthorizationCode, OauthToken, OauthTokenRequest, OauthTokenResponse}
use rackd.Store.{Store, Env, or_uuid}
use rackd.Storage.Oauth.{
  get_oauth_token_by_hash, has_hash, create_oauth_token, get_authorization_code,
  mark_authorization_code_used,
}
use rackd.Service.Oauth.{OauthService, Fresh, issue, validate_access_token}
use rackd.Service.Oauth.Grants.{exchange_code}
use rackd.Storage.Oauth.Tokens.{find-append-some}
use rackd.Service.Oauth.Issue.{clashes, find-issued, issued}
use rackd.Auth.Oauth.{hash_token, validate_pkce}

module _ (service : OauthService) (env : Env) (access refresh : Fresh) (others : Store → Store)
    (req : OauthTokenRequest) (s : Store) (r : OauthTokenResponse) where
  -- What was checked of the code's row.
  abbrev pub Redeemed : OauthAuthorizationCode → Type 0
  Redeemed c =
      (c.used ≡ false)
      × (env.now ≤ c.expires_at)
      × (c.client_id ≡ req.client_id)
      × (c.redirect_uri ≡ req.redirect_uri)
      × ((c.code_challenge ≡ [])
          ⊎ (validate_pkce service.hash req.code_verifier c.code_challenge c.code_challenge_method
              ≡ true))

  abbrev pub access_row : OauthAuthorizationCode → OauthToken
  access_row c =
      issued service env access service.access_token_ttl (codes "access") c.client_id c.user_id
        c.scope [] r.access_token

  abbrev pub refresh_row : OauthAuthorizationCode → OauthToken
  refresh_row c =
      issued service env refresh service.refresh_token_ttl (codes "refresh") c.client_id c.user_id
        c.scope (or_uuid env access.id) r.refresh_token

  exchange_code-tokens :
      (c : OauthAuthorizationCode)
      → find (λ d. d.code_hash == hash_token service.hash req.code) s.oauth_codes ≡ some c
      → (exchange_code service env access refresh others req s).0 ≡ ok r
      → (any
            (clashes (or_uuid env access.id) (hash_token service.hash r.access_token))
            (others s).oauth_tokens
          ≡ false)
        × ((exchange_code service env access refresh others req s).1.oauth_tokens
            ≡ ((others s).oauth_tokens ++ access_row c ∷ []) ++ refresh_row c ∷ [])
  unfolding exchange_code get_authorization_code mark_authorization_code_used issue
      create_oauth_token
  exchange_code-tokens c e h = elim (Option-cases access.plain) [
    | inl n ↦ absurd (ground arith)
    | inr (p, k) ↦ elim (Option-cases refresh.plain) [
      | inl n ↦ absurd (ground arith)
      | inr (q, l) ↦ ground arith
    ]
  ]

  -- After a successful ExchangeCode, ValidateAccessToken accepts the access token of the response
  -- until its lifetime is over, and gives a token with the user, the client and the scope of the
  -- code.
  pub exchange_code-token :
      (later : Time) (c : OauthAuthorizationCode)
      → find (λ d. d.code_hash == hash_token service.hash req.code) s.oauth_codes ≡ some c
      → (exchange_code service env access refresh others req s).0 ≡ ok r
      → later ≤ env.now + service.access_token_ttl
      → validate_access_token service later r.access_token
          (exchange_code service env access refresh others req s).1
        ≡ ok (access_row c)
  unfolding validate_access_token get_oauth_token_by_hash ◌==◌
  exchange_code-token later c e h l =
      let hash = hash_token service.hash r.access_token in
      let (fresh, rows) = exchange_code-tokens c e h in
      let found =
        find-append-some (has_hash hash) ((others s).oauth_tokens ++ access_row c ∷ [])
          (refresh_row c ∷ []) (access_row c)
          (find-issued (or_uuid env access.id) hash (others s).oauth_tokens (access_row c) refl
            fresh) in
      ground (arith, subst (λ ts. find (has_hash hash) ts ≡ some (access_row c)) (sym rows) found)

  -- ExchangeCode succeeds only for the row of the code's hash, which was not used and not expired,
  -- with the client and the redirect URI of the request, and with a verifier that passes PKCE if the
  -- row has a challenge.
  pub exchange_code-Redeemed :
      (exchange_code service env access refresh others req s).0 ≡ ok r
      → (c : OauthAuthorizationCode) × (find
            (λ d. d.code_hash == hash_token service.hash req.code)
            s.oauth_codes
          ≡ some c)
        × Redeemed c
  unfolding exchange_code get_authorization_code mark_authorization_code_used
  exchange_code-Redeemed h =
      elim (Option-cases
        (find (λ d. d.code_hash == hash_token service.hash req.code) s.oauth_codes)) [
          | inl e ↦ absurd (ground arith)
          | inr (c, e) ↦ (
            c,
            e,
            ground
                (arith, eq_iff c.client_id req.client_id, eq_iff c.redirect_uri req.redirect_uri),
          )
        ]
