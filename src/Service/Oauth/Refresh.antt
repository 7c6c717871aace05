-- ===== src/Service/Oauth/Refresh.antt =====
-- internal/service/oauth.go, RefreshAccessToken: the rotation of refresh tokens, and what a replay revokes.
use rackd.Prelude.{
  ◌+◌, ◌≤◌, ◌≡◌, ◌≢◌, refl, sym, subst, ap, ◌∙◌, Bool, true, false, none, some, List, [], ◌∷◌, ◌++◌,
  any, find, map, arith, Option-cases, inl, inr,
}
use rackd.Text.{Text, ◌==◌, ==_refl, codes, is_empty, eq_iff}
use rackd.Rows.{find-fails}
use rackd.Error.{ok, err, oauth_token_revoked}
use rackd.Model.{Time, Caller}
use rackd.Model.Oauth.{OauthToken, OauthTokenRequest, OauthTokenResponse}
use rackd.Store.{Store, Env, or_uuid}
use rackd.Storage.Oauth.{
  has_hash, is_revoked, revoke_row, create_oauth_token, get_oauth_token_by_hash,
  get_oauth_token_by_hash_including_revoked, revoke_oauth_token, revoke_oauth_token_chain,
}
use rackd.Storage.Oauth.Tokens.{
  find-append-some, find-revoke_row, map_option, map_option-map_option,
}
use rackd.Service.Oauth.{
  OauthService, Fresh, issue, validate_access_token, caller_scopes, resolve_caller,
}
use rackd.Service.Oauth.Grants.{narrow, rotate, refresh_access_token}
use rackd.Service.Oauth.Issue.{clashes, find-issued, issued}
use rackd.Service.Oauth.Restrict.{narrow-disjoint, caller_scopes-empty, resolve_caller-ok}
use rackd.Auth.Oauth.{hash_token, parse_scopes, contains}

-- A revoked refresh token is refused, and its chain is revoked.
refresh_access_token-revoked :
    (service : OauthService) (env : Env) (access refresh : Fresh) (others : Store → Store)
    (req : OauthTokenRequest) (s : Store) (row : OauthToken)
    → is_empty req.refresh_token ≡ false
    → find (has_hash (hash_token service.hash req.refresh_token)) s.oauth_tokens ≡ some row
    → row.token_type == codes "refresh" ≡ true
    → is_revoked row ≡ true
    → refresh_access_token service env access refresh others req s
      ≡ (err oauth_token_revoked, revoke_oauth_token_chain env row.id (others s))
unfolding refresh_access_token get_oauth_token_by_hash_including_revoked
refresh_access_token-revoked service env access refresh others req s row given e kind gone =
    ground arith

module _ (service : OauthService) (env : Env) (access refresh : Fresh) (others : Store → Store)
    (req : OauthTokenRequest) (s : Store) (old : OauthToken) (r : OauthTokenResponse) where
  abbrev pub access_row : OauthToken
  access_row =
      issued service env access service.access_token_ttl (codes "access") old.client_id old.user_id
        (narrow req.scope old.scope) old.id r.access_token

  abbrev pub refresh_row : OauthToken
  refresh_row =
      issued service env refresh service.refresh_token_ttl (codes "refresh") old.client_id
        old.user_id (narrow req.scope old.scope) (or_uuid env access.id) r.refresh_token

  abbrev before : List OauthToken
  before = (others s).oauth_tokens ++ access_row ∷ []

  refresh_access_token-tokens :
      find (has_hash (hash_token service.hash req.refresh_token)) s.oauth_tokens ≡ some old
      → (refresh_access_token service env access refresh others req s).0 ≡ ok r
      → (is_empty req.refresh_token ≡ false)
        × (old.token_type == codes "refresh" ≡ true)
        × (is_revoked old ≡ false)
        × (any
              (clashes (or_uuid env access.id) (hash_token service.hash r.access_token))
              (others s).oauth_tokens
            ≡ false)
        × (any (clashes (or_uuid env refresh.id) (hash_token service.hash r.refresh_token)) before
            ≡ false)
        × ((refresh_access_token service env access refresh others req s).1.oauth_tokens
            ≡ map (revoke_row env.now (λ t. t.id == old.id)) (before ++ refresh_row ∷ []))
  unfolding refresh_access_token rotate issue create_oauth_token
      get_oauth_token_by_hash_including_revoked revoke_oauth_token
  refresh_access_token-tokens e h = elim (Option-cases access.plain) [
    | inl n ↦ absurd (ground arith)
    | inr (p, k) ↦ elim (Option-cases refresh.plain) [
      | inl n ↦ absurd (ground arith)
      | inr (q, l) ↦ ground arith
    ]
  ]

  -- The scope of the token that validates as the new one
  refresh_access_token-scope :
      (later : Time) (token : OauthToken)
      → find (has_hash (hash_token service.hash req.refresh_token)) s.oauth_tokens ≡ some old
      → (refresh_access_token service env access refresh others req s).0 ≡ ok r
      → validate_access_token service later r.access_token
          (refresh_access_token service env access refresh others req s).1
        ≡ ok token
      → (token.scope ≡ narrow req.scope old.scope) × (token.user_id ≡ old.user_id)
  unfolding validate_access_token get_oauth_token_by_hash
  refresh_access_token-scope later token e h valid =
      let (given, kind, open_token, fresh, fresh2, rows) = refresh_access_token-tokens e h in
      let hash = hash_token service.hash r.access_token in
      let self : OauthToken → Bool = λ u. u.id == old.id in
      let found =
        find-append-some (has_hash hash) before (refresh_row ∷ []) access_row (
          find-issued (or_uuid env access.id) hash (others s).oauth_tokens access_row refl fresh) in
      let eq =
        ap (λ ts. find (has_hash hash) ts) rows
        ∙ find-revoke_row env.now self hash (before ++ refresh_row ∷ [])
        ∙ ap (map_option (revoke_row env.now self)) found in
      ground arith

  -- If a refresh asks for scopes and none of them is a scope of the refresh token, it succeeds or
  -- fails as others do, and the caller of the access token that it gives has no restriction by
  -- scopes.
  pub refresh_unrestricted :
      (later : Time) (token : OauthToken) (address : Text) (t : Store) (c : Caller)
      → find (has_hash (hash_token service.hash req.refresh_token)) s.oauth_tokens ≡ some old
      → (refresh_access_token service env access refresh others req s).0 ≡ ok r
      → parse_scopes req.scope ≢ []
      → any (contains (parse_scopes old.scope)) (parse_scopes req.scope) ≡ false
      → validate_access_token service later r.access_token
          (refresh_access_token service env access refresh others req s).1
        ≡ ok token
      → resolve_caller token address t ≡ ok c
      → c.scopes ≡ none
  refresh_unrestricted later token address t c e h full apart valid found =
      let scope = (refresh_access_token-scope later token e h valid).0 in
      (resolve_caller-ok token address t c found).2
      ∙ ap caller_scopes (scope ∙ narrow-disjoint req.scope old.scope full apart)
      ∙ caller_scopes-empty

  -- The old row, revoked
  abbrev spent_row : OauthToken
  spent_row = record old { revoked_at = some env.now }

  refresh_access_token-old :
      find (has_hash (hash_token service.hash req.refresh_token)) s.oauth_tokens ≡ some old
      → find (has_hash (hash_token service.hash req.refresh_token)) (others s).oauth_tokens
        ≡ some old
      → (refresh_access_token service env access refresh others req s).0 ≡ ok r
      → find
          (has_hash (hash_token service.hash req.refresh_token))
          (refresh_access_token service env access refresh others req s).1.oauth_tokens
        ≡ some spent_row
  refresh_access_token-old e left h =
      let hash = hash_token service.hash req.refresh_token in
      let (given, kind, valid, fresh, fresh2, rows) = refresh_access_token-tokens e h in
      let kept =
        find-append-some (has_hash hash) before (refresh_row ∷ []) old
          (find-append-some (has_hash hash) (others s).oauth_tokens (access_row ∷ []) old left) in
      let which : OauthToken → Bool = λ t. t.id == old.id in
      let now_revoked : revoke_row env.now which old ≡ spent_row = ground (arith, ==_refl old.id) in
      ap (λ ts. find (has_hash hash) ts) rows
      ∙ find-revoke_row env.now which hash (before ++ refresh_row ∷ [])
      ∙ ap (map_option (revoke_row env.now which)) kept
      ∙ ap (λ t. some t) now_revoked

  replayed-eq :
      (env2 : Env) (access2 refresh2 : Fresh) (others2 : Store → Store) (req2 : OauthTokenRequest)
      → find (has_hash (hash_token service.hash req.refresh_token)) s.oauth_tokens ≡ some old
      → find (has_hash (hash_token service.hash req.refresh_token)) (others s).oauth_tokens
        ≡ some old
      → (refresh_access_token service env access refresh others req s).0 ≡ ok r
      → req2.refresh_token ≡ req.refresh_token
      → refresh_access_token service env2 access2 refresh2 others2 req2
          (refresh_access_token service env access refresh others req s).1
        ≡ (
          err oauth_token_revoked,
          revoke_oauth_token_chain env2 old.id
              (others2 (refresh_access_token service env access refresh others req s).1),
        )
  replayed-eq env2 access2 refresh2 others2 req2 e left h same =
      let (given, kind, valid, fresh, fresh2, rows) = refresh_access_token-tokens e h in
      let after = (refresh_access_token service env access refresh others req s).1 in
      refresh_access_token-revoked service env2 access2 refresh2 others2 req2 after spent_row
        (subst (λ t. is_empty t ≡ false) (sym same) given)
        (subst
          (λ t. find (has_hash (hash_token service.hash t)) after.oauth_tokens ≡ some spent_row)
          (sym same) (refresh_access_token-old e left h))
        kind refl

  -- After a RefreshAccessToken that succeeded, if other requests left the row of its token alone
  -- meanwhile, the next refresh with the same token fails with ErrOAuthTokenRevoked.
  pub refresh_once :
      (env2 : Env) (access2 refresh2 : Fresh) (others2 : Store → Store) (req2 : OauthTokenRequest)
      → find (has_hash (hash_token service.hash req.refresh_token)) s.oauth_tokens ≡ some old
      → find (has_hash (hash_token service.hash req.refresh_token)) (others s).oauth_tokens
        ≡ some old
      → (refresh_access_token service env access refresh others req s).0 ≡ ok r
      → req2.refresh_token ≡ req.refresh_token
      → (refresh_access_token service env2 access2 refresh2 others2 req2
          (refresh_access_token service env access refresh others req s).1).0
        ≡ err oauth_token_revoked
  refresh_once env2 access2 refresh2 others2 req2 e left h same =
      ap (λ x. x.0) (replayed-eq env2 access2 refresh2 others2 req2 e left h same)

  -- The rows that a replay leaves
  replayed_row : Env → OauthToken → OauthToken
  replayed_row env2 t =
      revoke_row env2.now (λ u. u.id == old.id)
        (revoke_row env2.now (λ u. u.parent_token_id == old.id)
          (revoke_row env.now (λ u. u.id == old.id) t))

  replayed_tokens :
      (env2 : Env) (access2 refresh2 : Fresh) (req2 : OauthTokenRequest) (hash : Text)
      → find (has_hash (hash_token service.hash req.refresh_token)) s.oauth_tokens ≡ some old
      → find (has_hash (hash_token service.hash req.refresh_token)) (others s).oauth_tokens
        ≡ some old
      → (refresh_access_token service env access refresh others req s).0 ≡ ok r
      → req2.refresh_token ≡ req.refresh_token
      → find
          (has_hash hash)
          (refresh_access_token service env2 access2 refresh2
            (λ t. t)
            req2
            (refresh_access_token service env access refresh others req s).1).1.oauth_tokens
        ≡ map_option (replayed_row env2) (find (has_hash hash) (before ++ refresh_row ∷ []))
  unfolding replayed_row revoke_oauth_token_chain
  replayed_tokens env2 access2 refresh2 req2 hash e left h same =
      let (given, kind, valid, fresh, fresh2, rows) = refresh_access_token-tokens e h in
      let self : OauthToken → Bool = λ u. u.id == old.id in
      let child : OauthToken → Bool = λ u. u.parent_token_id == old.id in
      let all = before ++ refresh_row ∷ [] in
      let once = map (revoke_row env.now self) all in
      ap (λ x. find (has_hash hash) x.1.oauth_tokens)
        (replayed-eq env2 access2 refresh2 (λ t. t) req2 e left h same)
      ∙ ap
          (λ ts.
            find (has_hash hash)
              (map (revoke_row env2.now self) (map (revoke_row env2.now child) ts)))
          rows
      ∙ find-revoke_row env2.now self hash (map (revoke_row env2.now child) once)
      ∙ ap (map_option (revoke_row env2.now self)) (find-revoke_row env2.now child hash once)
      ∙ ap (λ o. map_option (revoke_row env2.now self) (map_option (revoke_row env2.now child) o))
          (find-revoke_row env.now self hash all)
      ∙ map_option-map_option (revoke_row env2.now self) (revoke_row env2.now child)
          (revoke_row env.now self) (find (has_hash hash) all)

  -- The ids of the new rows are not that of the old one.
  new_ids :
      find (has_hash (hash_token service.hash req.refresh_token)) s.oauth_tokens ≡ some old
      → find (has_hash (hash_token service.hash req.refresh_token)) (others s).oauth_tokens
        ≡ some old
      → (refresh_access_token service env access refresh others req s).0 ≡ ok r
      → (or_uuid env access.id == old.id ≡ false) × (or_uuid env refresh.id == old.id ≡ false)
  new_ids e left h =
      let hash = hash_token service.hash req.refresh_token in
      let (given, kind, valid, fresh, fresh2, rows) = refresh_access_token-tokens e h in
      let a =
        find-fails (clashes (or_uuid env access.id) (hash_token service.hash r.access_token))
          (has_hash hash) (others s).oauth_tokens old fresh left in
      let b =
        find-fails (clashes (or_uuid env refresh.id) (hash_token service.hash r.refresh_token))
          (has_hash hash) before old fresh2
          (find-append-some (has_hash hash) (others s).oauth_tokens (access_row ∷ []) old left) in
      ground (
        arith,
        eq_iff (or_uuid env access.id) old.id,
        eq_iff (or_uuid env refresh.id) old.id,
        eq_iff old.id (or_uuid env access.id),
        eq_iff old.id (or_uuid env refresh.id),
      )

  -- When a refresh token comes back right after its successful use, during which other requests left
  -- its row alone, the refresh token that the use gave stays valid until its lifetime is over.
  pub replay_leaves :
      (env2 : Env) (access2 refresh2 : Fresh) (req2 : OauthTokenRequest) (later : Time)
      → find (has_hash (hash_token service.hash req.refresh_token)) s.oauth_tokens ≡ some old
      → find (has_hash (hash_token service.hash req.refresh_token)) (others s).oauth_tokens
        ≡ some old
      → (refresh_access_token service env access refresh others req s).0 ≡ ok r
      → req2.refresh_token ≡ req.refresh_token
      → later ≤ env.now + service.refresh_token_ttl
      → get_oauth_token_by_hash later
          (hash_token service.hash r.refresh_token)
          (refresh_access_token service env2 access2 refresh2
            (λ t. t)
            req2
            (refresh_access_token service env access refresh others req s).1).1
        ≡ ok refresh_row
  unfolding replayed_row get_oauth_token_by_hash
  replay_leaves env2 access2 refresh2 req2 later e left h same l =
      let (given, kind, valid, fresh, fresh2, rows) = refresh_access_token-tokens e h in
      let hash = hash_token service.hash r.refresh_token in
      let (a, b) = new_ids e left h in
      let found = find-issued (or_uuid env refresh.id) hash before refresh_row refl fresh2 in
      let kept : replayed_row env2 refresh_row ≡ refresh_row = ground arith in
      let eq =
        replayed_tokens env2 access2 refresh2 req2 hash e left h same
        ∙ ap (map_option (replayed_row env2)) found
        ∙ ap (λ t. some t) kept in
      ground arith

  -- When a refresh token comes back right after its successful use, during which other requests left
  -- its row alone, ValidateAccessToken no longer accepts the access token of that use.
  pub replay_revokes :
      (env2 : Env) (access2 refresh2 : Fresh) (req2 : OauthTokenRequest) (later : Time)
      → find (has_hash (hash_token service.hash req.refresh_token)) s.oauth_tokens ≡ some old
      → find (has_hash (hash_token service.hash req.refresh_token)) (others s).oauth_tokens
        ≡ some old
      → (refresh_access_token service env access refresh others req s).0 ≡ ok r
      → req2.refresh_token ≡ req.refresh_token
      → validate_access_token service later r.access_token
          (refresh_access_token service env2 access2 refresh2
            (λ t. t)
            req2
            (refresh_access_token service env access refresh others req s).1).1
        ≡ err oauth_token_revoked
  unfolding replayed_row get_oauth_token_by_hash validate_access_token
  replay_revokes env2 access2 refresh2 req2 later e left h same =
      let (given, kind, valid, fresh, fresh2, rows) = refresh_access_token-tokens e h in
      let hash = hash_token service.hash r.access_token in
      let (a, b) = new_ids e left h in
      let found =
        find-append-some (has_hash hash) before (refresh_row ∷ []) access_row (
          find-issued (or_uuid env access.id) hash (others s).oauth_tokens access_row refl fresh) in
      let gone : replayed_row env2 access_row ≡ record access_row { revoked_at = some env2.now } =
        ground (arith, ==_refl old.id) in
      let eq =
        replayed_tokens env2 access2 refresh2 req2 hash e left h same
        ∙ ap (map_option (replayed_row env2)) found
        ∙ ap (λ t. some t) gone in
      ground arith
