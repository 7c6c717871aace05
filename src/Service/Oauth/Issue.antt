-- ===== src/Service/Oauth/Issue.antt =====
-- internal/service/oauth.go: what a new token leaves in the store.
use rackd.Prelude.{
  ℕ, ◌+◌, Bool, ◌≡◌, false, ◌||◌, none, some, List, [], ◌∷◌, ◌++◌, any, find, arith, Option-cases,
  inl, inr,
}
use rackd.Text.{Text, ◌==◌, eq_iff}
use rackd.Rows.{any_none, find-append}
use rackd.Error.{ok}
use rackd.Model.Oauth.{OauthToken}
use rackd.Store.{Store, Env, or_uuid}
use rackd.Storage.Oauth.{create_oauth_token, has_hash}
use rackd.Service.Oauth.{OauthService, Fresh, issue}
use rackd.Auth.Oauth.{hash_token}

-- A row that the indexes do not let in beside the new one.
abbrev pub clashes : Text → Text → OauthToken → Bool
clashes id hash t = t.id == id || t.token_hash == hash

-- A new row is what its hash finds.
pub find-issued :
    (id hash : Text) (ts : List OauthToken) (row : OauthToken)
    → row.token_hash ≡ hash
    → any (clashes id hash) ts ≡ false
    → find (has_hash hash) (ts ++ row ∷ []) ≡ some row
find-issued id hash ts row e fresh =
    find-append (has_hash hash) ts row
      (any_none (clashes id hash) (has_hash hash) ts (λ t k. ground arith) fresh)
      ((eq_iff row.token_hash hash).1 e)

module _ (service : OauthService) (env : Env) (fresh : Fresh) (ttl : ℕ)
    (kind client user_id scope parent : Text) where
  abbrev pub issued : Text → OauthToken
  issued plain = record {
    id = or_uuid env fresh.id;
    token_type = kind;
    token_hash = hash_token service.hash plain;
    client_id = client;
    user_id = user_id;
    scope = scope;
    expires_at = env.now + ttl;
    created_at = env.now;
    revoked_at = none;
    parent_token_id = parent;
  }

  pub issue-ok :
      (s : Store) (r : Text × Text)
      → (issue service env fresh ttl kind client user_id scope parent s).0 ≡ ok r
      → (r.1 ≡ or_uuid env fresh.id)
        × (any (clashes (or_uuid env fresh.id) (hash_token service.hash r.0)) s.oauth_tokens
            ≡ false)
        × ((issue service env fresh ttl kind client user_id scope parent s).1
            ≡ record s { oauth_tokens = s.oauth_tokens ++ issued r.0 ∷ [] })
  unfolding issue create_oauth_token
  issue-ok s r h = elim (Option-cases fresh.plain) [
    | inl e ↦ absurd (ground arith)
    | inr (p, e) ↦ ground arith
  ]
