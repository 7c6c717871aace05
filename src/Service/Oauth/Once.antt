-- ===== src/Service/Oauth/Once.antt =====
-- internal/service/oauth.go, ExchangeCode: two exchanges of one code, with any statements of other
-- requests before, between and after their own.
use rackd.Prelude.{
  ◌≡◌, ◌≢◌, sym, subst, ◌∙◌, Bool, false, not, ◌&&◌, List, [], ◌∷◌, any, keep, arith,
}
use rackd.Text.{Text, ◌==◌}
use rackd.Rows.{any-append, any-keep, any-map, any_never, any_none, count_of_none}
use rackd.Error.{ok}
use rackd.Model.Oauth.{OauthAuthorizationCode, OauthTokenRequest, OauthTokenResponse}
use rackd.Store.{Store, Env}
use rackd.Storage.User.{delete_user}
use rackd.Storage.Oauth.{
  is_open, use_code, mark_authorization_code_used, create_authorization_code, cleanup_expired_codes,
  delete_oauth_client,
}
use rackd.Service.Oauth.{OauthService, Fresh}
use rackd.Service.Oauth.Grants.{exchange_code}
use rackd.Auth.Oauth.{hash_token}

-- One statement: a new code has another hash, and the other tables' statements leave the codes.
pub data Statement (hash : Text) : Store → Store → Type 0 where
  creates :
      (c : OauthAuthorizationCode) (s : Store)
      → c.code_hash == hash ≡ false
      → Statement hash s (create_authorization_code c s).1
  marks : (other : Text) (s : Store) → Statement hash s (mark_authorization_code_used other s).1
  cleans : (env : Env) (s : Store) → Statement hash s (cleanup_expired_codes env s)
  deletes_client : (id : Text) (s : Store) → Statement hash s (delete_oauth_client id s).1
  deletes_user : (id : Text) (s : Store) → Statement hash s (delete_user id s).1
  elsewhere : (s t : Store) → t.oauth_codes ≡ s.oauth_codes → Statement hash s t

pub data Statements (hash : Text) (start : Store) : Store → Type 0 where
  here : Statements hash start start
  next : {s t : Store} → Statements hash start s → Statement hash s t → Statements hash start t

-- No code with the hash is open.
abbrev pub IsSpent : Text → Store → Type 0
IsSpent hash s = any (is_open hash) s.oauth_codes ≡ false

mark-IsSpent : (hash : Text) (s : Store) → IsSpent hash (mark_authorization_code_used hash s).1
unfolding mark_authorization_code_used
mark-IsSpent hash s =
    any-map (is_open hash) (use_code hash) s.oauth_codes
    ∙ any_never (λ c. is_open hash (use_code hash c)) s.oauth_codes (λ c. ground arith)

mark_others-IsSpent :
    (hash other : Text) (s : Store)
    → IsSpent hash s
    → IsSpent hash (mark_authorization_code_used other s).1
unfolding mark_authorization_code_used
mark_others-IsSpent hash other s k =
    any-map (is_open hash) (use_code other) s.oauth_codes
    ∙ any_none (is_open hash) (λ c. is_open hash (use_code other c)) s.oauth_codes
        (λ c e. ground arith) k

keep-IsSpent :
    (hash : Text) (q : OauthAuthorizationCode → Bool) (cs : List OauthAuthorizationCode)
    → any (is_open hash) cs ≡ false
    → any (is_open hash) (keep q cs) ≡ false
keep-IsSpent hash q cs k =
    any-keep (is_open hash) q cs
    ∙ any_none (is_open hash) (λ c. is_open hash c && q c) cs (λ c e. ground arith) k

create-IsSpent :
    (hash : Text) (c : OauthAuthorizationCode) (s : Store)
    → c.code_hash == hash ≡ false
    → IsSpent hash s
    → IsSpent hash (create_authorization_code c s).1
unfolding create_authorization_code
create-IsSpent hash c s e k =
    ground (arith, any-append (is_open hash) s.oauth_codes (record c { used = false } ∷ []))

delete_user-IsSpent :
    (hash id : Text) (s : Store) → IsSpent hash s → IsSpent hash (delete_user id s).1
unfolding delete_user
delete_user-IsSpent hash id s k =
    ground (arith, keep-IsSpent hash (λ c. not (c.user_id == id)) s.oauth_codes k)

step-IsSpent : {hash : Text} {s t : Store} → Statement hash s t → IsSpent hash s → IsSpent hash t
unfolding cleanup_expired_codes delete_oauth_client
step-IsSpent {hash} (creates c s e) k = create-IsSpent hash c s e k
step-IsSpent {hash} (marks other s) k = mark_others-IsSpent hash other s k
step-IsSpent {hash} (cleans env s) k = keep-IsSpent hash _ s.oauth_codes k
step-IsSpent {hash} (deletes_client id s) k = keep-IsSpent hash _ s.oauth_codes k
step-IsSpent {hash} (deletes_user id s) k = delete_user-IsSpent hash id s k
step-IsSpent {hash} (elsewhere s t e) k = subst (λ cs. any (is_open hash) cs ≡ false) (sym e) k

run-IsSpent :
    {hash : Text} {start t : Store} → Statements hash start t → IsSpent hash start → IsSpent hash t
run-IsSpent here k = k
run-IsSpent (next past step) k = step-IsSpent step (run-IsSpent past k)

exchange-IsSpent :
    (service : OauthService) (env : Env) (access refresh : Fresh) (others : Store → Store)
    (req : OauthTokenRequest) (s : Store) (r : OauthTokenResponse)
    → IsSpent (hash_token service.hash req.code) (others s)
    → (exchange_code service env access refresh others req s).0 ≢ ok r
unfolding exchange_code mark_authorization_code_used
exchange-IsSpent service env access refresh others req s r k h =
    let no_row =
      count_of_none (is_open (hash_token service.hash req.code)) (others s).oauth_codes k in
    ground arith

-- Once any request has marked the hash of a code as used, no ExchangeCode with that code succeeds,
-- whatever statements of other requests come between, before or after the exchange's own lookup, as
-- long as none of them creates a code with the same hash.
pub exchange_once :
    (service : OauthService) (env : Env) (access refresh : Fresh) (others : Store → Store)
    (req : OauthTokenRequest) (first s : Store) (r : OauthTokenResponse)
    → Statements
        (hash_token service.hash req.code)
        (mark_authorization_code_used (hash_token service.hash req.code) first).1
        (others s)
    → (exchange_code service env access refresh others req s).0 ≢ ok r
exchange_once service env access refresh others req first s r run h =
    exchange-IsSpent service env access refresh others req s r
      (run-IsSpent run (mark-IsSpent (hash_token service.hash req.code) first)) h
