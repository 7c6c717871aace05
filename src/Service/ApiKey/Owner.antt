-- ===== src/Service/ApiKey/Owner.antt =====
-- Keys of others are for administrators.
use rackd.Prelude.{
  ◌≡◌, refl, Bool, false, not, List, [], ◌∷◌, arith, any, keep, ap, ◌∙◌, leb, true, some, ◌&&◌, ◌≤◌,
  count, find, Option-cases, Bool-cases, inl, inr,
}
use rackd.Text.{Text, ◌==◌, is_empty}
use rackd.Error.{ok}
use rackd.Model.{ApiKey, Caller}
use rackd.Store.{Store, Env}
use rackd.Storage.Order.{Like, any-paginate, any-sort_by, sort_by}
use rackd.Storage.ApiKey.{ApiKeyFilter, get_api_key, delete_api_key, matches_key, list_api_keys}
use rackd.Storage.Rbac.Users.{get_user_roles}
use rackd.Service.Access.{is_system, has_admin_role, require_permission}
use rackd.Service.ApiKey.{own_filter, list, require_ownership, delete}

-- The caller is neither the system nor an administrator.
abbrev pub IsPlain : Env → Caller → Store → Type 0
IsPlain env c s =
    (env.ctx.caller ≡ some c)
    × ((is_system c ≡ false) × (has_admin_role (get_user_roles c.user_id s) ≡ false))

-- The key has the id and belongs to the user.
abbrev pub is_own : Text → Text → ApiKey → Bool
is_own id user k = k.id == id && k.user_id == user

keep-no_id :
    (id : Text) (p : ApiKey → Bool) (rows : List ApiKey)
    → count (λ k. k.id == id) rows ≡ 0
    → keep p (keep (λ k. not (k.id == id)) rows) ≡ keep p rows
keep-no_id id p [] h = refl
keep-no_id id p (k ∷ rows) h = ground (arith, keep-no_id id p rows)

keep-own :
    (id user : Text) (key : ApiKey) (rows : List ApiKey)
    → count (λ k. k.id == id) rows ≤ 1
    → find (λ k. k.id == id) rows ≡ some key
    → key.user_id == user ≡ true
    → keep (λ k. not (is_own id user k)) (keep (λ k. not (k.id == id)) rows)
      ≡ keep (λ k. not (is_own id user k)) rows
keep-own id user key [] one e own = refl
keep-own id user key (k ∷ rows) one e own =
    ground (arith, keep-no_id id (λ r. not (is_own id user r)) rows, keep-own id user key rows)

-- A Delete of an API key by a caller who is neither the system nor an administrator, where at most
-- one key has the id, keeps every key but the one with the id if it is the caller's own, whether the
-- call succeeds or fails.
pub delete_owned :
    (env : Env) (c : Caller) (id : Text) (s : Store)
    → IsPlain env c s
    → count (λ k. k.id == id) s.api_keys ≤ 1
    → keep (λ k. not (is_own id c.user_id k)) (delete env id s).1.api_keys
      ≡ keep (λ k. not (is_own id c.user_id k)) s.api_keys
unfolding delete require_ownership require_permission get_api_key delete_api_key
delete_owned env c id s (same, (no_system, no_admin)) one =
    elim (Option-cases (find (λ k. k.id == id) s.api_keys)) [
      | inl e ↦ ground arith
      | inr (key, e) ↦ elim (Bool-cases (key.user_id == c.user_id)) [
        | inl own ↦ let rest = keep-own id c.user_id key s.api_keys one e own in ground arith
        | inr other ↦ ground arith
      ]
    ]

none_of_others :
    (like : Like) (f : ApiKeyFilter) (c : Text) (rows : List ApiKey)
    → f.user_id ≡ c
    → is_empty c ≡ false
    → any (λ k. not (k.user_id == c)) (keep (matches_key like f) rows) ≡ false
unfolding matches_key
none_of_others like f c [] e full = refl
none_of_others like f c (k ∷ rows) e full =
    let shown = none_of_others like f c rows e full in ground (arith, shown)

list-user :
    (like : Like) (env : Env) (c : Caller) (filter : ApiKeyFilter) (s : Store) (keys : List ApiKey)
    → IsPlain env c s
    → (list like env filter s).0 ≡ ok keys
    → (is_empty c.user_id ≡ false)
      × (keys ≡ list_api_keys like (record filter { user_id = c.user_id }) s)
unfolding list own_filter require_permission
list-user like env c filter s keys (same, (no_system, no_admin)) h = ground arith

-- The List of API keys shows a caller who is neither the system nor an administrator only the
-- caller's own keys, whatever the filter asks for.
pub list_owned :
    (like : Like) (env : Env) (c : Caller) (filter : ApiKeyFilter) (s : Store) (keys : List ApiKey)
    → IsPlain env c s
    → (list like env filter s).0 ≡ ok keys
    → any (λ k. not (k.user_id == c.user_id)) keys ≡ false
unfolding list_api_keys
list_owned like env c filter s keys plain h =
    let (full, same) = list-user like env c filter s keys plain h in
    let f = record filter { user_id = c.user_id } in
    let other : ApiKey → Bool = λ k. not (k.user_id == c.user_id) in
    let before = λ (a b : ApiKey). leb b.created_at a.created_at in
    let rows = keep (matches_key like f) s.api_keys in
    ap (any other) same
    ∙ any-paginate other (some filter.page) (sort_by before rows)
        (any-sort_by before other rows ∙ none_of_others like f c.user_id s.api_keys refl full)
