-- ===== src/Service/Oauth/Restrict.antt =====
-- internal/service/oauth.go: what the scopes of a token let its caller do.
use rackd.Prelude.{
  ◌≡◌, ◌≢◌, refl, subst, ap, ◌∙◌, true, false, ◌||◌, none, some, List, [], ◌∷◌, any, find, arith,
  All, Option-cases, inl, inr,
}
use rackd.Text.{Text, ◌==◌, codes, eq_iff}
use rackd.Rows.{find-any, any_either}
use rackd.Error.{Result-cases, ok}
use rackd.Model.{Caller, User}
use rackd.Model.Oauth.{OauthToken}
use rackd.Store.{Store, Env}
use rackd.Storage.User.{get_user}
use rackd.Storage.Rbac.Users.{has_permission}
use rackd.Service.Access.{is_system, in_scope, scope_key, require_permission}
use rackd.Service.Access.Decision.{May, require_permission-May}
use rackd.Service.Oauth.{is_nil, caller_scopes, resolve_caller}
use rackd.Service.Oauth.Grants.{narrow}
use rackd.Auth.Oauth.{contains, parse_scopes, join_scopes, intersect_scopes}
use rackd.Auth.Oauth.Scopes.{
  IsScope, parse_scopes-join_scopes, intersect_scopes-IsScope, intersect_scopes-contains,
  intersect_scopes-disjoint,
}

-- N
pub narrow_within :
    (requested scope t : Text)
    → All IsScope (parse_scopes scope)
    → contains (parse_scopes (narrow requested scope)) t ≡ true
    → contains (parse_scopes scope) t ≡ true
unfolding narrow
narrow_within [] scope t k h = h
narrow_within (c ∷ s) scope t k h =
    let allowed = parse_scopes scope in
    let requested = parse_scopes (c ∷ s) in
    let same =
      parse_scopes-join_scopes (intersect_scopes requested allowed)
        (intersect_scopes-IsScope requested allowed k) in
    intersect_scopes-contains requested allowed t (subst (λ xs. contains xs t ≡ true) same h)

get_user-id : (id : Text) (s : Store) (u : User) → get_user id s ≡ ok u → u.id ≡ id
unfolding get_user
get_user-id id s u e = elim (Option-cases (find (λ v. v.id == id) s.users)) [
  | inl f ↦ absurd (ground arith)
  | inr (v, f) ↦
      let found = (find-any (λ w. w.id == id) s.users v f).1 in
      ground (arith, eq_iff u.id id, eq_iff v.id id)
]

pub narrow-disjoint :
    (requested scope : Text)
    → parse_scopes requested ≢ []
    → any (contains (parse_scopes scope)) (parse_scopes requested) ≡ false
    → narrow requested scope ≡ []
unfolding narrow join_scopes parse_scopes
narrow-disjoint [] scope full apart = absurd (full refl)
narrow-disjoint (c ∷ s) scope full apart =
    ap join_scopes
      (intersect_scopes-disjoint (parse_scopes (c ∷ s)) (parse_scopes scope) full apart)

pub caller_scopes-empty : caller_scopes [] ≡ none
unfolding caller_scopes parse_scopes
caller_scopes-empty = refl

pub resolve_caller-ok :
    (token : OauthToken) (address : Text) (s : Store) (c : Caller)
    → resolve_caller token address s ≡ ok c
    → (is_system c ≡ false) × (c.user_id ≡ token.user_id) × (c.scopes ≡ caller_scopes token.scope)
unfolding resolve_caller is_system
resolve_caller-ok token address s c e = elim (Result-cases (get_user token.user_id s)) [
  | inl (u, f) ↦ let same = get_user-id token.user_id s u f in ground arith
  | inr (x, f) ↦ absurd (ground arith)
]

is_nil-full : (xs : List Text) → xs ≢ [] → is_nil xs ≡ false
is_nil-full [] n = absurd (n refl)
is_nil-full (x ∷ xs) n = refl

-- The scopes restrict the caller where there are some, without "*".
caller_scopes-some :
    (scope : Text)
    → parse_scopes scope ≢ []
    → contains (parse_scopes scope) (codes "*") ≡ false
    → caller_scopes scope ≡ some (parse_scopes scope)
unfolding caller_scopes
caller_scopes-some scope full plain = ground (arith, is_nil-full (parse_scopes scope) full)

in_scope-some :
    (words : List Text) (key : Text)
    → in_scope (some words) key ≡ true
    → any (λ u. u == key || u == codes "*") words ≡ true
unfolding in_scope
in_scope-some words key h = h

-- The caller of a token that has scopes, none of them *, passes requirePermission only if
-- resource:action is one of the scopes and a role of the token's user grants the permission.
pub resolve_caller_within :
    (token : OauthToken) (address resource action : Text) (s t : Store) (env : Env) (c : Caller)
    → resolve_caller token address s ≡ ok c
    → parse_scopes token.scope ≢ []
    → contains (parse_scopes token.scope) (codes "*") ≡ false
    → env.ctx.caller ≡ some c
    → (require_permission env resource action t).0 ≡ ok tt
    → (contains (parse_scopes token.scope) (scope_key resource action) ≡ true)
      × (has_permission token.user_id resource action t ≡ true)
resolve_caller_within token address resource action s t env c e full plain same may =
    let (not_system, id, scopes) = resolve_caller-ok token address s c e in
    let key = scope_key resource action in
    let it : May (some c) resource action t =
      subst (λ d. May d resource action t) same
        ((require_permission-May env resource action t).0 may) in
    elim it [
      | inl k ↦ absurd (ground arith)
      | inr (given, inside, has) ↦
          let words = parse_scopes token.scope in
          let listed : any (λ u. u == key || u == codes "*") words ≡ true =
            in_scope-some words key (
              subst (λ o. in_scope o key ≡ true)
                (scopes ∙ caller_scopes-some token.scope full plain) inside) in
          (
            any_either (λ u. u == key || u == codes "*") (λ u. u == key) (λ u. u == codes "*") words
                (λ u h. h) plain listed,
            subst (λ i. has_permission i resource action t ≡ true) id has,
          )
    ]
