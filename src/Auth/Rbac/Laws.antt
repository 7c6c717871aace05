-- ===== src/Auth/Rbac/Laws.antt =====
-- internal/auth/rbac.go: names of permissions against the keys that requirePermission makes.
use rackd.Prelude.{
  ℕ, ◌≡◌, refl, ap, append-nil, Bool, false, not, List, [], ◌∷◌, ◌++◌, nat_eq, any, arith,
}
use rackd.Text.{Text, is_empty}
use rackd.Error.{Result, ok, err}
use rackd.Service.Access.{scope_key}
use rackd.Auth.Rbac.{
  Checker, split_colon, parse_permission_name, has_any_permission, has_all_permissions,
}

abbrev pub has_colon : Text → Bool
has_colon t = any (λ c. nat_eq c b':') t

append_one : (s t : Text) (c : ℕ) → (s ++ c ∷ []) ++ t ≡ s ++ c ∷ t
append_one [] t c = refl
append_one (a ∷ s) t c = ap (λ (u : Text). a ∷ u) (append_one s t c)

split_colon-key :
    (before resource action : Text)
    → has_colon resource ≡ false
    → is_empty (before ++ resource) ≡ false
    → split_colon before (resource ++ b':' ∷ action) ≡ ok (before ++ resource, action)
unfolding split_colon
split_colon-key before [] action h e = ground (arith, append-nil before)
split_colon-key before (c ∷ resource) action h e =
    ground (arith, split_colon-key (before ++ c ∷ []) resource action, append_one before resource c)

-- parsePermissionName gives back the resource and the action of a key.
pub parse_permission_name-scope_key :
    (resource action : Text)
    → is_empty resource ≡ false
    → has_colon resource ≡ false
    → parse_permission_name (scope_key resource action) ≡ ok (resource, action)
unfolding parse_permission_name
parse_permission_name-scope_key resource action e h = split_colon-key [] resource action h e

abbrev pub negate : Result Bool → Result Bool
negate (ok b) = ok (not b)
negate (err e) = err e

-- All of some permissions are denied exactly if none of them is granted.
pub has_all_permissions-negate :
    (checker : Checker) (names : List Text)
    → has_all_permissions (λ resource action. negate (checker resource action)) names
      ≡ negate (has_any_permission checker names)
unfolding has_all_permissions has_any_permission
has_all_permissions-negate checker [] = refl
has_all_permissions-negate checker (name ∷ names) =
    ground (arith, has_all_permissions-negate checker names)
