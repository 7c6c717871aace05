-- ===== src/Auth/Rbac.antt =====
-- internal/auth/rbac.go: tests of several permissions by name. The Checker is a parameter: what its
-- HasPermission says of the user for a resource and an action. IsAdmin is in Storage/Rbac.
pub mod Laws
use rackd.Prelude.{Bool, true, false, List, [], ◌∷◌, ◌++◌, nat_eq, if◌then◌else◌}
use rackd.Text.{Text, is_empty}
use rackd.Error.{Result, ok, err, message}

abbrev pub Checker : Type 0
Checker = Text → Text → Result Bool

-- The loop of parsePermissionName, with the text in front of the current position
unfoldable pub split_colon : Text → Text → Result (Text × Text)
split_colon before [] = err (message "invalid permission name")
split_colon before (c ∷ rest) =
    if nat_eq c b':'
    then if is_empty before then err (message "invalid permission name") else ok (before, rest)
    else split_colon (before ++ c ∷ []) rest

-- parsePermissionName
unfoldable pub parse_permission_name : Text → Result (Text × Text)
parse_permission_name name = split_colon [] name

-- The test of one name in the loops
abbrev pub check_name : Checker → Text → Result Bool
check_name checker name = elim (parse_permission_name name) [
  | ok (resource, action) ↦ checker resource action
  | err e ↦ err e
]

-- HasAnyPermission
unfoldable pub has_any_permission : Checker → List Text → Result Bool
has_any_permission checker [] = ok false
has_any_permission checker (name ∷ permissions) = elim (check_name checker name) [
  | err e ↦ err e
  | ok true ↦ ok true
  | ok false ↦ has_any_permission checker permissions
]

-- HasAllPermissions
unfoldable pub has_all_permissions : Checker → List Text → Result Bool
has_all_permissions checker [] = ok true
has_all_permissions checker (name ∷ permissions) = elim (check_name checker name) [
  | err e ↦ err e
  | ok true ↦ has_all_permissions checker permissions
  | ok false ↦ ok false
]
