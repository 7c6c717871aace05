-- ===== src/Storage/User/Listing.antt =====
-- internal/storage/user_sqlite.go: the lists and counts of users. LIKE is a parameter.
use rackd.Prelude.{
  ℕ, Bool, true, ◌&&◌, Option, none, some, List, leb, if◌then◌else◌, keep, find, length, not,
}
use rackd.Text.{Text, ◌==◌, is_empty}
use rackd.Error.{Result, err, user_not_found, message, or_error}
use rackd.Model.{User}
use rackd.Store.{Store}
use rackd.Storage.Order.{Like, contains_part, Pagination, paginate, sort_by}

-- GetUserByEmail
unfoldable pub get_user_by_email : Text → Store → Result User
get_user_by_email email s =
    if is_empty email
    then err (message "email cannot be empty")
    else or_error (find (λ u. u.email == email) s.users) user_not_found

-- model.UserFilter
pub record UserFilter : Type 0 where
  pub page : Pagination
  pub username : Text
  pub email : Text
  pub is_active : Option Bool
  pub is_admin : Option Bool

abbrev is_asked : Option Bool → Bool → Bool
is_asked none b = true
is_asked (some c) b = if c then b else not b

unfoldable pub matches_user : Like → Option UserFilter → User → Bool
matches_user like none u = true
matches_user like (some f) u =
    contains_part like f.username u.username
    && contains_part like f.email u.email
    && is_asked f.is_active u.is_active
    && is_asked f.is_admin u.is_admin

abbrev page_of : Option UserFilter → Option Pagination
page_of none = none
page_of (some f) = some f.page

-- ListUsers
unfoldable pub list_users : Like → Option UserFilter → Store → List User
list_users like filter s =
    paginate (page_of filter)
      (sort_by (λ a b. leb b.created_at a.created_at) (keep (matches_user like filter) s.users))

-- UserCount
abbrev pub user_count : Store → ℕ
user_count s = length s.users
