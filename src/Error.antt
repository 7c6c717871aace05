-- ===== src/Error.antt =====
-- The error values of internal/storage/storage.go and internal/service/errors.go, and the results
-- of functions that may fail. A text of an error is a fixed `String`: the program never reads it.
use Prim.Native.String.{String}
use rackd.Prelude.{◌≡◌, refl, ◌⊎◌, inl, inr, List, [], ◌∷◌, Option, none, some}

-- A constraint of the schema that a statement breaks.
pub data SqlError : Type 0 where
  unique_failed foreign_key_failed check_failed : SqlError

-- service.ValidationError
pub record ValidationError : Type 0 where
  pub field : String
  pub message : String

pub data Error : Type 0 where
  invalid_id network_not_found pool_not_found ip_not_available ip_conflict : Error
  reservation_not_found ip_already_reserved role_not_found permission_not_found user_not_found :
      Error
  not_found already_exists forbidden unauthenticated system_role self_delete : Error
  api_key_not_found datacenter_not_found device_not_found : Error
  custom_field_not_found duplicate_field_key conflict_not_found : Error
  oauth_client_not_found oauth_code_not_found oauth_code_expired oauth_code_used : Error
  oauth_token_not_found oauth_token_revoked oauth_token_expired : Error
  oauth_invalid_client oauth_invalid_redirect_uri oauth_invalid_response_type : Error
  oauth_invalid_grant_type oauth_invalid_code_challenge oauth_invalid_code_verifier : Error
  oauth_invalid_client_secret oauth_client_name_required oauth_redirect_uri_required : Error
  -- service.ErrIPNotAvailable; that of storage is `ip_not_available`
  no_ip_available : Error
  -- no error of the program: a loop that does not end
  diverged : Error
  -- service.ValidationErrors
  validation : List ValidationError → Error
  -- an error made by fmt.Errorf, and one that wraps an error of the database
  message : String → Error
  failed : String → SqlError → Error
  -- an error of the database as it is
  database : SqlError → Error

pub data Result {ℓ} (A : Type ℓ) : Type ℓ where
  ok : A → Result A
  err : Error → Result A

-- One ValidationError
abbrev pub invalid : String → String → Error
invalid f m = validation (record { field = f; message = m } ∷ [])

module _ {ℓ} {A : Type ℓ} where
  abbrev pub or_error : Option A → Error → Result A
  or_error none e = err e
  or_error (some a) e = ok a

  abbrev pub map_error : (Error → Error) → Result A → Result A
  map_error f (ok a) = ok a
  map_error f (err e) = err (f e)

  pub Result-cases : (r : Result A) → ((a : A) × (r ≡ ok a)) ⊎ ((e : Error) × (r ≡ err e))
  Result-cases (ok a) = inl (a, refl)
  Result-cases (err e) = inr (e, refl)
