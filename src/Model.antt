-- ===== src/Model.antt =====
-- The records of internal/model and internal/service/caller.go that the modelled parts pass around,
-- and the rows of the SQLite tables of internal/storage/migrations.go.
pub mod Oauth
pub mod Device
pub mod Conflict
pub mod CustomField
use rackd.Prelude.{ℕ, Bool, Option, List}
use rackd.Text.{Text}

-- time.Time: nanoseconds since January 1, year 1 UTC, so that 0 is the zero time of IsZero.
abbrev pub Time : Type 0
Time = ℕ

-- model.Datacenter
pub record Datacenter : Type 0 where
  pub id : Text
  pub name : Text
  pub location : Text
  pub description : Text
  pub created_at : Time
  pub updated_at : Time

-- model.Network; a negative VLAN is not modelled.
pub record Network : Type 0 where
  pub id : Text
  pub name : Text
  pub subnet : Text
  pub vlan_id : ℕ
  pub datacenter_id : Text
  pub description : Text
  pub created_at : Time
  pub updated_at : Time

-- model.NetworkPool
pub record NetworkPool : Type 0 where
  pub id : Text
  pub network_id : Text
  pub name : Text
  pub start_ip : Text
  pub end_ip : Text
  pub description : Text
  pub tags : List Text
  pub created_at : Time
  pub updated_at : Time

-- A row of pool_tags.
pub record PoolTag : Type 0 where
  pub pool_id : Text
  pub tag : Text

-- A row of devices; an empty text is NULL in the columns that may be.
pub record DeviceRow : Type 0 where
  pub id : Text
  pub name : Text
  pub hostname : Text
  pub description : Text
  pub make_model : Text
  pub os : Text
  pub datacenter_id : Text
  pub username : Text
  pub location : Text
  pub status : Text
  pub decommission_date : Option Time
  pub status_changed_at : Option Time
  pub status_changed_by : Text
  pub created_at : Time
  pub updated_at : Time

-- model.DeviceRelationship
pub record DeviceRelationship : Type 0 where
  pub parent_id : Text
  pub child_id : Text
  pub type : Text
  pub notes : Text
  pub created_at : Time

-- A row of addresses; `none` is NULL, and a negative port is not modelled.
pub record AddressRow : Type 0 where
  pub id : Text
  pub device_id : Text
  pub ip : Text
  pub port : Option ℕ
  pub type : Text
  pub label : Text
  pub network_id : Option Text
  pub switch_port : Option Text
  pub pool_id : Option Text

-- model.ReservationStatus is a string; the constants are in Storage/Reservation.
pub record Reservation : Type 0 where
  pub id : Text
  pub pool_id : Text
  pub ip_address : Text
  pub hostname : Text
  pub purpose : Text
  pub reserved_by : Text
  pub reserved_at : Time
  pub expires_at : Option Time
  pub status : Text
  pub notes : Text
  pub created_at : Time
  pub updated_at : Time

-- A row of reservations: the texts that may be NULL are optional.
pub record ReservationRow : Type 0 where
  pub id : Text
  pub pool_id : Text
  pub ip_address : Text
  pub hostname : Option Text
  pub purpose : Option Text
  pub reserved_by : Text
  pub reserved_at : Time
  pub expires_at : Option Time
  pub status : Text
  pub notes : Option Text
  pub created_at : Time
  pub updated_at : Time

-- model.CreateReservationRequest
pub record CreateReservationRequest : Type 0 where
  pub pool_id : Text
  pub ip_address : Text
  pub hostname : Text
  pub purpose : Text
  pub expires_at : Option Time
  pub notes : Text

-- model.UpdateReservationRequest
pub record UpdateReservationRequest : Type 0 where
  pub hostname : Text
  pub purpose : Text
  pub expires_at : Option Time
  pub notes : Text

-- model.Permission
pub record Permission : Type 0 where
  pub id : Text
  pub name : Text
  pub resource : Text
  pub action : Text
  pub created_at : Time

-- model.Role
pub record Role : Type 0 where
  pub id : Text
  pub name : Text
  pub description : Text
  pub is_system : Bool
  pub created_at : Time
  pub updated_at : Time

-- model.RolePermission
pub record RolePermission : Type 0 where
  pub role_id : Text
  pub permission_id : Text
  pub created_at : Time

-- model.UserRole
pub record UserRole : Type 0 where
  pub user_id : Text
  pub role_id : Text
  pub created_at : Time

-- model.User
pub record User : Type 0 where
  pub id : Text
  pub username : Text
  pub email : Text
  pub full_name : Text
  pub password_hash : Text
  pub is_active : Bool
  pub is_admin : Bool
  pub created_at : Time
  pub updated_at : Time
  pub last_login_at : Option Time

-- service.CallerType
pub data CallerType : Type 0 where
  anonymous user api_key system : CallerType

-- service.Caller; no scopes is the nil slice.
pub record Caller : Type 0 where
  pub kind : CallerType
  pub user_id : Text
  pub username : Text
  pub ip_address : Text
  pub source : Text
  pub scopes : Option (List Text)

-- audit.Context
pub record AuditContext : Type 0 where
  pub user_id : Text
  pub username : Text
  pub ip_address : Text
  pub source : Text

-- The values that a context.Context carries for the program.
pub record Context : Type 0 where
  pub caller : Option Caller
  pub audit : Option AuditContext

-- model.AuditLog, without the JSON text of the change.
pub record AuditLog : Type 0 where
  pub timestamp : Time
  pub action : Text
  pub resource : Text
  pub resource_id : Text
  pub by : AuditContext

-- model.APIKey, whose key is the hash of the text that the caller has
pub record ApiKey : Type 0 where
  pub id : Text
  pub name : Text
  pub key : Text
  pub user_id : Text
  pub description : Text
  pub created_at : Time
  pub last_used_at : Option Time
  pub expires_at : Option Time
