-- ===== src/Store.antt =====
-- SQLiteStorage (internal/storage/sqlite.go): the tables, the queue of audit entries, and methods as
-- state passing. A statement has its SQL meaning over the rows; a failure of the driver is not
-- modelled, a broken constraint is.
use rackd.Prelude.{ℕ, Bool, none, some, List, [], ◌∷◌, ◌++◌, ltb, if◌then◌else◌, length}
use rackd.Text.{Text}
use rackd.Error.{Error, Result, ok, err}
use rackd.Model.{
  Time, Network, NetworkPool, PoolTag, AddressRow, ReservationRow, Permission, Role, RolePermission,
  UserRole, User, AuditLog, Context, Datacenter, DeviceRow, DeviceRelationship, ApiKey,
}
use rackd.Model.Device.{DeviceTag, DeviceDomain, CustomFieldDefinition, CustomFieldValue}
use rackd.Model.Conflict.{Conflict}
use rackd.Model.Oauth.{OauthClient, OauthAuthorizationCode, OauthToken}

pub record Store : Type 0 where
  pub datacenters : List Datacenter
  pub networks : List Network
  -- the column of tags is the table pool_tags; here it is kept empty
  pub network_pools : List NetworkPool
  pub pool_tags : List PoolTag
  pub devices : List DeviceRow
  pub relationships : List DeviceRelationship
  pub addresses : List AddressRow
  pub tags : List DeviceTag
  pub domains : List DeviceDomain
  pub custom_field_definitions : List CustomFieldDefinition
  pub custom_field_values : List CustomFieldValue
  pub conflicts : List Conflict
  pub reservations : List ReservationRow
  pub permissions : List Permission
  pub roles : List Role
  pub role_permissions : List RolePermission
  pub user_roles : List UserRole
  pub users : List User
  pub api_keys : List ApiKey
  pub oauth_clients : List OauthClient
  pub oauth_codes : List OauthAuthorizationCode
  pub oauth_tokens : List OauthToken
  -- the network_id of the rows of discovered_devices, discovery_scans and discovery_rules
  pub discovery_networks : List Text
  -- the promoted_to_device_id of the rows of discovered_devices
  pub promoted_devices : List Text
  -- auditChan
  pub audit_queue : List AuditLog

-- What a method needs from outside: the caller's context, the clock and the next UUIDs.
pub record Env : Type 0 where
  pub ctx : Context
  pub now : Time
  pub uuid : Text
  -- the UUIDs of the rows that a loop inserts, by number
  pub row_uuid : ℕ → Text

abbrev pub Exec {ℓ} : Type ℓ → Type ℓ
Exec A = Store → Result A × Store

module _ {ℓ} {A : Type ℓ} where
  abbrev pub return : A → Exec A
  return a s = (ok a, s)

  abbrev pub raise : Error → Exec A
  raise e s = (err e, s)

  -- A query: it reads the store and leaves it.
  abbrev pub query : (Store → Result A) → Exec A
  query f s = (f s, s)

  abbrev pub ask : (Store → A) → Exec A
  ask f s = (ok (f s), s)

  -- BeginTx … Commit with the deferred Rollback: an error leaves the store as it was.
  abbrev pub transaction : Exec A → Exec A
  transaction m s = elim (m s).0 [ ok a ↦ (ok a, (m s).1) | err e ↦ (err e, s) ]

infixl 5 ◌>>=◌ ◌>>◌
abbrev pub ◌>>=◌ {ℓ κ} : {A : Type ℓ} {B : Type κ} → Exec A → (A → Exec B) → Exec B
◌>>=◌ m f s = elim (m s).0 [ ok a ↦ f a (m s).1 | err e ↦ (err e, (m s).1) ]

abbrev pub ◌>>◌ {ℓ κ} : {A : Type ℓ} {B : Type κ} → Exec A → Exec B → Exec B
m >> n = m >>= λ _. n

-- if test { return e }
abbrev pub fail_if : Bool → Error → Exec (Unit {0})
fail_if test e s = (if test then err e else ok tt, s)

abbrev pub modify : (Store → Store) → Exec (Unit {0})
modify f s = (ok tt, f s)

abbrev pub queue_size : ℕ
queue_size = 1000

-- SQLiteStorage.auditLog: nothing without an audit context; a full queue drops the entry.
unfoldable pub enqueue : Env → Text → Text → Text → Store → Store
enqueue env action resource resource_id s = elim env.ctx.audit [
  | none ↦ s
  | some by ↦
      if ltb (length s.audit_queue) queue_size
      then record s {
        audit_queue =
            s.audit_queue
            ++ record {
              timestamp = env.now;
              action = action;
              resource = resource;
              resource_id = resource_id;
              by = by;
            }
              ∷ [];
      }
      else s
]

abbrev pub audit_log : Env → Text → Text → Text → Exec (Unit {0})
audit_log env action resource resource_id = modify (enqueue env action resource resource_id)

-- newUUID for an empty ID
abbrev pub or_uuid : Env → Text → Text
or_uuid env [] = env.uuid
or_uuid env (c ∷ id) = c ∷ id
