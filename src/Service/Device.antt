-- ===== src/Service/Device.antt =====
-- internal/service/device.go, for a service with no DNS service, whose records are not modelled: the
-- guards in front of the storage of devices, and the conflicts of addresses that a change makes.
pub mod Author
pub mod Watch
use rackd.Prelude.{
  ℕ, suc, ◌+◌, Bool, true, false, not, ◌&&◌, ◌||◌, Option, none, some, List, [], ◌∷◌, map, length,
  ltb, nat_eq, if◌then◌else◌, any, keep,
}
use rackd.Text.{Text, codes, ◌==◌, is_empty}
use rackd.Error.{Error, Result, ok, err, device_not_found, not_found, invalid, map_error}
use rackd.Model.Device.{Address, Device}
use rackd.Model.Conflict.{Conflict}
use rackd.Store.{Store, Env, Exec, return, query, ask, ◌>>=◌, ◌>>◌, fail_if, modify}
use rackd.Storage.Device.Read.{get_device}
use rackd.Storage.Device.Change.{create_device, update_device, delete_device}
use rackd.Storage.Device.Listing.{
  Seen, DeviceFilter, no_filter, list_devices, get_device_status_counts,
}
use rackd.Storage.Conflict.{get_conflicts_by_ip, create_conflict, duplicate_ip, active}
use rackd.Service.Access.{require_permission, enrich_audit}

abbrev as_not_found : Error → Error
as_not_found device_not_found = not_found
as_not_found e = e

abbrev on_error : (Error → Error) → Exec (Unit {0}) → Exec (Unit {0})
on_error f m s = (map_error f (m s).0, (m s).1)

abbrev permit : Env → Text → Exec (Unit {0})
permit env action = require_permission env (codes "devices") action

-- DeviceStatus.IsValid
abbrev pub is_valid_status : Text → Bool
is_valid_status s =
    s == codes "planned"
    || s == codes "active"
    || s == codes "maintenance"
    || s == codes "decommissioned"

-- validateStatus
abbrev validate_status : Text → Exec (Unit {0})
validate_status status = fail_if (not (is_empty status) && not (is_valid_status status)) (
    invalid "status" "Invalid status. Must be one of: planned, active, maintenance, decommissioned")

-- setStatusChangedBy
abbrev pub set_status_changed_by : Env → Device → Device
set_status_changed_by env device = elim env.ctx.caller [
  | none ↦ device
  | some c ↦ if is_empty c.user_id then device else record device { status_changed_by = c.user_id }
]

-- The device has the address.
abbrev pub uses_ip : Text → Device → Bool
uses_ip ip d = any {A = Address} (λ a. a.ip == ip) d.addresses

-- The conflict of an address, without its id and its time
abbrev pub ip_conflict : Text → List Device → Conflict
ip_conflict ip devices = record {
  id = [];
  type = duplicate_ip;
  status = active;
  description = codes "IP address assigned to multiple devices";
  ip_address = ip;
  device_ids = map {A = Device} (λ d. d.id) devices;
  device_names = map {A = Device} (λ d. d.name) devices;
  network_ids = [];
  network_names = [];
  subnets = [];
  detected_at = 0;
  resolved_at = none;
  resolved_by = [];
  notes = [];
}

-- The body of the loop of checkForIPConflicts, with the UUID of a new conflict
unfoldable pub check_ip : Seen → Env → Text → Text → Store → Store
check_ip seen env uuid ip s = elim (get_conflicts_by_ip ip s) [
  | err e ↦ s
  | ok conflicts ↦
      let devices = keep (uses_ip ip) (list_devices seen (some no_filter) s) in
      if not (any (λ c. c.status == active) conflicts)
        && nat_eq (length conflicts) 0
        && ltb 1 (length devices)
      then (create_conflict (record env { uuid = uuid }) (ip_conflict ip devices) s).1
      else s
]

-- The loop of checkForIPConflicts; GetConflictsByIP fails for an empty address.
unfoldable pub check_ips : Seen → Env → ℕ → List Address → Store → Store
check_ips seen env i [] s = s
check_ips seen env i (a ∷ addresses) s =
    check_ips seen env (i + 1) addresses (check_ip seen env (env.row_uuid i) a.ip s)

-- The number of the first UUID that the rows of a device leave
abbrev after_rows : Device → ℕ
after_rows d = length d.addresses + length d.custom_fields

-- checkForIPConflicts; `watched` says that the service has a conflict service.
abbrev pub check_for_ip_conflicts : Bool → Seen → Env → Device → Store → Store
check_for_ip_conflicts false seen env device s = s
check_for_ip_conflicts true seen env device s =
    check_ips seen env (after_rows device) device.addresses s

-- List
unfoldable pub list : Seen → Env → Option DeviceFilter → Exec (List Device)
list seen env filter = do permit env (codes "list"); ask (list_devices seen filter)

-- Create
unfoldable pub create : Bool → Seen → Env → Device → Exec Device
create watched seen env device = do
  permit env (codes "create")
  fail_if (is_empty device.name) (invalid "name" "Name is required")
  validate_status device.status
  created ← create_device (enrich_audit env) (set_status_changed_by env device)
  modify (check_for_ip_conflicts watched seen env created)
  return created

-- Get
unfoldable pub get : Env → Text → Exec Device
get env id = do permit env (codes "read"); query (λ s. map_error as_not_found (get_device id s))

-- Update, which passes ErrDeviceNotFound on
unfoldable pub update : Bool → Seen → Env → Device → Exec Device
update watched seen env device = do
  permit env (codes "update")
  fail_if (is_empty device.id) (invalid "id" "ID is required")
  fail_if (is_empty device.name) (invalid "name" "Name is required")
  validate_status device.status
  updated ← update_device (enrich_audit env) (set_status_changed_by env device)
  modify (check_for_ip_conflicts watched seen env updated)
  return updated

-- Delete
unfoldable pub delete : Env → Text → Exec (Unit {0})
delete env id = do
  permit env (codes "delete")
  on_error as_not_found (delete_device (enrich_audit env) id)

-- GetStatusCounts
unfoldable pub get_status_counts : Env → Exec (List (Text × ℕ))
get_status_counts env = do permit env (codes "list"); ask get_device_status_counts
