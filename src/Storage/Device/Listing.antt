-- ===== src/Storage/Device/Listing.antt =====
-- internal/storage/device_sqlite.go: ListDevices and GetDeviceStatusCounts, with GetDatacenterDevices,
-- GetNetworkDevices and GetRelatedDevices, which read devices too. A list has no custom fields.
use rackd.Prelude.{
  ℕ, zero, suc, Bool, true, not, ◌&&◌, ◌||◌, Option, none, some, List, [], ◌∷◌, ◌++◌, map,
  if◌then◌else◌, any, keep, count,
}
use rackd.Text.{Text, ◌==◌, is_empty}
use rackd.Error.{Result, ok, err, invalid_id, datacenter_not_found, network_not_found}
use rackd.Model.{DeviceRow, DeviceRelationship, AddressRow}
use rackd.Model.Device.{Device, DeviceTag}
use rackd.Store.{Store}
use rackd.Storage.Order.{Pagination, paginate, text_leb, sort_by, ℤ, pos, negsuc}
use rackd.Storage.Pool.{is_id, network_exists}
use rackd.Storage.Network.{distinct}
use rackd.Storage.Device.{active}
use rackd.Storage.Device.Read.{to_device}

-- Some discovered device that was promoted to the device was seen in the last days; discovered_devices
-- is a table of the discovery.
abbrev pub Seen : Type 0
Seen = Text → ℕ → Bool

-- model.DeviceFilter, without CustomFields, which nothing reads
pub record DeviceFilter : Type 0 where
  pub page : Pagination
  pub tags : List Text
  pub datacenter_id : Text
  pub network_id : Text
  pub pool_id : Text
  pub status : Text
  pub stale_days : ℤ

abbrev pub no_filter : DeviceFilter
no_filter = record {
  page = record { limit = pos 0; offset = pos 0 };
  tags = [];
  datacenter_id = [];
  network_id = [];
  pool_id = [];
  status = [];
  stale_days = pos 0;
}

-- id IN (SELECT device_id FROM addresses WHERE …)
abbrev has_address : (AddressRow → Bool) → Text → Store → Bool
has_address test id s = any (λ a. a.device_id == id && test a) s.addresses

abbrev has_tag : Store → Text → Text → Bool
has_tag s id tag = any {A = DeviceTag} (λ t. t.device_id == id && t.tag == tag) s.tags

abbrev has_tags : Store → Text → List Text → Bool
has_tags s id [] = true
has_tags s id (tag ∷ tags) = has_tag s id tag && has_tags s id tags

abbrev is_stale : Seen → ℤ → DeviceRow → Bool
is_stale seen (negsuc n) d = true
is_stale seen (pos zero) d = true
is_stale seen (pos (suc n)) d = d.status == active && not (seen d.id (suc n))

abbrev matches_device : Seen → Store → Option DeviceFilter → DeviceRow → Bool
matches_device seen s none d = true
matches_device seen s (some f) d =
    (is_empty f.datacenter_id || d.datacenter_id == f.datacenter_id)
    && (is_empty f.network_id || has_address (λ a. is_id f.network_id a.network_id) d.id s)
    && (is_empty f.pool_id || has_address (λ a. is_id f.pool_id a.pool_id) d.id s)
    && (is_empty f.status || d.status == f.status)
    && has_tags s d.id f.tags
    && is_stale seen f.stale_days d

abbrev page_of : Option DeviceFilter → Option Pagination
page_of none = none
page_of (some f) = some f.page

-- ListDevices
unfoldable pub list_devices : Seen → Option DeviceFilter → Store → List Device
list_devices seen filter s = map (to_device s []) (
    paginate (page_of filter)
      (sort_by (λ a b. text_leb a.name b.name) (keep (matches_device seen s filter) s.devices)))

-- GetDeviceStatusCounts: the groups of GROUP BY status, each with its COUNT(*)
unfoldable pub get_device_status_counts : Store → List (Text × ℕ)
get_device_status_counts s =
    map {B = Text × ℕ} (λ t. (t, count {A = DeviceRow} (λ d. d.status == t) s.devices))
      (distinct (map {A = DeviceRow} (λ d. d.status) s.devices))

-- GetDatacenterDevices
unfoldable pub get_datacenter_devices : Seen → Text → Store → Result (List Device)
get_datacenter_devices seen id s =
    if is_empty id
    then err invalid_id
    else if any (λ d. d.id == id) s.datacenters
    then ok (list_devices seen (some (record no_filter { datacenter_id = id })) s)
    else err datacenter_not_found

-- GetNetworkDevices
unfoldable pub get_network_devices : Seen → Text → Store → Result (List Device)
unfolding network_exists
get_network_devices seen id s =
    if is_empty id
    then err invalid_id
    else if network_exists id s
    then ok (list_devices seen (some (record no_filter { network_id = id })) s)
    else err network_not_found

-- A row of the join of devices and device_relationships that the query selects
abbrev joins : Text → Text → DeviceRow → DeviceRelationship → Bool
joins id type d r =
    (d.id == r.child_id || d.id == r.parent_id)
    && (r.parent_id == id || r.child_id == id)
    && r.type == type
    && not (d.id == id)

-- The columns that GetRelatedDevices reads: the host name and all about the status are left out.
abbrev related_columns : Device → Device
related_columns d = record d {
  hostname = [];
  status = [];
  decommission_date = none;
  status_changed_at = none;
  status_changed_by = [];
}

abbrev repeat : ℕ → Device → List Device
repeat zero d = []
repeat (suc n) d = d ∷ repeat n d

abbrev joined : Store → Text → Text → List DeviceRow → List Device
joined s id type [] = []
joined s id type (d ∷ devices) =
    repeat (count (joins id type d) s.relationships) (related_columns (to_device s [] d))
    ++ joined s id type devices

-- GetRelatedDevices, in the order of the devices
unfoldable pub get_related_devices : Text → Text → Store → List Device
get_related_devices id type s = joined s id type s.devices
