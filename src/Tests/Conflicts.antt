-- ===== src/Tests/Conflicts.antt =====
-- Conflicts of two devices that have one address.
use rackd.Prelude.{not, count, ◌≡◌, ◌↔◌, refl, true, false, none, [], ◌∷◌, any, ◌&&◌, map}
use rackd.Text.{Text, codes, ◌==◌, is_empty}
use rackd.Error.{ok}
use rackd.Model.{DeviceRow, AddressRow}
use rackd.Model.Conflict.{Conflict}
use rackd.Model.Device.{Device}
use rackd.Store.{Store, enqueue}
use rackd.Net.{Ip, v4}
use rackd.Net.IpNet.{IpNet, contains}
use rackd.Storage.Order.{sort_by, insert_by}
use rackd.Storage.Pool.{network_exists, pool_exists}
use rackd.Storage.Conflict.{
  duplicate_ip, active, resolved, get_conflict, update_conflict_status, get_conflicts_by_ip,
}
use rackd.Storage.Conflict.Find.{networks_overlap, find_duplicate_ips, duplicates}
use rackd.Storage.Conflict.Overlap.{networks_overlap_iff}
use rackd.Storage.CustomField.View.{get_custom_field_values_with_definitions}
use rackd.Storage.Device.{
  device_row, has_device, insert_address, insert_device_addresses, insert_device_tag,
  insert_device_tags, insert_device_domain, insert_device_domains, insert_custom_field_value,
  insert_device_custom_field, insert_device_custom_fields, insert_parts,
}
use rackd.Storage.Device.Read.{get_device}
use rackd.Storage.Device.Change.{stamp_device, update_device, update_device_in_tx, rewrite_device}
use rackd.Service.Access.{require_permission, is_system, in_scope, enrich_audit}
use rackd.Service.Conflict.{
  ConflictResolution, resolve, resolve_duplicate_ip, take_ip, take_ips, record_duplicate,
  record_duplicates, detect_duplicate_ips, refresh,
}
use rackd.Service.Conflict.Taken.{holds_ip}
use rackd.Service.Conflict.Resolve.{resolve_leaves_one}
use rackd.Service.Conflict.Notes.{detect_duplicate_ips_clears}
use rackd.Service.Device.{check_for_ip_conflicts}
use rackd.Service.Device.Watch.{AllKnown, check_for_ip_conflicts-known}
use rackd.Tests.Fixtures.{env, empty_store}
use rackd.Tests.Devices.{server, address}

runs : Unit {0}
unfolding ◌==◌ network_exists pool_exists enqueue sort_by insert_by update_device
    update_device_in_tx rewrite_device get_device insert_address insert_device_addresses
    insert_device_tag insert_device_tags insert_device_domain insert_device_domains
    insert_custom_field_value insert_device_custom_field insert_device_custom_fields insert_parts
    get_custom_field_values_with_definitions require_permission is_system in_scope enrich_audit
    resolve resolve_duplicate_ip take_ip take_ips get_conflict update_conflict_status
    find_duplicate_ips duplicates detect_duplicate_ips record_duplicates record_duplicate refresh
    get_conflicts_by_ip
runs = tt

abbrev first : DeviceRow
first = device_row (stamp_device env server)

abbrev second : DeviceRow
second = record first { id = codes "v2"; name = codes "web,02" }

abbrev row : Text → Text → AddressRow
row id device = record {
  id = id;
  device_id = device;
  ip = codes "10.0.0.3";
  port = none;
  type = codes "ipv4";
  label = [];
  network_id = none;
  switch_port = none;
  pool_id = none;
}

abbrev conflict : Conflict
conflict = record {
  id = codes "c1";
  type = duplicate_ip;
  status = active;
  description = [];
  ip_address = codes "10.0.0.3";
  device_ids = codes "v1" ∷ codes "v2" ∷ [];
  device_names = codes "web-01" ∷ codes "web,02" ∷ [];
  network_ids = [];
  network_names = [];
  subnets = [];
  detected_at = 50;
  resolved_at = none;
  resolved_by = [];
  notes = codes "ask ann";
}

abbrev clash : Store
clash = record empty_store {
  devices = first ∷ second ∷ [];
  addresses = row (codes "a1") (codes "v1") ∷ row (codes "a2") (codes "v2") ∷ [];
  conflicts = conflict ∷ [];
}

-- A comma in the name of a device splits the name.
names_test :
    map {A = Conflict} (λ c. c.device_names) (find_duplicate_ips env clash)
    ≡ (codes "web-01" ∷ codes "web" ∷ codes "02" ∷ []) ∷ []
unfolding runs
names_test = refl

abbrev keep_first : ConflictResolution
keep_first = record {
  conflict_id = codes "c1";
  keep_device_id = codes "v1";
  keep_network_id = [];
  notes = [];
}

resolved_test : (resolve env keep_first clash).0 ≡ ok tt
unfolding runs
resolved_test = refl

found_test : get_conflict (codes "c1") clash ≡ ok conflict
unfolding runs
found_test = refl

listed : any (λ i. i == codes "v2") conflict.device_ids ≡ true
unfolding runs
listed = refl

not_kept : codes "v2" == codes "v1" ≡ false
unfolding runs
not_kept = refl

second_there : has_device (codes "v2") clash ≡ true
unfolding runs
second_there = refl

resolve_leaves_one_example :
    any (holds_ip (codes "v2") (codes "10.0.0.3")) (resolve env keep_first clash).1.addresses
    ≡ false
resolve_leaves_one_example =
    resolve_leaves_one env keep_first conflict (codes "v2") clash resolved_test found_test refl refl
      listed not_kept refl second_there

known_row :
    any
      (λ c. (c.id == codes "c1" && c.status == active) && c.ip_address == conflict.ip_address)
      clash.conflicts
    ≡ true
unfolding runs
known_row = refl

found_again : any (λ c. c.ip_address == conflict.ip_address) (find_duplicate_ips env clash) ≡ true
unfolding runs
found_again = refl

detected : (detect_duplicate_ips env clash).0 ≡ ok (find_duplicate_ips env clash)
unfolding runs
detected = refl

detect_duplicate_ips_clears_example :
    (any
        (λ c. c.id == codes "c1" && not (is_empty c.notes))
        (detect_duplicate_ips env clash).1.conflicts
      ≡ false)
    × (count (λ c. c.ip_address == conflict.ip_address) (detect_duplicate_ips env clash).1.conflicts
        ≡ count (λ c. c.ip_address == conflict.ip_address) clash.conflicts)
detect_duplicate_ips_clears_example =
    detect_duplicate_ips_clears env (find_duplicate_ips env clash) (codes "c1") conflict.ip_address
      clash detected found_again known_row refl refl

abbrev settled : Store
settled = record clash { conflicts = record conflict { status = resolved } ∷ [] }

-- A device with the address, and with an empty one
abbrev two_addresses : Device
two_addresses = record server { addresses = address ∷ record address { ip = [] } ∷ [] }

known : AllKnown two_addresses.addresses settled
unfolding runs
known = (refl, (refl, tt))

check_for_ip_conflicts-known_example :
    check_for_ip_conflicts true (λ id n. false) env two_addresses settled ≡ settled
check_for_ip_conflicts-known_example =
    check_for_ip_conflicts-known true (λ id n. false) env two_addresses settled known

abbrev wide : IpNet
wide = record { ip = v4 (10 ∷ 0 ∷ 0 ∷ 0 ∷ []); ones = 8 }

abbrev narrow : IpNet
narrow = record { ip = v4 (10 ∷ 1 ∷ 0 ∷ 0 ∷ []); ones = 16 }

networks_overlap_iff_example :
    (networks_overlap wide narrow ≡ true)
    ↔ ((x : Ip) × (contains wide x ≡ true) × (contains narrow x ≡ true))
networks_overlap_iff_example = networks_overlap_iff wide narrow
