-- ===== src/Storage/Conflict/Find.antt =====
-- internal/storage/conflict_sqlite.go: FindDuplicateIPs and FindOverlappingSubnets.
use rackd.Prelude.{
  ℕ, zero, suc, ◌+◌, ◌/◌, ◌%◌, Bool, not, ◌&&◌, ◌||◌, none, some, List, [], ◌∷◌, ◌++◌, map, length,
  ltb, nat_eq, if◌then◌else◌, any, keep, find,
}
use rackd.Text.{Text, codes, ◌==◌, is_empty}
use rackd.Model.{AddressRow, DeviceRow, Network}
use rackd.Model.Conflict.{Conflict}
use rackd.Store.{Store, Env}
use rackd.Storage.Order.{text_leb, sort_by}
use rackd.Storage.Network.{distinct}
use rackd.Net.IpNet.{IpNet, parse_net, contains}
use rackd.Storage.Conflict.{duplicate_ip, overlapping_subnet, active}

-- The digits of a number, with as much fuel as the number and one more
abbrev digits_from : ℕ → ℕ → Text → Text
digits_from zero n acc = acc
digits_from (suc fuel) n acc =
    let rest : Text = digits_from fuel (n / 10) ((b'0' + n % 10) ∷ acc) in
    if ltb n 10 then (b'0' + n) ∷ acc else rest

abbrev format_number : ℕ → Text
format_number n = digits_from (suc n) n []

-- GROUP_CONCAT
abbrev pub join_commas : List Text → Text
join_commas [] = []
join_commas (t ∷ []) = t
join_commas (t ∷ u ∷ ts) = t ++ b',' ∷ join_commas (u ∷ ts)

-- The parts after the first comma, and the part before it
abbrev pub split_parts : Text → Text × List Text
split_parts [] = ([], [])
split_parts (b ∷ s) =
    let rest = split_parts s in
    if nat_eq b b',' then ([], rest.0 ∷ rest.1) else (b ∷ rest.0, rest.1)

-- strings.Split at the commas
abbrev pub split_commas : Text → List Text
split_commas s = (split_parts s).0 ∷ (split_parts s).1

-- The device of an address
abbrev device_name : Store → AddressRow → Text
device_name s a = elim (find (λ d. d.id == a.device_id) s.devices) [ none ↦ [] | some d ↦ d.name ]

-- The rows of addresses JOIN devices that have an address
abbrev pub joined : Store → List AddressRow
joined s =
    keep {A = AddressRow}
      (λ a. not (is_empty a.ip) && any {A = DeviceRow} (λ d. d.id == a.device_id) s.devices)
      s.addresses

-- The conflict of an address, with the rows of its group
abbrev duplicate_conflict : Env → ℕ → Store → Text → List AddressRow → Conflict
duplicate_conflict env i s ip rows = record {
  id = env.row_uuid i;
  type = duplicate_ip;
  status = active;
  description =
      codes "IP address "
      ++ ip
      ++ codes " is assigned to "
      ++ format_number (length rows)
      ++ codes " devices";
  ip_address = ip;
  device_ids = split_commas (join_commas (map {A = AddressRow} (λ a. a.device_id) rows));
  device_names = split_commas (join_commas (map (device_name s) rows));
  network_ids = [];
  network_names = [];
  subnets = [];
  detected_at = env.now;
  resolved_at = none;
  resolved_by = [];
  notes = [];
}

-- The groups with more than one row
unfoldable pub duplicates : Env → ℕ → Store → List Text → List Conflict
duplicates env i s [] = []
duplicates env i s (ip ∷ ips) =
    let rows = keep {A = AddressRow} (λ a. a.ip == ip) (joined s) in
    let more : List Conflict = duplicate_conflict env i s ip rows ∷ duplicates env (i + 1) s ips in
    let rest : List Conflict = duplicates env i s ips in if ltb 1 (length rows) then more else rest

-- FindDuplicateIPs, with the groups in the order of their addresses
unfoldable pub find_duplicate_ips : Env → Store → List Conflict
find_duplicate_ips env s =
    duplicates env 0 s (sort_by text_leb (distinct (map {A = AddressRow} (λ a. a.ip) (joined s))))

-- networkInfo
pub record NetworkInfo : Type 0 where
  pub id : Text
  pub name : Text
  pub subnet : Text
  pub ip_net : IpNet

-- The networks whose subnet can be parsed
abbrev network_infos : List Network → List NetworkInfo
network_infos [] = []
network_infos (n ∷ ns) =
    let rest : List NetworkInfo = network_infos ns in
    elim (parse_net n.subnet) [
      | none ↦ rest
      | some net ↦ record { id = n.id; name = n.name; subnet = n.subnet; ip_net = net } ∷ rest
    ]

-- networksOverlap
abbrev pub networks_overlap : IpNet → IpNet → Bool
networks_overlap m n = contains m n.ip || contains n m.ip

abbrev pair_key : NetworkInfo → NetworkInfo → Text
pair_key m n = m.id ++ b'-' ∷ n.id

abbrev overlap_conflict : Env → ℕ → NetworkInfo → NetworkInfo → Conflict
overlap_conflict env i m n = record {
  id = env.row_uuid i;
  type = overlapping_subnet;
  status = active;
  description = codes "Subnets " ++ m.subnet ++ codes " and " ++ n.subnet ++ codes " overlap";
  ip_address = [];
  device_ids = [];
  device_names = [];
  network_ids = m.id ∷ n.id ∷ [];
  network_names = m.name ∷ n.name ∷ [];
  subnets = m.subnet ∷ n.subnet ∷ [];
  detected_at = env.now;
  resolved_at = none;
  resolved_by = [];
  notes = [];
}

-- The map `checked` and the conflicts so far
pub record Search : Type 0 where
  pub checked : List Text
  pub conflicts : List Conflict

-- The body of the loops
unfoldable pub check_pair : Env → NetworkInfo → NetworkInfo → Search → Search
check_pair env m n found =
    if any (λ k. k == pair_key m n || k == pair_key n m) found.checked then found else record {
      checked = pair_key m n ∷ pair_key n m ∷ found.checked;
      conflicts =
          if networks_overlap m.ip_net n.ip_net
          then found.conflicts ++ overlap_conflict env (length found.conflicts) m n ∷ []
          else found.conflicts;
    }

-- The loop over j
unfoldable pub check_others : Env → NetworkInfo → List NetworkInfo → Search → Search
check_others env m [] found = found
check_others env m (n ∷ ns) found = check_others env m ns (check_pair env m n found)

-- The loop over i
unfoldable pub check_networks : Env → List NetworkInfo → Search → Search
check_networks env [] found = found
check_networks env (m ∷ ns) found = check_networks env ns (check_others env m ns found)

-- FindOverlappingSubnets
unfoldable pub find_overlapping_subnets : Env → Store → List Conflict
find_overlapping_subnets env s =
    let infos = network_infos (sort_by (λ m n. text_leb m.subnet n.subnet) s.networks) in
    (check_networks env infos (record { checked = []; conflicts = [] })).conflicts
