-- ===== src/Tests/Fixtures.antt =====
-- A small store: the pool 10.0.0.1 to 10.0.0.3, whose first address a device uses and whose second one
-- is reserved.
use rackd.Prelude.{◌+◌, none, some, [], ◌∷◌}
use rackd.Text.{codes}
use rackd.Model.{
  Network, NetworkPool, AddressRow, Reservation, Caller, system, CreateReservationRequest,
}
use rackd.ReservationStatus.{active}
use rackd.Store.{Store, Env}
use rackd.Storage.Reservation.{to_row}

abbrev pub network : Network
network = record {
  id = codes "n1";
  name = codes "lab";
  subnet = codes "10.0.0.0/24";
  vlan_id = 7;
  datacenter_id = codes "d1";
  description = [];
  created_at = 1;
  updated_at = 1;
}

abbrev pub pool : NetworkPool
pool = record {
  id = codes "p1";
  network_id = codes "n1";
  name = codes "servers";
  start_ip = codes "10.0.0.1";
  end_ip = codes "10.0.0.3";
  description = [];
  tags = [];
  created_at = 1;
  updated_at = 1;
}

abbrev pub address_1 : AddressRow
address_1 = record {
  id = codes "a1";
  device_id = codes "web";
  ip = codes "10.0.0.1";
  port = none;
  type = codes "ipv4";
  label = [];
  network_id = none;
  switch_port = none;
  pool_id = some (codes "p1");
}

abbrev pub reservation_2 : Reservation
reservation_2 = record {
  id = codes "r1";
  pool_id = codes "p1";
  ip_address = codes "10.0.0.2";
  hostname = codes "db";
  purpose = [];
  reserved_by = codes "u1";
  reserved_at = 5;
  expires_at = some 90;
  status = active;
  notes = [];
  created_at = 5;
  updated_at = 5;
}

abbrev pub empty_store : Store
empty_store = record {
  datacenters = [];
  networks = [];
  network_pools = [];
  pool_tags = [];
  devices = [];
  relationships = [];
  addresses = [];
  tags = [];
  domains = [];
  custom_field_definitions = [];
  custom_field_values = [];
  conflicts = [];
  reservations = [];
  permissions = [];
  roles = [];
  role_permissions = [];
  user_roles = [];
  users = [];
  api_keys = [];
  oauth_clients = [];
  oauth_codes = [];
  oauth_tokens = [];
  discovery_networks = [];
  promoted_devices = [];
  audit_queue = [];
}

abbrev pub store : Store
store = record empty_store {
  networks = network ∷ [];
  network_pools = pool ∷ [];
  addresses = address_1 ∷ [];
  reservations = to_row reservation_2 ∷ [];
}

abbrev pub system_caller : Caller
system_caller = record {
  kind = system;
  user_id = [];
  username = [];
  ip_address = [];
  source = codes "worker";
  scopes = none;
}

abbrev pub env : Env
env = record {
  ctx = record { caller = some system_caller; audit = none };
  now = 100;
  uuid = codes "x1";
  row_uuid = λ n. 120 ∷ (n + 50) ∷ [];
}

-- A request for any address of the pool.
abbrev pub any_address : CreateReservationRequest
any_address = record {
  pool_id = codes "p1";
  ip_address = [];
  hostname = codes "new";
  purpose = [];
  expires_at = none;
  notes = [];
}
