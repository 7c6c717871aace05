-- ===== src/Lib.antt =====
-- A model of the server of rackd, an IP address and device manager in Go: the storage of devices, of
-- networks, of pools of addresses, of reservations, of conflicts, of custom fields, of roles and of users
-- in SQLite, the services in front of it, the sessions and rate limits of its users, and the
-- authorization server.
--
-- The parts, each with its file and its source:
--   Model, Error, ReservationStatus: the records of internal/model, the caller and audit context of
--     internal/service/caller.go and internal/audit/context.go, and the error values of
--     internal/storage/storage.go and internal/service/errors.go.
--   Store: SQLiteStorage (internal/storage/sqlite.go): a record of tables and the bounded queue of
--     audit entries. A method takes the store and gives a result and the next store (Exec).
--   Net: what the program uses of Go's package net: ParseIP, ParseCIDR, To4 and IP.String, and in
--     IpNet the networks with Contains.
--   Storage.IpRange: incrementIP and ipInRange; Value reads an address as a number.
--   Storage.Pool: internal/storage/pool_sqlite.go. Allocate has GetNextAvailableIP and
--     ValidateIPInPool, Heatmap has GetPoolHeatmap.
--   Storage.Reservation: internal/storage/reservation_sqlite.go, with the lists in Listing.
--   Storage.Rbac: internal/storage/rbac_sqlite.go, with the roles of users in Users.
--   Storage.Network: internal/storage/network_sqlite.go, with LIKE as a parameter (Like), as in
--     the other lists; Service.Network:
--     internal/service/network.go. Storage.References is about the foreign keys of these tables.
--   Storage.Datacenter, Service.Datacenter: internal/storage/datacenter_sqlite.go and
--     internal/service/datacenter.go.
--   Storage.Relationship, Service.Relationship: internal/storage/relationship_sqlite.go and
--     internal/service/relationship.go. Spec is the table of notes that they promise, Refine relates
--     the two.
--   Storage.Device: internal/storage/device_sqlite.go. A device is a row (DeviceRow) with the rows of its
--     addresses, tags, domains and custom field values; Model.Device has the record that the methods
--     take and give. Read has GetDevice, Change the methods that write, Listing the lists, with those
--     of datacenters, networks and relationships. Owned is what ties these rows to devices, Steps has
--     histories, Promoted is about the devices of discovered devices. Service.Device:
--     internal/service/device.go, for a server without the DNS service.
--   Model.CustomField, Storage.CustomField, Service.CustomField: internal/model/custom_field.go,
--     internal/storage/custom_field_sqlite.go and internal/service/custom_field.go.
--   Storage.Conflict, Service.Conflict: internal/storage/conflict_sqlite.go and
--     internal/service/conflict.go, with the LIKE test on the JSON of the devices as a parameter
--     (Mentions). Find has the two searches.
--   Storage.Order: ORDER BY, LIMIT and OFFSET, with internal/model/pagination.go.
--   Storage.Steps: histories of the methods above as a step relation.
--   Service.Access: requirePermission, enrichAuditCtx and the admin test (internal/service/rbac.go,
--     audit.go, caller.go, role.go and internal/auth/rbac.go). Allowed has its meaning over the
--     rows of the store.
--   Auth.Rbac: the tests of several permissions in internal/auth/rbac.go, over any Checker.
--   Service.Reservation: internal/service/reservation.go. Its Create takes a World, which says what
--     other requests do to the store between the choice of an address and its reservation.
--   Service.Pool, Service.Role: internal/service/pool.go and role.go. Role.Change says what each request
--     does to the roles, Role.History has sequences of requests.
--   Storage.User, Service.User: internal/storage/user_sqlite.go and internal/service/user.go, with bcrypt
--     as a parameter (Bcrypt) behind internal/auth/password.go.
--   Service.Auth: internal/service/auth.go, whose state is the store with the sessions.
--   Storage.ApiKey, Service.ApiKey: internal/storage/apikey_sqlite.go and internal/service/apikey.go.
--   Service.Gate: the operations of these services that write, with the permission of each.
--   Auth.Sessions: internal/auth/memory_store.go and session.go. Spec is the table of sessions that they
--     promise, Refine relates the two.
--   Auth.Oauth: internal/auth/oauth.go. Storage.Oauth: internal/storage/oauth_sqlite.go. Service.Oauth:
--     internal/service/oauth.go; Grants has the three grants, and Exchange, Once, Refresh, Restrict and
--     Credentials are about them.
--   Api.RateLimit: internal/api/ratelimit.go.
--
-- A statement of SQL is its meaning over the rows: a constraint that it breaks is an error, and ON
-- DELETE CASCADE takes rows along. A SELECT without ORDER BY reads the rows in the order of the table,
-- one of those that SQL allows; tags and domains come in the order of their primary key, whose index
-- holds all that their queries read. A transaction that fails leaves the store as it was. A time is a
-- number of nanoseconds, with 0 for the zero value, a text is a list of bytes, and NULL is `none`.
--
-- SHA-256 in base64url is a parameter of the authorization server (Hash), and so are the random texts and
-- UUIDs of its new rows (Fresh). A call of it reads the clock once. ExchangeCode and RefreshAccessToken
-- take what other requests do to the store after the first lookup.
--
-- The loop of GetNextAvailableIP runs on fuel: 2^32 rounds, one for each IPv4 address, after which every
-- address was seen. The loop of GetPoolHeatmap stops by itself after 65536 entries, and that of Create
-- after 5 attempts.
--
-- Not modelled: failures of the database driver and of the source of UUIDs, nil pointers where a
-- method expects a record, log lines, the JSON of the change in an audit entry, and the text of an error
-- beyond its fixed part, since the program does not read it. A locked method of the sessions and of the
-- rate limiter is one step, so the gap between the lookup and the insertion of a new client's bucket is
-- not seen. The full text search, the HTTP handlers, the MCP server, the command line, discovery, DNS, webhooks and the web
-- interface are left out, as input and output around these parts or as later work.
pub mod Prelude
pub mod Text
pub mod Net
pub mod Rows
pub mod Model
pub mod Error
pub mod ReservationStatus
pub mod Store
pub mod Storage
pub mod Service
pub mod Auth
pub mod Api
mod Tests
