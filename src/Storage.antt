-- ===== src/Storage.antt =====
-- internal/storage: the methods of SQLiteStorage, by table.
pub mod IpRange
pub mod Pool
pub mod Order
pub mod Relationship
pub mod Reservation
pub mod Steps
pub mod Rbac
pub mod User
pub mod Oauth
pub mod Network
pub mod References
pub mod ApiKey
pub mod Datacenter
pub mod CustomField
pub mod Device
pub mod Conflict
