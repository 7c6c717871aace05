-- ===== src/Service.antt =====
-- internal/service: the operations that the API and the MCP server call.
pub mod Access
pub mod Reservation
pub mod Role
pub mod Pool
pub mod Gate
pub mod User
pub mod Oauth
pub mod Network
pub mod Auth
pub mod ApiKey
pub mod Datacenter
pub mod Relationship
pub mod Device
pub mod Conflict
pub mod CustomField
