-- ===== src/Tests.antt =====
-- The theorems at concrete inputs, and runs of the definitions.
mod Fixtures
mod Pools
mod Reservations
mod Grants
mod Access
mod Roles
mod Users
mod Oauth
mod Networks
mod Devices
mod Conflicts
mod Keys
