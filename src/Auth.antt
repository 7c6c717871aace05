-- ===== src/Auth.antt =====
-- internal/auth: sessions, scopes and the tests of permissions by name.
pub mod Sessions
pub mod Oauth
pub mod Rbac
