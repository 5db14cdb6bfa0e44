-- ===== src/SecretManager.antt =====
-- The service of secretmanager/: vaults and the versions of their secrets.
pub mod Store
pub mod Http
pub mod Tests
