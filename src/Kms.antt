-- ===== src/Kms.antt =====
-- The service of kms/: keys, their rotation, encryption and decryption.
pub mod Crypto
pub mod Store
pub mod Http
pub mod Preset
pub mod Tests
