-- ===== src/Libraries.antt =====
-- The libraries that the plugin calls, as records of their operations.
pub mod Protobuf
pub mod Coded
pub mod Boost
pub mod FireBreath
pub mod OpenSsl
pub mod Bip32
