-- ===== src/Utils.antt =====
-- utils.cpp: the codecs and the signature check.
pub mod Codecs
pub mod Hex
pub mod Signature
