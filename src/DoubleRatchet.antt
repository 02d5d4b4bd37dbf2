-- ===== src/DoubleRatchet.antt =====
-- The package doubleratchet.
pub mod Pkcs7
pub mod Header
pub mod KeyBuffer
pub mod Primitives
pub mod DhRatchet
pub mod Ratchet
pub mod Persist
