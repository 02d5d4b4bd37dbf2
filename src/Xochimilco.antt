-- ===== src/Xochimilco.antt =====
-- The package xochimilco: the messages of the protocol and the session between two parties.
pub mod Base64
pub mod Message
pub mod Session
