-- ===== src/Tests.antt =====
-- The theorems at concrete inputs, with a small cryptography in place of the real one.
pub mod Toy
pub mod Ratchets
pub mod Agreements
pub mod KeyBuffers
pub mod Messages
pub mod Sessions
pub mod Handshakes
pub mod Saving
pub mod Talks
pub mod Libraries
pub mod Disks
pub mod Clients
pub mod Memories
pub mod Commands
pub mod Running
pub mod Machines
pub mod Streams
pub mod Conversations
