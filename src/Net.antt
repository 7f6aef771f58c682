-- ===== src/Net.antt =====
-- net: how a connection is set up, and the buffer of a connection.
pub mod Connect
pub mod First
pub mod SyncConnect
pub mod Setup
pub mod Buffer
pub mod Stream
