-- ===== src/Api.antt =====
-- server/src/apiclient.cpp: a connection of the server, from the bytes of a request to a task.
pub mod Meta
pub mod Respond
pub mod Connection
pub mod Dispatch
pub mod Idle
pub mod Exchange
