-- ===== src/Http.antt =====
-- net/client.cpp and common/http.hpp: the HTTP messages that both sides read.
pub mod Reply
pub mod Reading
pub mod Framing
pub mod Total
pub mod Lengths
pub mod Responses
pub mod Requests
pub mod Socket
pub mod Errors
