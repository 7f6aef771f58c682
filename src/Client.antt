-- ===== src/Client.antt =====
-- client/src: what the console client sends.
pub mod Bodies
pub mod Accepted
pub mod Input
pub mod Answers
pub mod Session
pub mod Console
