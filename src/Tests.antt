-- ===== src/Tests.antt =====
-- Runs at concrete inputs: the theorems at storages that the code builds, and tests.
mod Queues
mod Storages
mod Workers
mod Https
mod Apis
mod Parties
mod Clients
mod Consoles
mod Nets
mod Sockets
mod Pools
mod Servers
