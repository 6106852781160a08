-- ===== src/Tests.antt =====
-- The theorems at concrete inputs, and runs of the definitions.
mod Storages
mod Protocol
mod Requests
mod Outcoming
mod Nodes
mod Sockets
mod Systems
mod Clients
mod Writing
mod Endpoints
mod Pools
mod Joining
mod Mains
