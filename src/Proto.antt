-- ===== src/Proto.antt =====
-- libs/proto: the protocol between the master and its secondaries.
pub mod HostBytes
pub mod Deserializer
pub mod Serializer
pub mod Codes
pub mod Parser
pub mod Frame
pub mod Platform
pub mod Request
pub mod Response
pub mod OutcomingContext
pub mod OutcomingRequests
pub mod SocketWrapper
pub mod IncomingContext
pub mod IncomingRequests
pub mod Endpoint
