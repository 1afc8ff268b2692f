-- ===== src/Messages.antt =====
-- messages.cpp: the message types of the protobuf files, and messages as variants.
pub mod Names
pub mod Laws
pub mod Serialize
pub mod Parse
pub mod RoundTrip
pub mod Copy
pub mod Repeated
pub mod HdNode
pub mod Unknown
