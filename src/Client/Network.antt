-- ===== src/Client/Network.antt =====
-- code/client/network.c: messages between their wire form and the packed structs of the handlers.
pub mod Fields
pub mod Buffer
pub mod Unpack
pub mod Pack
pub mod Message
pub mod RoundTrip
pub mod Dispatch
pub mod Connection
pub mod Digest
pub mod Update
mod Tests
