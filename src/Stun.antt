-- ===== src/Stun.antt =====
-- pkg/stun: the types, header, attributes and messages of the STUN protocol, and the Binding exchange.
pub mod MessageType
pub mod Header
pub mod Attribute
pub mod Message
pub mod Binding
mod Tests
