-- ===== src/Net.antt =====
-- common/net-message.hpp and common/net-message.cpp: the framing of messages on the wire.
pub mod MessageType
pub mod Message
pub mod Out
pub mod In
pub mod Stream
pub mod RoundTrip
pub mod Tests
