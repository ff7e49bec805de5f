-- ===== src/Server.antt =====
-- server/client-connection.cpp and server/server.cpp: what the server does with the messages of its
-- clients, and what it writes to them.
pub mod Reader
pub mod Reassembly
pub mod Writer
pub mod World
pub mod Process
pub mod Accept
pub mod Tests
