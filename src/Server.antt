-- ===== src/Server.antt =====
-- include/mpcc/server and src/server.
pub mod Samples
pub mod Broadcast
pub mod Rooms
pub mod UserRegistry
pub mod ClientHandler
pub mod Listener
