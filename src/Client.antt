-- ===== src/Client.antt =====
-- The client program (client/src).
pub mod Network
pub mod Packets
pub mod Services
pub mod Connection
pub mod Rooms
pub mod Chat
pub mod Logger
pub mod Ui
