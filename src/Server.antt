-- ===== src/Server.antt =====
-- The server: server/src and server/include.
pub mod Parser
pub mod Sender
pub mod Clients
pub mod Room
pub mod Rooms
pub mod State
pub mod Handlers
pub mod Events
pub mod Listener
pub mod Epoll
pub mod Program
pub mod Threads
pub mod Pool
pub mod Env
pub mod Logger
pub mod Utils
