-- ===== src/Tests.antt =====
-- Concrete inputs: a small JSON library, a server with clients and rooms, and the theorems at them.
mod Toy
mod Wire
mod Managers
mod Events
mod Client
mod Ui
mod Pool
mod Served
mod Program
mod Threads
mod Running
mod Env
