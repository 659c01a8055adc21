-- ===== src/Tests.antt =====
-- Concrete runs of the theorems, and the data that they run on.
mod Data
mod Requests
mod Sockets
mod Helpers
mod Sessions
mod Switching
mod Starting
mod Networks
mod Accepting
mod Lobbies
mod Infos
mod Rooms
mod Transfers
mod Threads
