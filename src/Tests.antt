-- ===== src/Tests.antt =====
-- Concrete runs, and the theorems at concrete inputs.
mod Rooms
mod Frames
mod Calls
mod Connections
mod Sessions
mod Support
mod Clients
mod Servers
mod Starting
mod Managers
mod Delivery
mod Games
mod Stopping
mod Pushing
