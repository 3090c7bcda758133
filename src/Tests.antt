-- ===== src/Tests.antt =====
-- The theorems at concrete inputs, over a simulated outside world.
mod Sim
mod Devices
mod Settings
mod Clients
mod Caches
mod Services
mod Threads
mod Live
mod Commands
mod Shutdown
mod Restarts
mod Pacing
mod Processes
mod Logs
mod Locks
