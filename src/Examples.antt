-- ===== src/Examples.antt =====
-- Runs of the definitions, and each property at one of them.
mod Data
mod Login
mod Logs
mod Apps
mod Bots
mod Updates
mod Settings
mod Records
mod Running
mod Tunnels
