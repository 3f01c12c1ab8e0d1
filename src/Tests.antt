-- ===== src/Tests.antt =====
-- The theorems at concrete inputs.
mod World
mod Disk
mod Parts
mod Routes
mod Tunnels
mod Retry
mod Stale
mod Exit
mod Manifest
mod Remote
mod Firewall
mod Subnets
