-- ===== src/Tests.antt =====
-- The theorems applied to concrete memories, disks and devices.
pub mod Strings
pub mod Disk
pub mod Inodes
pub mod Machine
pub mod Storage
pub mod Lookups
pub mod Opening
pub mod Adding
pub mod Creating
pub mod Paths
pub mod Devices
pub mod Files
pub mod Controllers
pub mod Bringup
pub mod Startup
pub mod Search
pub mod Console
pub mod Boot
