-- ===== src/Fc.antt =====
-- internal/fc: configurations, jailer chroots and the calls to a Firecracker process.
pub mod Host
pub mod Jailer
pub mod Socket
pub mod Machine
pub mod Chroot
