-- ===== src/Workload.antt =====
-- internal/workload: the host's side of the agent in the guest.
pub mod Vsock
pub mod Call
pub mod Agent
