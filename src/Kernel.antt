-- ===== src/Kernel.antt =====
-- kernel/: the wire protocol, the client of the Felix process and the tools that it offers to Felix.
pub mod Protocol
pub mod Client
pub mod HostTools
