-- ===== src/System.antt =====
-- internal/system: the kernel's version and the network interfaces of the node.
pub mod Kernel
pub mod Network
