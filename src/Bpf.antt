-- ===== src/Bpf.antt =====
-- internal/bpf: the loader of the eBPF programs, its types and its readers.
pub mod Types
pub mod Version
pub mod Manager
pub mod Platform
pub mod Ringbuf
pub mod SockOffsets
