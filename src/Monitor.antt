-- ===== src/Monitor.antt =====
-- bpf/network_monitor_tc.c: the program that runs in the kernel for each packet of a pod.
pub mod Concurrent
pub mod Flows
pub mod Frames
pub mod Ipv4
pub mod Ipv6
pub mod Packet
pub mod Parse
pub mod Transport
