-- ===== src/Bpf/Types.antt =====
-- internal/bpf/types.go: the records that the eBPF program shares with the agent.
use kubeadapt_k8s_pulse.Prelude.{ℕ}

-- [4]uint32
pub record Words : Type 0 where
  pub w0 : ℕ
  pub w1 : ℕ
  pub w2 : ℕ
  pub w3 : ℕ

pub record ConnectionKey : Type 0 where
  pub src_addr : Words
  pub dst_addr : Words
  pub src_port : ℕ  -- uint16
  pub dst_port : ℕ  -- uint16
  pub protocol : ℕ  -- uint8
  pub family : ℕ  -- uint8
  pub pad : ℕ  -- uint16

pub record ConnectionStats : Type 0 where
  pub bytes : ℕ  -- uint64
  pub packets : ℕ  -- uint64
  pub last_seen_ns : ℕ  -- uint64
  pub cgroup_id : ℕ  -- uint64
  pub if_index_first_seen : ℕ  -- uint32
  -- the field Padding of four bytes, as the number that they spell
  pub padding : ℕ

pub record FlowRecord : Type 0 where
  pub key : ConnectionKey
  pub stats : ConnectionStats
  pub timestamp_ns : ℕ  -- uint64
  pub reason : ℕ  -- uint8
  -- the field Padding of seven bytes, as the number that they spell
  pub padding : ℕ

-- Two records that nothing uses.
pub record ContainerNetStats : Type 0 where
  pub rx_bytes : ℕ  -- uint64
  pub tx_bytes : ℕ  -- uint64
  pub rx_packets : ℕ  -- uint64
  pub tx_packets : ℕ  -- uint64
  pub last_seen_ns : ℕ  -- uint64

pub record ConnectionInfo : Type 0 where
  pub saddr : ℕ  -- uint32
  pub daddr : ℕ  -- uint32
  pub sport : ℕ  -- uint16
  pub dport : ℕ  -- uint16
  pub protocol : ℕ  -- uint8
