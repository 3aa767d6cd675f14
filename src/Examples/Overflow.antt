-- ===== src/Examples/Overflow.antt =====
-- The theorems on overflow events at packets that find the map full.
use kubeadapt_k8s_pulse.Prelude.{List, [], arith, length, ◌∷◌, ◌≡◌}
use kubeadapt_k8s_pulse.Bpf.Ringbuf.{flow_record, flow_record_size}
use kubeadapt_k8s_pulse.Bpf.Ringbuf.Layout.{
  IsConnectionKey, IsFlowRecord, flow_record-overflow_event_bytes, overflow_event_bytes,
}
use kubeadapt_k8s_pulse.Bpf.Types.{FlowRecord}
use kubeadapt_k8s_pulse.Examples.Data.{connection}
use kubeadapt_k8s_pulse.Examples.Flows.{packet, start}
use kubeadapt_k8s_pulse.Monitor.Flows.{Arrival, Monitor, connection_keys, event, new_stats}

connection-IsConnectionKey : IsConnectionKey (connection 40001 6)
connection-IsConnectionKey = record {
  src_addr-IsWords = record {
    w0-bound = omega arith;
    w1-bound = omega arith;
    w2-bound = omega arith;
    w3-bound = omega arith;
  };
  dst_addr-IsWords = record {
    w0-bound = omega arith;
    w1-bound = omega arith;
    w2-bound = omega arith;
    w3-bound = omega arith;
  };
  src_port-bound = omega arith;
  dst_port-bound = omega arith;
  protocol-bound = omega arith;
  family-bound = omega arith;
  pad-bound = omega arith;
}

-- A flow that finds the map full, of the same packet.
abbrev flood : List Arrival
flood = packet 40001 6 50 ∷ packet 40001 6 50 ∷ []

abbrev full : Monitor
full = record start { flows = (connection 40000 6, new_stats (packet 40000 6 100)) ∷ [] }

abbrev overflow : FlowRecord
overflow = event 0 (packet 40001 6 50)

overflow-IsFlowRecord : IsFlowRecord overflow
unfolding new_stats
overflow-IsFlowRecord = record {
  key-IsConnectionKey = connection-IsConnectionKey;
  stats-IsConnectionStats = record {
    bytes-bound = omega arith;
    packets-bound = omega arith;
    last_seen_ns-bound = omega arith;
    cgroup_id-bound = omega arith;
    if_index_first_seen-bound = omega arith;
    padding-bound = omega arith;
  };
  timestamp_ns-bound = omega arith;
  reason-bound = omega arith;
  padding-bound = omega arith;
}

flow_record-overflow_event_bytes_example :
    (flow_record (overflow_event_bytes overflow) ≡ overflow)
    × length (overflow_event_bytes overflow) ≡ flow_record_size
flow_record-overflow_event_bytes_example =
    flow_record-overflow_event_bytes overflow overflow-IsFlowRecord
