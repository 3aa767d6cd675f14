-- ===== src/Pipeline/Events.antt =====
-- Overflow events on their way from update_stats of bpf/network_monitor_tc.c to the agent's handler.
use kubeadapt_k8s_pulse.Prelude.{All, List, [], length, ◌++◌, ◌+◌, ◌<◌, ◌^◌, ◌∷◌, ◌≡◌}
use kubeadapt_k8s_pulse.Bpf.Ringbuf.{RingEvent, sample}
use kubeadapt_k8s_pulse.Bpf.Ringbuf.Layout.{IsConnectionKey, IsFlowRecord, overflow_event_bytes}
use kubeadapt_k8s_pulse.Bpf.Types.{FlowRecord}
use kubeadapt_k8s_pulse.Collector.Keys.{u64}
use kubeadapt_k8s_pulse.Monitor.Flows.{
  Arrival, Flows, Monitor, connection_keys, event, overflow_reason_map_full,
  overflow_reason_race_condition,
}

-- The fields of a packet are in the range of their types.
pub record IsPacket (p : Arrival) : Type 0 where
  pub key-IsConnectionKey : IsConnectionKey p.key
  pub bytes-bound : p.bytes < 2 ^ 64
  pub cgroup_id-bound : p.cgroup_id < 2 ^ 64
  pub if_index-bound : p.if_index < 2 ^ 32
  pub now-bound : p.now < 2 ^ 64
  pub later-bound : p.later < 2 ^ 64

-- What the ring buffer gives for the events, in the order of their submission.
unfoldable pub samples_of : List FlowRecord → List RingEvent
samples_of [] = []
samples_of (e ∷ events) = sample (overflow_event_bytes e) ∷ samples_of events

-- The calls of a handler on each event.
unfoldable pub handled : {A : Type 0} → (FlowRecord → List A) → List FlowRecord → List A
handled handler [] = []
handled handler (e ∷ events) = handler e ++ handled handler events

-- What a packet does to the events and their counters.
pub data Report (p : Arrival) (s s' : Monitor) : Type 0 where
  silent :
      s'.events ≡ s.events
      → s'.overflow_events ≡ s.overflow_events
      → s'.race_conditions ≡ s.race_conditions
      → Report p s s'
  map_full :
      s'.events ≡ s.events ++ event overflow_reason_map_full p ∷ []
      → s'.overflow_events ≡ u64 (s.overflow_events + 1)
      → s'.race_conditions ≡ s.race_conditions
      → Report p s s'
  race_condition :
      s'.events ≡ s.events ++ event overflow_reason_race_condition p ∷ []
      → s'.overflow_events ≡ s.overflow_events
      → s'.race_conditions ≡ u64 (s.race_conditions + 1)
      → Report p s s'

-- The events are whole records, and as many as the two counters say, modulo 2 ^ 64.
abbrev IsAccounted : Monitor → Type 0
IsAccounted s =
    All IsFlowRecord s.events × u64 (length s.events) ≡ u64 (s.overflow_events + s.race_conditions)
