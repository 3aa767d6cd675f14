-- ===== src/Monitor/Flows/Fates.antt =====
-- What becomes of a packet in update_stats of bpf/network_monitor_tc.c.
use kubeadapt_k8s_pulse.Prelude.{
  [], false, if◌then◌else◌, none, some, true, ℕ, ◌++◌, ◌+◌, ◌==◌, ◌∷◌, ◌≡◌, ◌⊎◌,
}
use kubeadapt_k8s_pulse.Prelude.GoMap.{lookup}
use kubeadapt_k8s_pulse.Monitor.Flows.{
  Arrival, ConnectionStats, Flows, InsertResult, Kernel, Monitor, connection_keys, exists, inserted,
  refused, u64,
}

-- The entry that a flow should have after its first packet.
abbrev pub first_entry : Arrival → ConnectionStats
first_entry p = record {
  bytes = p.bytes;
  packets = 1;
  last_seen_ns = p.now;
  cgroup_id = p.cgroup_id;
  if_index_first_seen = p.if_index;
  padding = 0;
}

-- An entry to which a packet was added, with the time of that.
abbrev pub grown : Arrival → ℕ → ConnectionStats → ConnectionStats
grown p time old = record {
  bytes = u64 (old.bytes + p.bytes);
  packets = u64 (old.packets + 1);
  last_seen_ns = time;
  cgroup_id = old.cgroup_id;
  if_index_first_seen = old.if_index_first_seen;
  padding = old.padding;
}

-- What the kernel answers to the insertion, and the map that the second lookup is made in.
abbrev pub answered : Kernel → Arrival → Monitor → InsertResult
answered k p s = k.insert p.key (k.before_insert s.flows)

abbrev pub second_map : Kernel → Monitor → Flows
second_map k s = k.before_retry (k.before_insert s.flows)

-- Why a packet gets no entry: the map is full (0), or the entry that stood in the way is gone (1).
abbrev pub Unplaced : Kernel → Arrival → Monitor → ℕ → Type 0
Unplaced k p s reason =
    ((reason ≡ 0) × (answered k p s ≡ refused))
    ⊎ ((reason ≡ 1) × (answered k p s ≡ exists) × (lookup p.key (second_map k s) ≡ none))

-- A packet is the first of an entry, is added to the entry found at once or at the second lookup, comes
-- in on another interface than its flow's first one, goes out with an event, or is dropped.
pub data Fate (k : Kernel) (p : Arrival) (s s' : Monitor) : Type 0 where
  first :
      lookup p.key s.flows ≡ none
      → answered k p s ≡ inserted
      → lookup p.key s'.flows ≡ some (first_entry p)
      → s'.events ≡ s.events
      → Fate k p s s'
  added :
      (old : ConnectionStats)
      → lookup p.key s.flows ≡ some old
      → (old.if_index_first_seen == p.if_index) ≡ true
      → lookup p.key s'.flows ≡ some (grown p p.now old)
      → s'.events ≡ s.events
      → Fate k p s s'
  added_late :
      (old : ConnectionStats)
      → lookup p.key s.flows ≡ none
      → answered k p s ≡ exists
      → lookup p.key (second_map k s) ≡ some old
      → lookup p.key s'.flows ≡ some (grown p p.later old)
      → s'.events ≡ s.events
      → Fate k p s s'
  elsewhere :
      (old : ConnectionStats)
      → lookup p.key s.flows ≡ some old
      → (old.if_index_first_seen == p.if_index) ≡ false
      → lookup p.key s'.flows
        ≡ some (record old { last_seen_ns = if p.if_index == 0 then old.last_seen_ns else p.now })
      → s'.events ≡ s.events
      → Fate k p s s'
  reported :
      (reason : ℕ)
      → lookup p.key s.flows ≡ none
      → Unplaced k p s reason
      → k.reserved ≡ true
      → s'.events
        ≡ s.events
          ++ record {
            key = p.key;
            stats = first_entry p;
            timestamp_ns = p.later;
            reason = reason;
            padding = 0;
          }
            ∷ []
      → Fate k p s s'
  dropped :
      (reason : ℕ)
      → lookup p.key s.flows ≡ none
      → Unplaced k p s reason
      → k.reserved ≡ false
      → s'.events ≡ s.events
      → Fate k p s s'
