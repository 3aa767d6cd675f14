-- ===== src/Monitor/Flows.antt =====
-- update_stats of bpf/network_monitor_tc.c: the map connection_flows, the ring buffer and the
-- counters. The map helpers and the ring buffer are the kernel's: what bpf_map_update_elem and
-- bpf_ringbuf_reserve answer, and what other processors do to the map in between, is an input.
pub mod Summary
pub mod Fates
pub mod Room
use kubeadapt_k8s_pulse.Prelude.{
  Bool, List, [], arith, if◌then◌else◌, none, not, some, true, ℕ, ◌&&◌, ◌++◌, ◌+◌, ◌==◌, ◌↔◌, ◌∷◌,
  ◌≡◌,
}
use kubeadapt_k8s_pulse.Prelude.Eq.{Eq}
use kubeadapt_k8s_pulse.Prelude.GoMap.{lookup, put}
use kubeadapt_k8s_pulse.Bpf.Types.{ConnectionKey, ConnectionStats, FlowRecord, Words}
use kubeadapt_k8s_pulse.Collector.Keys.{u64}

abbrev words_eq : Words → Words → Bool
words_eq a b = a.w0 == b.w0 && (a.w1 == b.w1 && (a.w2 == b.w2 && a.w3 == b.w3))

-- The bytes of two keys are the same.
unfoldable pub connection_key_eq : ConnectionKey → ConnectionKey → Bool
connection_key_eq a b =
    words_eq a.src_addr b.src_addr
    && (words_eq a.dst_addr b.dst_addr
        && (a.src_port == b.src_port
            && (a.dst_port == b.dst_port
                && (a.protocol == b.protocol && (a.family == b.family && a.pad == b.pad)))))

words_eq_iff : (a b : Words) → (words_eq a b ≡ true) ↔ (a ≡ b)
words_eq_iff a b = ground arith

pub connection_key_eq_iff : (a b : ConnectionKey) → (connection_key_eq a b ≡ true) ↔ (a ≡ b)
unfolding connection_key_eq
connection_key_eq_iff a b =
    ground (arith, words_eq_iff a.src_addr b.src_addr, words_eq_iff a.dst_addr b.dst_addr)

instance abbrev pub connection_keys : Eq ConnectionKey
connection_keys = record { beq = connection_key_eq; beq_iff = connection_key_eq_iff }

abbrev pub Flows : Type 0
Flows = List (ConnectionKey × ConnectionStats)

-- The arguments of update_stats, and what bpf_ktime_get_ns tells at its first reading in the call and, on
-- the paths that read it again, at the second.
pub record Arrival : Type 0 where
  pub key : ConnectionKey
  pub bytes : ℕ
  pub cgroup_id : ℕ
  pub if_index : ℕ
  pub now : ℕ
  pub later : ℕ

-- The answer of bpf_map_update_elem with BPF_NOEXIST: 0, -EEXIST, or another error.
pub data InsertResult : Type 0 where
  inserted exists refused : InsertResult

-- What a call meets: the answer of the insertion in a given map, whether the ring buffer has room,
-- and the changes that others make to the map before the insertion and before the second lookup.
pub record Kernel : Type 0 where
  pub insert : ConnectionKey → Flows → InsertResult
  pub reserved : Bool
  pub before_insert : Flows → Flows
  pub before_retry : Flows → Flows

-- The three maps: connection_flows, what is submitted to overflow_events, and global_counters.
pub record Monitor : Type 0 where
  pub flows : Flows
  pub events : List FlowRecord
  pub overflow_events : ℕ
  pub race_conditions : ℕ
  pub parse_errors : ℕ
  pub ipv4_fragments : ℕ
  pub ipv6_fragments : ℕ

abbrev pub overflow_reason_map_full : ℕ
overflow_reason_map_full = 0

abbrev pub overflow_reason_race_condition : ℕ
overflow_reason_race_condition = 1

-- __sync_fetch_and_add of the bytes and of one packet, and the time.
unfoldable pub count_packet : Arrival → ConnectionStats → ConnectionStats
count_packet p stats = record stats {
  bytes = u64 (stats.bytes + p.bytes);
  packets = u64 (stats.packets + 1);
  last_seen_ns = p.now;
}

-- The entry of a flow at its first packet.
unfoldable pub new_stats : Arrival → ConnectionStats
new_stats p = record {
  bytes = p.bytes;
  packets = 1;
  last_seen_ns = p.now;
  cgroup_id = p.cgroup_id;
  if_index_first_seen = p.if_index;
  padding = 0;
}

-- The branch of a flow that is in the map: only the interface that saw it first counts.
unfoldable pub update_existing : Arrival → ConnectionStats → Monitor → Monitor
update_existing p stats s =
    if stats.if_index_first_seen == p.if_index
    then record s { flows = put p.key (count_packet p stats) s.flows }
    else if not (p.if_index == 0)
    then record s { flows = put p.key (record stats { last_seen_ns = p.now }) s.flows }
    else s

-- The same arrival at the second reading of the clock.
abbrev pub late : Arrival → Arrival
late p = record p { now = p.later }

abbrev pub event : ℕ → Arrival → FlowRecord
event reason p = record {
  key = p.key;
  stats = new_stats p;
  timestamp_ns = p.later;
  reason = reason;
  padding = 0;
}

-- An event is submitted and counted if the ring buffer has room for it; the packet is lost if not.
unfoldable pub overflow_full : Kernel → Arrival → Monitor → Monitor
overflow_full k p s =
    if k.reserved
    then record s {
      events = s.events ++ event overflow_reason_map_full p ∷ [];
      overflow_events = u64 (s.overflow_events + 1);
    }
    else s

unfoldable pub overflow_race : Kernel → Arrival → Monitor → Monitor
overflow_race k p s =
    if k.reserved
    then record s {
      events = s.events ++ event overflow_reason_race_condition p ∷ [];
      race_conditions = u64 (s.race_conditions + 1);
    }
    else s

-- After -EEXIST: the second lookup, whose entry is counted without a look at the interface.
unfoldable pub retry : Kernel → Arrival → Monitor → Monitor
retry k p s = elim (lookup p.key s.flows) [
  | none ↦ overflow_race k p s
  | some stats ↦ record s { flows = put p.key (count_packet (late p) stats) s.flows }
]

-- The branch of a flow that is not in the map.
unfoldable pub create : Kernel → Arrival → Monitor → Monitor
create k p s = elim (k.insert p.key s.flows) [
  | inserted ↦ record s { flows = put p.key (new_stats p) s.flows }
  | exists ↦ retry k p (record s { flows = k.before_retry s.flows })
  | refused ↦ overflow_full k p s
]

-- update_stats
unfoldable pub update_stats : Kernel → Arrival → Monitor → Monitor
update_stats k p s = elim (lookup p.key s.flows) [
  | none ↦ create k p (record s { flows = k.before_insert s.flows })
  | some stats ↦ update_existing p stats s
]

-- Two readings of the clock.
pub record Readings : Type 0 where
  pub at_first : ℕ
  pub at_second : ℕ

-- Packets one after another, on a kernel that answers each in the same way.
unfoldable pub receive_all : Kernel → List Arrival → Monitor → Monitor
receive_all k [] s = s
receive_all k (p ∷ ps) s = receive_all k ps (update_stats k p s)
