-- ===== src/Bpf/Ringbuf/Layout.antt =====
-- struct overflow_event of bpf/network_monitor_tc.c, as it lies in memory on a little-endian machine,
-- against FlowRecord of internal/bpf/types.go.
use kubeadapt_k8s_pulse.Prelude.{
  List, [], arith, length, refl, suc, zero, ℕ, ◌%◌, ◌*◌, ◌++◌, ◌/◌, ◌<◌, ◌^◌, ◌∙◌, ◌∷◌, ◌≡◌,
}
use kubeadapt_k8s_pulse.Bpf.Ringbuf.{flow_record, flow_record_size, little_endian}
use kubeadapt_k8s_pulse.Bpf.Types.{ConnectionKey, ConnectionStats, FlowRecord, Words}
use native.Mathlib.Nat.{pow-suc}

-- The bytes of a number, least significant first.
unfoldable pub bytes_le : ℕ → ℕ → List ℕ
bytes_le zero x = []
bytes_le (suc n) x = x % 256 ∷ bytes_le n (x / 256)

abbrev pub words_bytes : Words → List ℕ
words_bytes w = bytes_le 4 w.w0 ++ bytes_le 4 w.w1 ++ bytes_le 4 w.w2 ++ bytes_le 4 w.w3

-- struct connection_key
unfoldable pub connection_key_bytes : ConnectionKey → List ℕ
connection_key_bytes key =
    words_bytes key.src_addr
    ++ words_bytes key.dst_addr
    ++ bytes_le 2 key.src_port
    ++ bytes_le 2 key.dst_port
    ++ bytes_le 1 key.protocol
    ++ bytes_le 1 key.family
    ++ bytes_le 2 key.pad

-- struct connection_stats
unfoldable pub connection_stats_bytes : ConnectionStats → List ℕ
connection_stats_bytes stats =
    bytes_le 8 stats.bytes
    ++ bytes_le 8 stats.packets
    ++ bytes_le 8 stats.last_seen_ns
    ++ bytes_le 8 stats.cgroup_id
    ++ bytes_le 4 stats.if_index_first_seen
    ++ bytes_le 4 stats.padding

-- struct overflow_event
unfoldable pub overflow_event_bytes : FlowRecord → List ℕ
overflow_event_bytes event =
    connection_key_bytes event.key
    ++ connection_stats_bytes event.stats
    ++ bytes_le 8 event.timestamp_ns
    ++ bytes_le 1 event.reason
    ++ bytes_le 7 event.padding

-- The fields are in the range of their types.
pub record IsWords (w : Words) : Type 0 where
  pub w0-bound : w.w0 < 2 ^ 32
  pub w1-bound : w.w1 < 2 ^ 32
  pub w2-bound : w.w2 < 2 ^ 32
  pub w3-bound : w.w3 < 2 ^ 32

pub record IsConnectionKey (key : ConnectionKey) : Type 0 where
  pub src_addr-IsWords : IsWords key.src_addr
  pub dst_addr-IsWords : IsWords key.dst_addr
  pub src_port-bound : key.src_port < 2 ^ 16
  pub dst_port-bound : key.dst_port < 2 ^ 16
  pub protocol-bound : key.protocol < 2 ^ 8
  pub family-bound : key.family < 2 ^ 8
  pub pad-bound : key.pad < 2 ^ 16

pub record IsConnectionStats (stats : ConnectionStats) : Type 0 where
  pub bytes-bound : stats.bytes < 2 ^ 64
  pub packets-bound : stats.packets < 2 ^ 64
  pub last_seen_ns-bound : stats.last_seen_ns < 2 ^ 64
  pub cgroup_id-bound : stats.cgroup_id < 2 ^ 64
  pub if_index_first_seen-bound : stats.if_index_first_seen < 2 ^ 32
  pub padding-bound : stats.padding < 2 ^ 32

pub record IsFlowRecord (event : FlowRecord) : Type 0 where
  pub key-IsConnectionKey : IsConnectionKey event.key
  pub stats-IsConnectionStats : IsConnectionStats event.stats
  pub timestamp_ns-bound : event.timestamp_ns < 2 ^ 64
  pub reason-bound : event.reason < 2 ^ 8
  pub padding-bound : event.padding < 2 ^ 56

little_endian-bytes_le : (n : ℕ) {x : ℕ} → x < 256 ^ n → little_endian (bytes_le n x) ≡ x
unfolding little_endian bytes_le
little_endian-bytes_le zero h = omega (arith, h)
little_endian-bytes_le (suc n) {x} h =
    let width : 256 ^ suc n ≡ 256 ^ n * 256 = pow-suc 256 n in
    omega (arith, little_endian-bytes_le n {x = x / 256} (omega (arith, h, width)))

-- The words of a field, once each is read.
words_decoded : Words → Words
words_decoded w = record {
  w0 = little_endian (bytes_le 4 w.w0);
  w1 = little_endian (bytes_le 4 w.w1);
  w2 = little_endian (bytes_le 4 w.w2);
  w3 = little_endian (bytes_le 4 w.w3);
}

words_decoded-id : (w : Words) → IsWords w → words_decoded w ≡ w
unfolding words_decoded
words_decoded-id w range =
    rw
      (
        little_endian-bytes_le 4 range.w0-bound,
        little_endian-bytes_le 4 range.w1-bound,
        little_endian-bytes_le 4 range.w2-bound,
        little_endian-bytes_le 4 range.w3-bound,
      )
      refl

key_decoded : ConnectionKey → ConnectionKey
key_decoded key = record {
  src_addr = words_decoded key.src_addr;
  dst_addr = words_decoded key.dst_addr;
  src_port = little_endian (bytes_le 2 key.src_port);
  dst_port = little_endian (bytes_le 2 key.dst_port);
  protocol = little_endian (bytes_le 1 key.protocol);
  family = little_endian (bytes_le 1 key.family);
  pad = little_endian (bytes_le 2 key.pad);
}

key_decoded-id : (key : ConnectionKey) → IsConnectionKey key → key_decoded key ≡ key
unfolding key_decoded
key_decoded-id key range =
    rw
      (
        words_decoded-id key.src_addr range.src_addr-IsWords,
        words_decoded-id key.dst_addr range.dst_addr-IsWords,
        little_endian-bytes_le 2 range.src_port-bound,
        little_endian-bytes_le 2 range.dst_port-bound,
        little_endian-bytes_le 1 range.protocol-bound,
        little_endian-bytes_le 1 range.family-bound,
        little_endian-bytes_le 2 range.pad-bound,
      )
      refl

stats_decoded : ConnectionStats → ConnectionStats
stats_decoded stats = record {
  bytes = little_endian (bytes_le 8 stats.bytes);
  packets = little_endian (bytes_le 8 stats.packets);
  last_seen_ns = little_endian (bytes_le 8 stats.last_seen_ns);
  cgroup_id = little_endian (bytes_le 8 stats.cgroup_id);
  if_index_first_seen = little_endian (bytes_le 4 stats.if_index_first_seen);
  padding = little_endian (bytes_le 4 stats.padding);
}

stats_decoded-id : (stats : ConnectionStats) → IsConnectionStats stats → stats_decoded stats ≡ stats
unfolding stats_decoded
stats_decoded-id stats range =
    rw
      (
        little_endian-bytes_le 8 range.bytes-bound,
        little_endian-bytes_le 8 range.packets-bound,
        little_endian-bytes_le 8 range.last_seen_ns-bound,
        little_endian-bytes_le 8 range.cgroup_id-bound,
        little_endian-bytes_le 4 range.if_index_first_seen-bound,
        little_endian-bytes_le 4 range.padding-bound,
      )
      refl

flow_record-decoded :
    (event : FlowRecord)
    → flow_record (overflow_event_bytes event) ≡ (record {
      key = key_decoded event.key;
      stats = stats_decoded event.stats;
      timestamp_ns = little_endian (bytes_le 8 event.timestamp_ns);
      reason = little_endian (bytes_le 1 event.reason);
      padding = little_endian (bytes_le 7 event.padding);
    })
unfolding flow_record overflow_event_bytes connection_key_bytes connection_stats_bytes bytes_le
    key_decoded stats_decoded words_decoded
flow_record-decoded event = refl

-- The event that the eBPF program submits is read back by the agent as it was written, if its fields are
-- in the range of their types, and it has the size that the agent wants.
pub flow_record-overflow_event_bytes :
    (event : FlowRecord)
    → IsFlowRecord event
    → (flow_record (overflow_event_bytes event) ≡ event)
      × length (overflow_event_bytes event) ≡ flow_record_size
unfolding overflow_event_bytes connection_key_bytes connection_stats_bytes bytes_le
flow_record-overflow_event_bytes event range = (
  flow_record-decoded event
      ∙ rw
          (
            key_decoded-id event.key range.key-IsConnectionKey,
            stats_decoded-id event.stats range.stats-IsConnectionStats,
            little_endian-bytes_le 8 range.timestamp_ns-bound,
            little_endian-bytes_le 1 range.reason-bound,
            little_endian-bytes_le 7 range.padding-bound,
          )
          refl,
  refl,
)
