-- ===== src/Collector/Cycle/Reading.antt =====
-- STEP 1 of collect: the loop that reads, aggregates and deletes the entries of the map.
use kubeadapt_k8s_pulse.Prelude.{List, [], ℕ, ◌++◌, ◌+◌, ◌∷◌}
use kubeadapt_k8s_pulse.Prelude.Eq.{text_keys}
use kubeadapt_k8s_pulse.Prelude.GoMap.{lookup, or_else, put}
use kubeadapt_k8s_pulse.Prelude.Text.{Text, codes}
use kubeadapt_k8s_pulse.Bpf.Types.{ConnectionKey, ConnectionStats}
use kubeadapt_k8s_pulse.Collector.Keys.{
  AggKey, AggStats, agg_keys, connection_key_to_ips, new_agg_key, protocol_to_string, u64,
}
use kubeadapt_k8s_pulse.Collector.Metrics.{Call, count_error, delete}

-- The answer of connectionMap.Delete: done, ENOENT, or another error.
pub data Deletion : Type 0 where
  deleted not_found failed : Deletion

-- One successful iter.Next, and what the deletion of its key answers.
pub record Visit : Type 0 where
  pub key : ConnectionKey
  pub stats : ConnectionStats
  pub deletion : Deletion

-- The local variables of collect.
pub record Acc : Type 0 where
  pub aggregated : List (AggKey × AggStats)
  pub protocol_counts : List (Text × ℕ)
  pub flow_count : ℕ
  pub current_entries : ℕ
  pub deleted_count : ℕ

unfoldable pub empty_acc : Acc
empty_acc = record {
  aggregated = [];
  protocol_counts = [];
  flow_count = 0;
  current_entries = 0;
  deleted_count = 0;
}

-- The aggregation key of an entry.
unfoldable pub agg_key : ConnectionKey → AggKey
unfolding new_agg_key
agg_key key =
    let (src_ip, dst_ip) = connection_key_to_ips key in
    new_agg_key src_ip dst_ip (protocol_to_string key.protocol)

abbrev pub zero_stats : AggStats
zero_stats = record { bytes = 0; packets = 0 }

-- agg := aggregated[aggKey]; agg.Bytes += …; agg.Packets += …; aggregated[aggKey] = agg
unfoldable pub accumulate :
    ConnectionKey → ConnectionStats → List (AggKey × AggStats) → List (AggKey × AggStats)
accumulate key stats m =
    let agg = or_else (lookup (agg_key key) m) zero_stats in
    put (agg_key key)
      (record {
        bytes = u64 (agg.bytes + stats.bytes);
        packets = u64 (agg.packets + stats.packets);
      })
      m

-- protocolCounts[protocol]++
unfoldable pub count_protocol : Text → List (Text × ℕ) → List (Text × ℕ)
count_protocol protocol m = put protocol (or_else (lookup protocol m) 0 + 1) m

abbrev deleted_by : Deletion → ℕ
deleted_by failed = 0
deleted_by _ = 1

abbrev pub deletion_errors : {F : Type 0} → Deletion → List (Call F)
deletion_errors failed = count_error (codes "bpf_delete_error") ∷ []
deletion_errors _ = []

-- The body of the loop.
unfoldable pub read_visit : Visit → Acc → Acc
unfolding accumulate count_protocol
read_visit v acc = record {
  aggregated = accumulate v.key v.stats acc.aggregated;
  protocol_counts = count_protocol (protocol_to_string v.key.protocol) acc.protocol_counts;
  flow_count = acc.flow_count + 1;
  current_entries = acc.current_entries + 1;
  deleted_count = acc.deleted_count + deleted_by v.deletion;
}

-- for iter.Next(&key, &stats)
unfoldable pub read_loop : {F : Type 0} → List Visit → Acc → Acc × List (Call F)
unfolding read_visit
read_loop [] acc = (acc, [])
read_loop (v ∷ vs) acc =
    let (acc', calls) = read_loop vs (read_visit v acc) in
    (acc', delete v.key ∷ (deletion_errors v.deletion ++ calls))
