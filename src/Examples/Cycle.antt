-- ===== src/Examples/Cycle.antt =====
-- The theorems on the collector at one map and one agent.
use kubeadapt_k8s_pulse.Prelude.{
  Bool, List, [], arith, if◌then◌else◌, length, ltb, map, refl, some, true, ◌&&◌, ◌+◌, ◌∷◌, ◌≡◌,
}
use kubeadapt_k8s_pulse.Prelude.Text.{Text, codes, text_eq}
use kubeadapt_k8s_pulse.Collector.Cycle.{collect, new_connection_collector, traffic_values}
use kubeadapt_k8s_pulse.Collector.Cycle.Deletes.{collect-deletes}
use kubeadapt_k8s_pulse.Collector.Cycle.Exports.{collect-exports_totals}
use kubeadapt_k8s_pulse.Collector.Cycle.Labels.Valid.{AllTaken, collect-AllTaken}
use kubeadapt_k8s_pulse.Collector.Cycle.Outcome.{collect_anonymous_loses}
use kubeadapt_k8s_pulse.Collector.Cycle.Protocols.{
  collect-active_connections, has_protocol, protocol_flows,
}
use kubeadapt_k8s_pulse.Collector.Cycle.Reading.{Visit}
use kubeadapt_k8s_pulse.Collector.Cycle.Totals.{flow_bytes, flow_packets, is_seen}
use kubeadapt_k8s_pulse.Collector.Keys.{AggKey, u64}
use kubeadapt_k8s_pulse.Collector.Metrics.{
  active_connections, add, connection_traffic_bytes, connection_traffic_packets, set,
}
use kubeadapt_k8s_pulse.Collector.Schedule.{collection_loop}
use kubeadapt_k8s_pulse.Collector.Schedule.Runs.{
  all_visits, collection_loop-counts, collection_loop-increments, increments, ticks,
}
use kubeadapt_k8s_pulse.Collector.Series.{deletions, series}
use kubeadapt_k8s_pulse.Examples.Data.{
  anonymous, connection, fresh, named, round, view, visits, whole,
}
use kubeadapt_k8s_pulse.Go.Ascii.{IsAscii}
use mathlib.Core.List.Permᴰ

abbrev key : AggKey
key = record { src_ip = codes "10.0.0.1"; dst_ip = codes "10.0.0.2"; protocol = codes "tcp" }

collect-exports_totals_example :
    (series connection_traffic_bytes
        (traffic_values key (codes "uid-1") (codes "node-1"))
        (collect named (some view) fresh).1
      ≡ (if is_seen key visits then add (u64 (flow_bytes key visits)) ∷ [] else []))
    × (series connection_traffic_packets
          (traffic_values key (codes "uid-1") (codes "node-1"))
          (collect named (some view) fresh).1
        ≡ (if is_seen key visits then add (u64 (flow_packets key visits)) ∷ [] else []))
unfolding text_eq
collect-exports_totals_example =
    collect-exports_totals named fresh view key refl (λ agg. Permᴰ.refl agg)

collect-deletes_example :
    deletions (collect anonymous (some view) fresh).1
    ≡ connection 40000 6 ∷ connection 40001 6 ∷ connection 40002 17 ∷ []
collect-deletes_example = collect-deletes anonymous fresh view

collect_anonymous_loses_example :
    ((collect anonymous (some view) fresh).0 ≡ fresh)
    × ((l : List Text)
        → series connection_traffic_bytes l (collect anonymous (some view) fresh).1 ≡ [])
    × ((l : List Text)
        → series connection_traffic_packets l (collect anonymous (some view) fresh).1 ≡ [])
    × (deletions (collect anonymous (some view) fresh).1
        ≡ connection 40000 6 ∷ connection 40001 6 ∷ connection 40002 17 ∷ [])
unfolding text_eq
collect_anonymous_loses_example = collect_anonymous_loses anonymous fresh view refl

collect-active_connections_example :
    series active_connections (codes "tcp" ∷ []) (collect named (some view) fresh).1 ≡ (
      if has_protocol (codes "tcp") visits
      then set (protocol_flows (codes "tcp") visits) ∷ []
      else [])
unfolding text_eq
collect-active_connections_example =
    collect-active_connections named fresh view (codes "tcp") refl (λ counts. Permᴰ.refl counts)

-- A test that accepts ASCII and nothing else, in place of utf8.ValidString.
abbrev below_128 : Text → Bool
below_128 [] = true
below_128 (c ∷ s) = ltb c 128 && below_128 s

below_128-ascii : (s : Text) → IsAscii s → below_128 s ≡ true
below_128-ascii [] h = refl
below_128-ascii (c ∷ s) h = ground (arith, h, below_128-ascii s h.1)

collect-AllTaken_example : AllTaken below_128 (collect named (some view) fresh).1
collect-AllTaken_example =
    collect-AllTaken below_128 named (some view) fresh below_128-ascii (λ agg. Permᴰ.refl agg)
      (λ counts. Permᴰ.refl counts) refl refl

collection_loop-increments_example :
    series connection_traffic_bytes
      (traffic_values key (codes "uid-1") (codes "node-1"))
      (collection_loop (ticks whole (codes "uid-1") (codes "node-1") (round ∷ round ∷ [])) fresh).1
    ≡ increments whole (codes "uid-1") (codes "node-1") key (round ∷ round ∷ [])
unfolding text_eq
collection_loop-increments_example =
    collection_loop-increments whole (codes "uid-1") (codes "node-1") key (round ∷ round ∷ []) fresh
      refl

collection_loop-counts_example :
    let (c', calls) =
      collection_loop (ticks whole (codes "uid-1") (codes "node-1") (round ∷ round ∷ [])) fresh in
    (deletions calls ≡ map (λ (v : Visit). v.key) (all_visits (round ∷ round ∷ [])))
    × (c'.total_connections_seen
        ≡ u64 (fresh.total_connections_seen + length (all_visits (round ∷ round ∷ []))))
    × (c'.aggregation_interval ≡ fresh.aggregation_interval)
    × (c'.dump_bpf_maps ≡ fresh.dump_bpf_maps)
unfolding text_eq new_connection_collector
collection_loop-counts_example =
    collection_loop-counts whole (codes "uid-1") (codes "node-1") (round ∷ round ∷ []) fresh refl
      (omega arith)
