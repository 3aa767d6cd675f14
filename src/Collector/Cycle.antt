-- ===== src/Collector/Cycle.antt =====
-- ConnectionCollector of connection_collector.go: its state, one collection cycle, and the getters.
pub mod Reading
pub mod Totals
pub mod Exports
pub mod Deletes
pub mod Outcome
pub mod Protocols
pub mod Labels
use kubeadapt_k8s_pulse.Prelude.{
  Bool, List, Option, [], false, if◌then◌else◌, length, ltb, map, none, pos, some, true, ℕ, ℤ, ◌&&◌,
  ◌*◌, ◌++◌, ◌+◌, ◌==◌, ◌∷◌,
}
use kubeadapt_k8s_pulse.Prelude.Text.{Text, codes, text_eq}
use Reading.{Acc, Visit, empty_acc, read_loop}
use kubeadapt_k8s_pulse.Collector.Keys.{AggKey, AggStats, u64}
use kubeadapt_k8s_pulse.Collector.Metrics.{
  Call, FloatOps, Level, active_connections, collection_duration, connection_tracking_info,
  connection_traffic_bytes, connection_traffic_packets, count_error, dump_maps, error, inc, info,
  ip_pairs_batch_size, log_batch, map_utilization, observe, set, update, warn,
}
use kubeadapt_k8s_pulse.Collector.Metrics

pub record ConnectionCollector : Type 0 where
  pub dump_bpf_maps : Bool
  pub aggregation_interval : ℤ  -- time.Duration, in nanoseconds
  pub total_connections_seen : ℕ  -- uint64
  pub active_connection_count : ℕ

-- 25 * time.Second
abbrev pub default_aggregation_interval : ℤ
default_aggregation_interval = pos (25 * 1_000_000_000)

unfoldable pub new_connection_collector : Bool → ConnectionCollector
new_connection_collector dump = record {
  dump_bpf_maps = dump;
  aggregation_interval = default_aggregation_interval;
  total_connections_seen = 0;
  active_connection_count = 0;
}

unfoldable pub set_aggregation_interval : ℤ → ConnectionCollector → ConnectionCollector
set_aggregation_interval interval c = record c { aggregation_interval = interval }

-- The connection map as a cycle meets it: the answer of Info, the entries that the iterator yields,
-- each with the outcome of its deletion, and whether the iterator ends with an error.
pub record MapView : Type 0 where
  pub info_failed : Bool
  pub max_entries : Option ℕ
  pub visits : List Visit
  pub iteration_failed : Bool

-- All that one cycle takes from outside, beside the map: the two environment variables, the two
-- readings of the clock, and the orders in which Go ranges over its maps.
pub record CycleEnv (F : Type 0) : Type 0 where
  pub float : FloatOps F
  pub pod_uid : Text
  pub node_name : Text
  pub milliseconds : F
  pub seconds : F
  pub range_aggregated : List (AggKey × AggStats) → List (AggKey × AggStats)
  pub range_counts : List (Text × ℕ) → List (Text × ℕ)

-- The label values of the two traffic counters.
abbrev pub traffic_values : AggKey → Text → Text → List Text
traffic_values k uid node = k.src_ip ∷ k.dst_ip ∷ k.protocol ∷ uid ∷ node ∷ []

abbrev pub when : {A : Type 0} → Bool → A → List A
when b a = if b then a ∷ [] else []

abbrev pub batch_size_info_threshold : ℕ
batch_size_info_threshold = 50_000

abbrev pub batch_size_warn_threshold : ℕ
batch_size_warn_threshold = 150_000

abbrev pub batch_size_crit_threshold : ℕ
batch_size_crit_threshold = 300_000

unfoldable pub batch_level : ℕ → Option Level
batch_level n =
    if ltb batch_size_crit_threshold n
    then some error
    else if ltb batch_size_warn_threshold n
    then some warn
    else if ltb batch_size_info_threshold n
    then some info
    else none

module _ {F : Type 0} (env : CycleEnv F) where
  open env use {float, pod_uid, node_name}

  -- float64(currentEntries) / float64(maxEntries) * 100.0, if maxEntries > 0
  unfoldable pub utilization : Option ℕ → ℕ → List (Call F)
  utilization none entries = []
  utilization (some max) entries = when (ltb 0 max) (
      update map_utilization (codes "connection_flows" ∷ [])
        (set (float.mul (float.div (float.of_ℕ entries) (float.of_ℕ max)) (float.of_ℕ 100))))

  abbrev pub log_batch_size : Option Level → List (Call F)
  log_batch_size none = []
  log_batch_size (some level) = log_batch level ∷ []

  -- The loop of STEP 3 over the aggregated map.
  unfoldable pub export_loop : List (AggKey × AggStats) → List (Call F)
  export_loop [] = []
  export_loop ((k, totals) ∷ rest) =
      update connection_traffic_bytes (traffic_values k pod_uid node_name)
        (Metrics.add (float.of_ℕ totals.bytes))
      ∷ update connection_traffic_packets (traffic_values k pod_uid node_name)
          (Metrics.add (float.of_ℕ totals.packets))
      ∷ export_loop rest

  unfoldable pub active_loop : List (Text × ℕ) → List (Call F)
  active_loop [] = []
  active_loop ((protocol, n) ∷ rest) =
      update active_connections (protocol ∷ []) (set (float.of_ℕ n)) ∷ active_loop rest

  abbrev pub tracking_info : Text → F → Call F
  tracking_info metric x = update connection_tracking_info (metric ∷ []) (set x)

  -- From the check of DAEMONSET_POD_UID to the end of collect.
  unfoldable pub publish : Acc → ConnectionCollector → ConnectionCollector × List (Call F)
  publish acc c =
      if text_eq pod_uid []
      then (c, count_error (codes "missing_pod_uid_env") ∷ [])
      else let seen = u64 (c.total_connections_seen + acc.flow_count) in
        (
          record c { total_connections_seen = seen; active_connection_count = acc.flow_count },
          export_loop (env.range_aggregated acc.aggregated)
              ++ (active_loop (env.range_counts acc.protocol_counts)
                  ++ (tracking_info (codes "total_connections_seen") (float.of_ℕ seen)
                      ∷ tracking_info (codes "active_connections") (float.of_ℕ acc.flow_count)
                      ∷ tracking_info (codes "collection_duration_ms") env.milliseconds
                      ∷ [])),
        )

  -- From the iterator's error to the message on the batch size.
  unfoldable pub monitor : MapView → Acc → List (Call F)
  unfolding utilization batch_level
  monitor m acc =
      when (m.iteration_failed && ltb 0 acc.flow_count) (count_error (codes "bpf_iteration_error"))
      ++ (utilization m.max_entries acc.current_entries
          ++ (update ip_pairs_batch_size [] (set (float.of_ℕ (length acc.aggregated)))
              ∷ log_batch_size (batch_level (length acc.aggregated))))

  unfoldable pub collect_map : MapView → ConnectionCollector → ConnectionCollector × List (Call F)
  collect_map m c =
      let (acc, reads) = read_loop m.visits empty_acc in
      let (c', published) = publish acc c in
      (
        c',
        when m.info_failed (count_error (codes "map_info_error"))
            ++ (when c.dump_bpf_maps dump_maps ++ (reads ++ (monitor m acc ++ published))),
      )

  abbrev pub observe_duration : Call F
  observe_duration = update collection_duration [] (observe env.seconds)

  -- (c *ConnectionCollector) collect; the deferred Observe comes last on every path. `none` is a
  -- manager whose GetConnectionMap returns nil.
  unfoldable pub collect :
      Option MapView → ConnectionCollector → ConnectionCollector × List (Call F)
  unfolding collect_map
  collect none c = (c, count_error (codes "connection_map_nil") ∷ observe_duration ∷ [])
  collect (some m) c = let (c', calls) = collect_map m c in (c', calls ++ observe_duration ∷ [])

-- (c *ConnectionCollector) GetStats
pub record Stats : Type 0 where
  pub active_connections : ℕ
  pub total_connections_seen : ℕ

unfoldable pub get_stats : ConnectionCollector → Stats
get_stats c = record {
  active_connections = c.active_connection_count;
  total_connections_seen = c.total_connections_seen;
}
