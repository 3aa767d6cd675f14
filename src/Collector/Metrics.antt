-- ===== src/Collector/Metrics.antt =====
-- The Prometheus metrics of connection_collector.go: what initMetrics registers, and the calls
-- that the collector makes on them. The client library itself is not modelled: a run of the
-- collector is described by the sequence of its calls.
use kubeadapt_k8s_pulse.Prelude.{List, [], ℕ, ◌∷◌}
use kubeadapt_k8s_pulse.Prelude.Text.{Text, codes}
use kubeadapt_k8s_pulse.Bpf.Types.{ConnectionKey}

pub data Metric : Type 0 where
  connection_traffic_bytes connection_traffic_packets active_connections connection_tracking_info :
      Metric
  map_utilization overflow_flows_total ip_pairs_batch_size collection_duration : Metric
  collector_errors : Metric

pub Metric-discrete : Discrete Metric
Metric-discrete = hlevel

pub data Kind : Type 0 where
  counter gauge histogram : Kind

-- One registration of initMetrics: the field of the collector, its metric's kind, name and labels.
pub record Registration : Type 0 where
  pub metric : Metric
  pub kind : Kind
  pub name : Text
  pub labels : List Text

abbrev traffic_labels : List Text
traffic_labels =
    codes "src_ip"
    ∷ codes "dst_ip"
    ∷ codes "protocol"
    ∷ codes "daemonset_pod_uid"
    ∷ codes "daemonset_node_name"
    ∷ []

abbrev register : Metric → Kind → Text → List Text → Registration
register m k n l = record { metric = m; kind = k; name = n; labels = l }

-- (c *ConnectionCollector) initMetrics, in the order of the MustRegister calls
unfoldable pub init_metrics : List Registration
init_metrics =
    register connection_traffic_bytes counter (codes "kubeadapt_connection_traffic_bytes_total")
      traffic_labels
    ∷ register connection_traffic_packets counter
        (codes "kubeadapt_connection_traffic_packets_total") traffic_labels
    ∷ register active_connections gauge (codes "kubeadapt_active_connections")
        (codes "protocol" ∷ [])
    ∷ register connection_tracking_info gauge (codes "kubeadapt_connection_tracking_info")
        (codes "metric" ∷ [])
    ∷ register map_utilization gauge (codes "kubeadapt_bpf_map_utilization_percent")
        (codes "map_name" ∷ [])
    ∷ register overflow_flows_total counter (codes "kubeadapt_overflow_flows_total") []
    ∷ register ip_pairs_batch_size gauge (codes "kubeadapt_ip_pairs_batch_size") []
    ∷ register collection_duration histogram (codes "kubeadapt_ebpf_collection_duration_seconds") []
    ∷ register collector_errors counter (codes "kubeadapt_collector_errors_total")
        (codes "error_type" ∷ [])
    ∷ []

-- The methods that are called on a metric, with Go's float64 as `F`.
pub data Update (F : Type 0) : Type 0 where
  inc : Update F
  add : F → Update F
  set : F → Update F
  observe : F → Update F

-- float64: the conversions and the arithmetic that the collector uses.
pub record FloatOps (F : Type 0) : Type 0 where
  pub of_ℕ : ℕ → F
  pub div : F → F → F
  pub mul : F → F → F

pub data Level : Type 0 where
  debug info warn error : Level

-- What a cycle of the collector does to the world, in order: m.WithLabelValues(labels...).update,
-- connectionMap.Delete(&key), the dump of the maps, and the message on the batch size.
pub data Call (F : Type 0) : Type 0 where
  update : Metric → List Text → Update F → Call F
  delete : ConnectionKey → Call F
  dump_maps : Call F
  log_batch : Level → Call F

-- c.collectorErrors.WithLabelValues(error_type).Inc()
abbrev pub count_error : {F : Type 0} → Text → Call F
count_error error_type = update collector_errors (error_type ∷ []) inc
