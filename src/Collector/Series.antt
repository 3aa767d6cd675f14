-- ===== src/Collector/Series.antt =====
-- Reading a sequence of calls: all updates of one time series, and all deleted keys, in order.
use kubeadapt_k8s_pulse.Prelude.{
  Bool, List, [], ap, arith, false, if◌then◌else◌, refl, true, ℕ, ◌&&◌, ◌++◌, ◌==◌, ◌∷◌, ◌≡◌,
}
use kubeadapt_k8s_pulse.Prelude.Text.{Text, text_eq}
use kubeadapt_k8s_pulse.Bpf.Types.{ConnectionKey}
use kubeadapt_k8s_pulse.Collector.Metrics.{
  Call, Metric, Update, active_connections, collection_duration, collector_errors,
  connection_tracking_info, connection_traffic_bytes, connection_traffic_packets, delete, dump_maps,
  ip_pairs_batch_size, log_batch, map_utilization, overflow_flows_total, update,
}

abbrev metric_number : Metric → ℕ
metric_number connection_traffic_bytes = 0
metric_number connection_traffic_packets = 1
metric_number active_connections = 2
metric_number connection_tracking_info = 3
metric_number map_utilization = 4
metric_number overflow_flows_total = 5
metric_number ip_pairs_batch_size = 6
metric_number collection_duration = 7
metric_number collector_errors = 8

abbrev pub metric_eq : Metric → Metric → Bool
metric_eq a b = metric_number a == metric_number b

unfoldable pub texts_eq : List Text → List Text → Bool
texts_eq [] [] = true
texts_eq [] (t ∷ ts) = false
texts_eq (s ∷ ss) [] = false
texts_eq (s ∷ ss) (t ∷ ts) = text_eq s t && texts_eq ss ts

module _ {F : Type 0} where
  -- The updates of the series of metric `m` with label values `l`.
  unfoldable pub series : Metric → List Text → List (Call F) → List (Update F)
  series m l [] = []
  series m l (update m' l' u ∷ cs) =
      if metric_eq m' m && texts_eq l' l then u ∷ series m l cs else series m l cs
  series m l (delete key ∷ cs) = series m l cs
  series m l (dump_maps ∷ cs) = series m l cs
  series m l (log_batch level ∷ cs) = series m l cs

  unfoldable pub deletions : List (Call F) → List ConnectionKey
  deletions [] = []
  deletions (update m l u ∷ cs) = deletions cs
  deletions (delete key ∷ cs) = key ∷ deletions cs
  deletions (dump_maps ∷ cs) = deletions cs
  deletions (log_batch level ∷ cs) = deletions cs

  pub series-append :
      (m : Metric) (l : List Text) (xs ys : List (Call F))
      → series m l (xs ++ ys) ≡ series m l xs ++ series m l ys
  unfolding series
  series-append m l [] ys = refl
  series-append m l (update m' l' u ∷ cs) ys = ground (arith, series-append m l cs ys)
  series-append m l (delete key ∷ cs) ys = series-append m l cs ys
  series-append m l (dump_maps ∷ cs) ys = series-append m l cs ys
  series-append m l (log_batch level ∷ cs) ys = series-append m l cs ys

  pub deletions-append :
      (xs ys : List (Call F)) → deletions (xs ++ ys) ≡ deletions xs ++ deletions ys
  unfolding deletions
  deletions-append [] ys = refl
  deletions-append (update m l u ∷ cs) ys = deletions-append cs ys
  deletions-append (delete key ∷ cs) ys = ap (λ l. key ∷ l) (deletions-append cs ys)
  deletions-append (dump_maps ∷ cs) ys = deletions-append cs ys
  deletions-append (log_batch level ∷ cs) ys = deletions-append cs ys
