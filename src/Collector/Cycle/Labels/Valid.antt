-- ===== src/Collector/Cycle/Labels/Valid.antt =====
-- The client library also panics when WithLabelValues is given a value that is not valid UTF-8
-- (validateLabelValues of client_golang). utf8.ValidString is a parameter, of which only is used that it
-- accepts ASCII.
use kubeadapt_k8s_pulse.Prelude.{
  All, Bool, Bool-cases, List, Option, [], arith, false, inl, inr, length, ltb, none, some, true, ℕ,
  ◌++◌, ◌∷◌, ◌≡◌,
}
use kubeadapt_k8s_pulse.Prelude.Each.{All-append, All-perm, All-put}
use kubeadapt_k8s_pulse.Prelude.Eq.{text_keys}
use kubeadapt_k8s_pulse.Prelude.Text.{Text, codes, text_eq}
use kubeadapt_k8s_pulse.Collector.Cycle.{
  ConnectionCollector, CycleEnv, MapView, active_loop, batch_level, collect, export_loop,
  log_batch_size, monitor, publish, traffic_values, utilization, when,
}
use kubeadapt_k8s_pulse.Collector.Cycle.Labels.{AllAccepted, collect-AllAccepted}
use kubeadapt_k8s_pulse.Collector.Cycle.Reading.{
  Acc, Deletion, Visit, accumulate, agg_key, count_protocol, deleted, deletion_errors, empty_acc,
  failed, not_found, read_loop, read_visit,
}
use kubeadapt_k8s_pulse.Collector.Keys.{AggKey, AggStats, agg_keys, protocol_to_string}
use kubeadapt_k8s_pulse.Collector.Keys.Ascii.{
  IsAsciiKey, agg_key-IsAsciiKey, protocol_to_string-IsAscii,
}
use kubeadapt_k8s_pulse.Collector.Metrics.{Call, Level, dump_maps, update}
use kubeadapt_k8s_pulse.Go.Ascii.{IsAscii}
use mathlib.Core.List.{Permᴰ}

-- The label values of a call are ones that the library takes.
abbrev pub HasValidLabels : (Text → Bool) → {F : Type 0} → Call F → Type 0
HasValidLabels valid (update m labels u) = All (λ (l : Text). valid l ≡ true) labels
HasValidLabels valid _ = Unit

abbrev pub AllValid : (Text → Bool) → {F : Type 0} → List (Call F) → Type 0
AllValid valid = All (HasValidLabels valid)

-- The keys of the two maps of a cycle are ASCII.
abbrev HasAsciiKeys : Acc → Type 0
HasAsciiKeys acc =
    All (λ (a : AggKey × AggStats). IsAsciiKey a.0) acc.aggregated
    × All (λ (a : Text × ℕ). IsAscii a.0) acc.protocol_counts

read_visit-HasAsciiKeys :
    (v : Visit) (acc : Acc) → HasAsciiKeys acc → HasAsciiKeys (read_visit v acc)
unfolding read_visit accumulate count_protocol
read_visit-HasAsciiKeys v acc h = (
  All-put IsAsciiKey (agg_key v.key) _ acc.aggregated (agg_key-IsAsciiKey v.key) h.0,
  All-put IsAscii (protocol_to_string v.key.protocol) _ acc.protocol_counts
      (protocol_to_string-IsAscii v.key.protocol) h.1,
)

read_loop-HasAsciiKeys :
    (F : Type 0) (vs : List Visit) (acc : Acc)
    → HasAsciiKeys acc
    → HasAsciiKeys (read_loop {F = F} vs acc).0
unfolding read_loop
read_loop-HasAsciiKeys F [] acc h = h
read_loop-HasAsciiKeys F (v ∷ vs) acc h =
    read_loop-HasAsciiKeys F vs (read_visit v acc) (read_visit-HasAsciiKeys v acc h)

module _ (F : Type 0) (valid : Text → Bool)
    (ascii-valid : (s : Text) → IsAscii s → valid s ≡ true) where
  AllValid-append :
      (xs ys : List (Call F)) → AllValid valid xs → AllValid valid ys → AllValid valid (xs ++ ys)
  AllValid-append xs ys = All-append (HasValidLabels valid) xs ys

  AllValid-when :
      (b : Bool) (call : Call F) → HasValidLabels valid call → AllValid valid (when b call)
  AllValid-when true call h = (h, tt)
  AllValid-when false call h = tt

  read_loop-AllValid : (vs : List Visit) (acc : Acc) → AllValid valid {F = F} (read_loop vs acc).1
  unfolding read_loop
  read_loop-AllValid [] acc = tt
  read_loop-AllValid (v ∷ vs) acc =
      (tt, AllValid-append _ _ (errors v.deletion) (read_loop-AllValid vs (read_visit v acc)))
    where
      errors : (d : Deletion) → AllValid valid {F = F} (deletion_errors d)
      errors failed = ((ascii-valid (codes "bpf_delete_error") (ground arith), tt), tt)
      errors deleted = tt
      errors not_found = tt

  module _ (env : CycleEnv F) where
    export_loop-AllValid :
        (m : List (AggKey × AggStats))
        → valid env.pod_uid ≡ true
        → valid env.node_name ≡ true
        → All (λ (a : AggKey × AggStats). IsAsciiKey a.0) m
        → AllValid valid (export_loop env m)
    unfolding export_loop
    export_loop-AllValid [] uid node h = tt
    export_loop-AllValid (a ∷ m) uid node h =
        let (src, dst, protocol) = h.0 in
        let labels : All (λ (l : Text). valid l ≡ true)
            (traffic_values a.0 env.pod_uid env.node_name) =
          (
            ascii-valid a.0.src_ip src,
            (ascii-valid a.0.dst_ip dst, (ascii-valid a.0.protocol protocol, (uid, (node, tt)))),
          ) in
        (labels, (labels, export_loop-AllValid m uid node h.1))

    active_loop-AllValid :
        (m : List (Text × ℕ))
        → All (λ (a : Text × ℕ). IsAscii a.0) m
        → AllValid valid (active_loop env m)
    unfolding active_loop
    active_loop-AllValid [] h = tt
    active_loop-AllValid (a ∷ m) h = ((ascii-valid a.0 h.0, tt), active_loop-AllValid m h.1)

    utilization-AllValid : (o : Option ℕ) (n : ℕ) → AllValid valid (utilization env o n)
    unfolding utilization
    utilization-AllValid none n = tt
    utilization-AllValid (some max) n =
        AllValid-when (ltb 0 max) _ (ascii-valid (codes "connection_flows") (ground arith), tt)

    log-AllValid : (o : Option Level) → AllValid valid (log_batch_size env o)
    log-AllValid none = tt
    log-AllValid (some level) = (tt, tt)

    monitor-AllValid : (m : MapView) (acc : Acc) → AllValid valid (monitor env m acc)
    unfolding monitor
    monitor-AllValid m acc =
        AllValid-append _ _
          (AllValid-when _ _ (ascii-valid (codes "bpf_iteration_error") (ground arith), tt))
          (AllValid-append _ _ (utilization-AllValid m.max_entries acc.current_entries)
            (tt, log-AllValid (batch_level (length acc.aggregated))))

    module _ (aggregated : (m : List (AggKey × AggStats)) → Permᴰ (env.range_aggregated m) m)
        (counts : (m : List (Text × ℕ)) → Permᴰ (env.range_counts m) m)
        (uid : valid env.pod_uid ≡ true) (node : valid env.node_name ≡ true) where
      publish-AllValid :
          (acc : Acc) (c : ConnectionCollector)
          → HasAsciiKeys acc
          → AllValid valid (publish env acc c).1
      unfolding publish
      publish-AllValid acc c h =
          let keys = All-perm (λ a. IsAsciiKey a.0) (aggregated acc.aggregated) h.0 in
          let protocols = All-perm (λ a. IsAscii a.0) (counts acc.protocol_counts) h.1 in
          elim (Bool-cases (text_eq env.pod_uid [])) [
            | inl anonymous ↦
                rw anonymous ((ascii-valid (codes "missing_pod_uid_env") (ground arith), tt), tt)
            | inr named ↦ rw named (
                AllValid-append _ _
                  (export_loop-AllValid (env.range_aggregated acc.aggregated) uid node keys)
                  (AllValid-append _ _
                    (active_loop-AllValid (env.range_counts acc.protocol_counts) protocols)
                    (
                      (ascii-valid (codes "total_connections_seen") (ground arith), tt),
                      (
                        (ascii-valid (codes "active_connections") (ground arith), tt),
                        ((ascii-valid (codes "collection_duration_ms") (ground arith), tt), tt),
                      ),
                    )))
          ]

      pub collect-AllValid :
          (m : Option MapView) (c : ConnectionCollector) → AllValid valid (collect env m c).1
      unfolding collect
      collect-AllValid none c =
          ((ascii-valid (codes "connection_map_nil") (ground arith), tt), (tt, tt))
      collect-AllValid (some m) c =
          AllValid-append _ _
            (AllValid-append _ _
              (AllValid-when m.info_failed _
                (ascii-valid (codes "map_info_error") (ground arith), tt))
              (AllValid-append _ _ (AllValid-when c.dump_bpf_maps dump_maps tt) (
                AllValid-append _ _ (read_loop-AllValid m.visits empty_acc) (
                  AllValid-append _ _ (monitor-AllValid m (read_loop {F = F} m.visits empty_acc).0)
                    (publish-AllValid (read_loop {F = F} m.visits empty_acc).0 c (
                      read_loop-HasAsciiKeys F m.visits empty_acc
                        (unfold empty_acc in (tt, tt))))))))
            (tt, tt)

-- What the library asks of a call of WithLabelValues and of the method that follows.
abbrev pub AllTaken : (Text → Bool) → {F : Type 0} → List (Call F) → Type 0
AllTaken valid calls = AllAccepted calls × AllValid valid calls

-- If the pod's UID and the node's name are valid UTF-8, then on every path of collect, with or without a
-- map, in whatever orders Go ranges over its maps and for any addresses and protocols, each metric that is
-- updated is one that initMetrics registers, with as many label values as it was registered with, by a
-- method of its kind, and with values that are valid UTF-8.
pub collect-AllTaken :
    {F : Type 0} (valid : Text → Bool) (env : CycleEnv F) (m : Option MapView)
    (c : ConnectionCollector)
    → ((s : Text) → IsAscii s → valid s ≡ true)
    → ((agg : List (AggKey × AggStats)) → Permᴰ (env.range_aggregated agg) agg)
    → ((counts : List (Text × ℕ)) → Permᴰ (env.range_counts counts) counts)
    → valid env.pod_uid ≡ true
    → valid env.node_name ≡ true
    → AllTaken valid (collect env m c).1
collect-AllTaken {F} valid env m c ascii aggregated counts uid node =
    (collect-AllAccepted env m c, collect-AllValid F valid ascii env aggregated counts uid node m c)
